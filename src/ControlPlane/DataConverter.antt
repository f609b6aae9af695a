-- ===== src/ControlPlane/DataConverter.antt =====
-- src/control_plane/data_converter.py: the encryption of payloads. Fernet is a parameter, and so are
-- the bytes that it works on.
pub mod RoundTrip
mod Tests
use aegis_os.Prelude.{
  ℕ, suc, String, string_eq, ◌==◌, ◌≡◌, Bool, true, false, Option, none, some, List, [], ◌∷◌,
  if◌then◌else◌,
}
use aegis_os.Dict.{Dict, get, holds}

-- `Payload`, with its field `data` as `bytes`.
pub record Payload (Bytes : Type 0) : Type 0 where
  pub metadata : Dict String String
  pub bytes : Bytes

-- `Fernet` with its key: the n-th encryption has the n-th time and initial vector; what it made is
-- decrypted, and else there may be an `InvalidToken`.
pub record Fernet (Bytes : Type 0) : Type 0 where
  pub encrypt : ℕ → Bytes → Bytes
  pub decrypt : Bytes → Option Bytes
  pub decrypt-encrypt : (n : ℕ) (d : Bytes) → decrypt (encrypt n d) ≡ some d

-- `_ENCRYPTED_ENCODING` and `_ORIGINAL_ENCODING_KEY`
abbrev pub encrypted_encoding : String
encrypted_encoding = "binary/aegis-encrypted"

abbrev pub original_encoding_key : String
original_encoding_key = "aegis/original-encoding"

-- `_DEV_KEY`, before it is encoded
abbrev pub dev_key : String
dev_key = "aegis-dev-only-32byte-key-x12345"

-- The key of `__init__`: the one given, that of the environment unless it is empty, or the
-- development key.
pub resolve_key : {Bytes : Type 0} → (String → Bytes) → Bytes → Option Bytes → Option String → Bytes
resolve_key encode_text development (some key) raw = key
resolve_key encode_text development none none = development
resolve_key encode_text development none (some raw) =
    if raw == "" then development else encode_text raw

pub data Result (A : Type 0) : Type 0 where
  returned : A → Result A
  data_converter_error : Result A

abbrev pub or_json : Option String → String
or_json none = "json/plain"
or_json (some encoding) = encoding

module _ {Bytes : Type 0} where
  pub is_encrypted : Payload Bytes → Bool
  is_encrypted p = holds (λ encoding. encoding == encrypted_encoding) (get p.metadata "encoding")

  abbrev pub encrypted : Fernet Bytes → ℕ → Payload Bytes → Payload Bytes
  encrypted fernet n p = record {
    metadata =
        ("encoding", encrypted_encoding)
        ∷ (original_encoding_key, or_json (get p.metadata "encoding"))
        ∷ [];
    bytes = fernet.encrypt n p.bytes;
  }

  -- `encode`, whose first encryption is the n-th
  pub encode : Fernet Bytes → ℕ → List (Payload Bytes) → List (Payload Bytes)
  encode fernet n [] = []
  encode fernet n (p ∷ ps) =
      let unchanged = encode fernet n ps in
      let rest = encode fernet (suc n) ps in
      if is_encrypted p then p ∷ unchanged else encrypted fernet n p ∷ rest

  abbrev pub decrypted : Payload Bytes → Bytes → Payload Bytes
  decrypted p bytes = record {
    metadata = ("encoding", or_json (get p.metadata original_encoding_key)) ∷ [];
    bytes = bytes;
  }

  -- A payload before the result of those that follow it.
  pub before : Payload Bytes → Result (List (Payload Bytes)) → Result (List (Payload Bytes))
  before p (returned ps) = returned (p ∷ ps)
  before p data_converter_error = data_converter_error

  pub decode_one :
      Payload Bytes → Option Bytes → Result (List (Payload Bytes)) → Result (List (Payload Bytes))
  decode_one p none rest = data_converter_error
  decode_one p (some bytes) rest = before (decrypted p bytes) rest

  -- `decode`
  pub decode : Fernet Bytes → List (Payload Bytes) → Result (List (Payload Bytes))
  decode fernet [] = returned []
  decode fernet (p ∷ ps) =
      let rest = decode fernet ps in
      if is_encrypted p then decode_one p (fernet.decrypt p.bytes) rest else before p rest
