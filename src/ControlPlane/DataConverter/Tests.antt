-- ===== src/ControlPlane/DataConverter/Tests.antt =====
-- Runs of src/control_plane/data_converter.py, with a cipher that puts its name before the text.
use aegis_os.Prelude.{ℕ, String, ◌≡◌, ◌↔◌, Option, some, none, refl, List, [], ◌∷◌, map}
use aegis_os.Dict.{get}
use aegis_os.ControlPlane.DataConverter.{
  Payload, Fernet, returned, data_converter_error, is_encrypted, encode, decode,
}
use aegis_os.ControlPlane.DataConverter.RoundTrip.{
  stripped, Undecipherable, decode-encode, decode-Undecipherable,
}

pub data Bytes : Type 0 where
  plain : String → Bytes
  cipher : ℕ → Bytes → Bytes

abbrev decipher : Bytes → Option Bytes
decipher (plain text) = none
decipher (cipher n b) = some b

abbrev fernet : Fernet Bytes
fernet = record { encrypt = cipher; decrypt = decipher; decrypt-encrypt = λ n d. refl }

-- The second payload has metadata beside its encoding.
abbrev payloads : List (Payload Bytes)
payloads =
    record { metadata = []; bytes = plain "{}" }
    ∷ record {
      metadata = ("encoding", "binary/plain") ∷ ("messageType", "Task") ∷ [];
      bytes = plain "task";
    }
    ∷ []

decode-encode_example : decode fernet (encode fernet 7 payloads) ≡ returned (map stripped payloads)
unfolding is_encrypted get
decode-encode_example = decode-encode fernet 7 payloads (refl, (refl, tt))

-- It is labelled as encrypted, and is not.
abbrev forged : List (Payload Bytes)
forged =
    record { metadata = ("encoding", "binary/aegis-encrypted") ∷ []; bytes = plain "task" }
    ∷ payloads

decode-Undecipherable_example :
    (decode fernet forged ≡ data_converter_error) ↔ Undecipherable fernet forged
decode-Undecipherable_example = decode-Undecipherable fernet forged
