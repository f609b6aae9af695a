-- ===== src/ControlPlane/DataConverter/RoundTrip.antt =====
-- src/control_plane/data_converter.py: what encryption and decryption make of payloads.
use aegis_os.Prelude.{
  ℕ, suc, String, ◌==◌, eq_iff, string_eq, ◌≡◌, ◌↔◌, ◌⊎◌, inl, inr, refl, ap, ◌∙◌, Bool-cases, true,
  false, Option, none, some, List, [], ◌∷◌, map,
}
use aegis_os.Dict.{get, holds}
use mathlib.Core.Option.{some-injective}
use aegis_os.ControlPlane.DataConverter.{
  Payload, Fernet, Result, returned, data_converter_error, or_json, encrypted_encoding,
  is_encrypted, encrypted, encode, decrypted, before, decode_one, decode,
}

module _ {Bytes : Type 0} where
  -- What is left of a payload after a round trip: its data, and of its metadata the encoding.
  abbrev pub stripped : Payload Bytes → Payload Bytes
  stripped p = record {
    metadata = ("encoding", or_json (get p.metadata "encoding")) ∷ [];
    bytes = p.bytes;
  }

  abbrev pub NoneEncrypted : List (Payload Bytes) → Type 0
  NoneEncrypted [] = Unit {0}
  NoneEncrypted (p ∷ ps) = (is_encrypted p ≡ false) × NoneEncrypted ps

  module _ (fernet : Fernet Bytes) where
    encrypted-is_encrypted :
        (n : ℕ) (p : Payload Bytes) → is_encrypted (encrypted fernet n p) ≡ true
    unfolding is_encrypted get
    encrypted-is_encrypted n p = refl

    -- Payloads of which none is encrypted yet come back from encryption with their data and their
    -- encoding, "json/plain" if they had none, and with no other metadata.
    pub decode-encode :
        (n : ℕ) (ps : List (Payload Bytes))
        → NoneEncrypted ps
        → decode fernet (encode fernet n ps) ≡ returned (map stripped ps)
    unfolding decode encode decode_one before is_encrypted get
    decode-encode n [] h = refl
    decode-encode n (p ∷ ps) (plain, rest) =
        rw (plain, encode)
          (ap (λ o. decode_one (encrypted fernet n p) o (decode fernet (encode fernet (suc n) ps)))
              (fernet.decrypt-encrypt n p.bytes)
            ∙ ap (before (stripped p)) (decode-encode (suc n) ps rest))

    -- Encryption leaves alone what it has made.
    pub encode-encode :
        (n k : ℕ) (ps : List (Payload Bytes))
        → encode fernet k (encode fernet n ps) ≡ encode fernet n ps
    unfolding encode is_encrypted get
    encode-encode n k [] = refl
    encode-encode n k (p ∷ ps) = elim (Bool-cases (is_encrypted p)) [
      | inl done ↦ rw (done, encode) (rw (done, encode) (ap (λ qs. p ∷ qs) (encode-encode n k ps)))
      | inr plain ↦
          rw (plain, encode) (ap (λ qs. encrypted fernet n p ∷ qs) (encode-encode (suc n) k ps))
    ]

    -- There is a payload that is labelled as encrypted and that Fernet refuses to decrypt.
    abbrev pub Undecipherable : List (Payload Bytes) → Type 0
    Undecipherable [] = ⊥
    Undecipherable (p ∷ ps) =
        ((get p.metadata "encoding" ≡ some "binary/aegis-encrypted")
          × (fernet.decrypt p.bytes ≡ none))
        ⊎ Undecipherable ps

    is_encrypted-eq-true :
        (p : Payload Bytes)
        → (is_encrypted p ≡ true) ↔ (get p.metadata "encoding" ≡ some "binary/aegis-encrypted")
    unfolding is_encrypted
    is_encrypted-eq-true p = holds-eq (get p.metadata "encoding")
      where
        holds-eq :
            (o : Option String)
            → (holds (λ encoding. encoding == encrypted_encoding) o ≡ true)
              ↔ (o ≡ some "binary/aegis-encrypted")
        holds-eq none = (λ h. cc (h), λ h. cc (h))
        holds-eq (some t) = (
          λ h. ap some ((eq_iff t encrypted_encoding).0 h),
          λ h. (eq_iff t encrypted_encoding).1 (some-injective _ _ h),
        )

    before-error :
        (p : Payload Bytes) (c : Result (List (Payload Bytes)))
        → (before p c ≡ data_converter_error) ↔ (c ≡ data_converter_error)
    unfolding before
    before-error p (returned ps) = (λ h. cc (h), λ h. cc (h))
    before-error p data_converter_error = (λ h. refl, λ h. refl)

    decode_one-error :
        (p : Payload Bytes) (o : Option Bytes) (c : Result (List (Payload Bytes)))
        → (decode_one p o c ≡ data_converter_error) ↔ ((o ≡ none) ⊎ (c ≡ data_converter_error))
    unfolding decode_one
    decode_one-error p none c = (λ h. inl refl, λ h. refl)
    decode_one-error p (some bytes) c =
        let iff = before-error (decrypted p bytes) c in
        (λ h. inr (iff.0 h), λ h. elim h [ inl e ↦ cc (e) | inr e ↦ iff.1 e ])

    -- Decryption of payloads fails exactly if Fernet refuses the data of one of those that are labelled as
    -- encrypted, wherever it stands among them; it never refuses for a payload that is not labelled.
    pub decode-Undecipherable :
        (ps : List (Payload Bytes)) → (decode fernet ps ≡ data_converter_error) ↔ Undecipherable ps
    unfolding decode
    decode-Undecipherable [] = (λ h. cc (h), λ h. elim h [ ])
    decode-Undecipherable (p ∷ ps) = elim (Bool-cases (is_encrypted p)) [
      | inl labelled ↦
          let iff = decode_one-error p (fernet.decrypt p.bytes) (decode fernet ps) in
          let rest = decode-Undecipherable ps in
          (
            λ h. elim (iff.0 (rw labelled at h)) [
              | inl bad ↦ inl ((is_encrypted-eq-true p).0 labelled, bad)
              | inr k ↦ inr (rest.0 k)
            ],
            λ h. rw labelled (iff.1 (elim h [ inl bad ↦ inl bad.1 | inr k ↦ inr (rest.1 k) ])),
          )
      | inr plain ↦
          let iff = before-error p (decode fernet ps) in
          let rest = decode-Undecipherable ps in
          (
            λ h. inr (rest.0 (iff.0 (rw plain at h))),
            λ h. rw plain (
                iff.1 (elim h [
                  | inl bad ↦ cc ((is_encrypted-eq-true p).1 bad.0, plain)
                  | inr k ↦ rest.1 k
                ])),
          )
    ]
