-- ===== src/Governance/Dpop.antt =====
-- src/governance/session_mgr.py: proofs of possession (DPoP), which bind a token to a key. Texts are
-- hashed, keys are encoded and proofs are signed by a library that is a parameter.
pub mod Replay
mod Tests
use aegis_os.Prelude.{
  ℕ, ◌+◌, ◌*◌, ◌/◌, String, Bool, true, false, not, ◌||◌, Option, none, some, List, [], ◌∷◌, ltb,
  ◌==◌, if◌then◌else◌, string_eq,
}
use aegis_os.Dict.{Dict, get}
use aegis_os.Governance.ReplayStore.{micros, Entries, register_if_unused}
use aegis_os.Governance.Session.{
  Settings, TokenClaims, value_error, token_binding, dpop_proof, dpop_replay, Result, returned,
  raised, bind, Jose, SessionManager, Call, option_or, required,
}
use aegis_os.Governance.Session.Validation.{validate_token}

-- A public key as a JSON object.
abbrev pub Jwk : Type 0
Jwk = Dict String String

-- The header of a proof; `jwk` is `none` where it is no object.
pub record Header : Type 0 where
  pub typ : Option String
  pub alg : Option String
  pub jwk : Option Jwk

-- `iat` is in seconds.
pub record DPoPProofClaims : Type 0 where
  pub jti : String
  pub htm : String
  pub htu : String
  pub iat : ℕ
  pub ath : Option String
  pub nonce : Option String

-- What decoding a proof and validating its claims does; `incomplete` is pydantic's `ValidationError`.
pub data DecodedProof : Type 0 where
  proof_claims : DPoPProofClaims → DecodedProof
  expired_proof : DecodedProof
  bad_signature : DecodedProof
  incomplete : DecodedProof

pub record Proofs (Token : Type 0) : Type 0 where
  pub unverified_header : String → Option Header
  pub decode : String → String → String → ℕ → DecodedProof
  -- the SHA-256 of the sorted JSON object, in base 64
  pub digest : Jwk → String
  pub ec_pem : String → String → String → String
  pub rsa_pem : String → String → String
  pub hash : Token → String
  -- `jwt.encode` with the private key and the key that is put in the header
  pub encode : DPoPProofClaims → String → Jwk → String
  pub upper : String → String

ec_fields : Jwk → Result Jwk
ec_fields jwk = bind (required "crv" (get jwk "crv")) (λ crv.
    bind (required "x" (get jwk "x")) (λ x.
      bind (required "y" (get jwk "y"))
        (λ y. returned (("crv", crv) ∷ ("kty", "EC") ∷ ("x", x) ∷ ("y", y) ∷ []))))

rsa_fields : Jwk → Result Jwk
rsa_fields jwk = bind (required "e" (get jwk "e")) (λ e.
    bind (required "n" (get jwk "n")) (λ n. returned (("e", e) ∷ ("kty", "RSA") ∷ ("n", n) ∷ [])))

abbrev is_type : String → Option String → Bool
is_type kty none = false
is_type kty (some k) = k == kty

-- `_required_jwk_fields`
unfoldable pub required_jwk_fields : Jwk → Result Jwk
unfolding ec_fields rsa_fields
required_jwk_fields jwk =
    if is_type "EC" (get jwk "kty")
    then ec_fields jwk
    else if is_type "RSA" (get jwk "kty")
    then rsa_fields jwk
    else raised (value_error "Unsupported JWK key type")

-- `public_jwk_thumbprint`
unfoldable pub public_jwk_thumbprint : {Token : Type 0} → Proofs Token → Jwk → Result String
unfolding required_jwk_fields
public_jwk_thumbprint proofs jwk =
    bind (required_jwk_fields jwk) (λ fields. returned (proofs.digest fields))

-- `_curve_from_name`; a curve is its name.
unfoldable pub curve_from_name : String → Result String
curve_from_name name =
    if (name == "P-256") || (name == "P-384") || (name == "P-521")
    then returned name
    else raised (value_error "Unsupported JWK curve")

-- `_public_pem_from_jwk`
unfoldable pub public_pem_from_jwk : {Token : Type 0} → Proofs Token → Jwk → Result String
unfolding curve_from_name
public_pem_from_jwk proofs jwk =
    if is_type "EC" (get jwk "kty")
    then bind (required "crv" (get jwk "crv")) (λ crv. bind (curve_from_name crv) (λ curve.
      bind (required "x" (get jwk "x"))
        (λ x. bind (required "y" (get jwk "y")) (λ y. returned (proofs.ec_pem curve x y)))))
    else if is_type "RSA" (get jwk "kty")
    then bind (required "e" (get jwk "e"))
        (λ e. bind (required "n" (get jwk "n")) (λ n. returned (proofs.rsa_pem e n)))
    else raised (value_error "Unsupported JWK key type")

-- The request that a proof is presented with.
pub record Request (Token : Type 0) : Type 0 where
  pub http_method : String
  pub http_url : String
  pub access_token : Option Token
  pub nonce : Option String

-- The key in the header.
abbrev pub embedded_jwk : Header → Result Jwk
embedded_jwk h = elim h.jwk [
  | none ↦ raised (dpop_proof "DPoP proof header must embed a public JWK")
  | some jwk ↦ returned jwk
]

abbrev pub proof_header : {Token : Type 0} → Proofs Token → String → Result Header
proof_header proofs proof = elim (proofs.unverified_header proof) [
  | none ↦ raised (dpop_proof "Malformed DPoP proof header")
  | some h ↦ returned h
]

verified : DecodedProof → Result DPoPProofClaims
verified (proof_claims c) = returned c
verified expired_proof = raised (dpop_proof "DPoP proof has expired")
verified bad_signature = raised (dpop_proof "DPoP proof signature validation failed")
verified incomplete = raised (value_error "ValidationError")

-- The header, the key and the signature.
decoded_proof : {Token : Type 0} → Proofs Token → String → ℕ → Result DPoPProofClaims
unfolding verified public_pem_from_jwk
decoded_proof proofs proof decoded_at = bind (proof_header proofs proof) (λ h.
    if is_type "dpop+jwt" h.typ
    then bind (embedded_jwk h) (λ jwk.
      bind (public_pem_from_jwk proofs jwk)
        (λ pem. verified (proofs.decode proof pem (option_or "ES256" h.alg) decoded_at)))
    else raised (dpop_proof "DPoP proof header typ must be 'dpop+jwt'"))

-- `claim != expected`, where nothing is expected of an argument that is absent
abbrev pub differs : Option String → Option String → Bool
differs claim none = false
differs claim (some expected) = not (is_type expected claim)

abbrev pub hash_of : {Token : Type 0} → Proofs Token → Option Token → Option String
hash_of proofs none = none
hash_of proofs (some access_token) = some (proofs.hash access_token)

-- Is `iat` outside of the window around the current time?
abbrev pub outside_window : Settings → ℕ → ℕ → Bool
outside_window settings iat now =
    ltb (micros iat + micros settings.dpop_proof_ttl_seconds) now
    || ltb (now + micros settings.dpop_clock_skew_seconds) (micros iat)

-- Raise for the first test that stands.
first_failed : {A : Type 0} → List (Bool × String) → A → Result A
first_failed [] a = returned a
first_failed ((test, message) ∷ tests) a =
    let rest = first_failed tests a in if test then raised (dpop_proof message) else rest

-- The checks of the claims against the request, in the order of the code.
abbrev claim_tests :
    {Token : Type 0}
    → Proofs Token
    → Settings
    → Request Token
    → ℕ
    → DPoPProofClaims
    → List (Bool × String)
claim_tests proofs settings r now c =
    (not (proofs.upper c.htm == proofs.upper r.http_method), "DPoP proof htm mismatch")
    ∷ (not (c.htu == r.http_url), "DPoP proof htu mismatch")
    ∷ (outside_window settings c.iat now, "DPoP proof iat is outside the acceptable time window")
    ∷ (differs c.nonce r.nonce, "DPoP proof nonce mismatch")
    ∷ (
      differs c.ath (hash_of proofs r.access_token),
      "DPoP proof ath mismatch for presented access token",
    )
    ∷ []

check_claims :
    {Token : Type 0}
    → Proofs Token
    → Settings
    → Request Token
    → ℕ
    → DPoPProofClaims
    → Result DPoPProofClaims
unfolding first_failed
check_claims proofs settings r now c = first_failed (claim_tests proofs settings r now c) c

fresh_or_replay : DPoPProofClaims → SessionManager → Entries × Bool → Call DPoPProofClaims
fresh_or_replay c m (entries, true) = (record m { replay_store = entries }, returned c)
fresh_or_replay c m (entries, false) =
    (record m { replay_store = entries }, raised (dpop_replay c.jti))

register : Settings → ℕ → SessionManager → Result DPoPProofClaims → Call DPoPProofClaims
unfolding fresh_or_replay
register settings now m (raised err) = (m, raised err)
register settings now m (returned c) =
    fresh_or_replay c m
      (register_if_unused c.jti settings.dpop_proof_ttl_seconds now m.replay_store)

-- `validate_dpop_proof`, which reads the clock when it begins; `jose` and the replay store have
-- their own readings.
unfoldable pub validate_dpop_proof :
    {Token : Type 0}
    → Proofs Token
    → Settings
    → String
    → Request Token
    → ℕ
    → ℕ
    → ℕ
    → SessionManager
    → Call DPoPProofClaims
unfolding decoded_proof check_claims register
validate_dpop_proof proofs settings proof r now decoded_at registered_at m =
    register settings registered_at m
      (bind (decoded_proof proofs proof decoded_at) (check_claims proofs settings r now))

-- The key of the proof has the thumbprint that the token names.
check_binding : {Token : Type 0} → Proofs Token → String → TokenClaims → Result TokenClaims
unfolding public_jwk_thumbprint
check_binding proofs proof c = elim c.cnf [
  | none ↦ raised (token_binding "Access token is not sender-constrained (missing cnf.jkt)")
  | some jkt ↦ bind (proof_header proofs proof) (λ h. bind (embedded_jwk h) (λ jwk.
      bind (public_jwk_thumbprint proofs jwk) (λ thumbprint.
        if thumbprint == jkt
        then returned c
        else raised
            (token_binding "DPoP proof key thumbprint does not match access token cnf.jkt"))))
]

-- The proof is validated for the token; the claims that are returned are the token's.
with_proof : TokenClaims → Call DPoPProofClaims → Call TokenClaims
with_proof c (m, returned proof) = (m, returned c)
with_proof c (m, raised err) = (m, raised err)

bound : (TokenClaims → SessionManager → Call TokenClaims) → Call TokenClaims → Call TokenClaims
bound f (m, returned c) = f c m
bound f (m, raised err) = (m, raised err)

-- `validate_sender_constrained_token`
unfoldable pub validate_sender_constrained_token :
    {Token : Type 0}
    → Jose Token
    → Proofs Token
    → Settings
    → Token
    → String
    → Request Token
    → ℕ
    → ℕ
    → ℕ
    → ℕ
    → ℕ
    → ℕ
    → SessionManager
    → Call TokenClaims
unfolding bound check_binding with_proof validate_dpop_proof
validate_sender_constrained_token jose proofs settings token proof r t purged_at checked_at now
      decoded_at registered_at m =
    bound
      (λ c n. with_proof c (
        validate_dpop_proof proofs settings proof (record r { access_token = some token }) now
          decoded_at registered_at n))
      (bound (λ c n. (n, check_binding proofs proof c))
        (validate_token jose settings token t purged_at checked_at m))

-- The arguments of `issue_dpop_proof`; the time is a whole second.
pub record ProofRequest (Token : Type 0) : Type 0 where
  pub http_method : String
  pub http_url : String
  pub access_token : Option Token
  pub nonce : Option String
  pub issued_at : Option ℕ
  pub proof_jti : Option String

-- `proof_jti or str(uuid4())`: an empty text counts as none.
abbrev proof_id : Option String → String → String
proof_id none fresh = fresh
proof_id (some jti) fresh = if jti == "" then fresh else jti

-- `issue_dpop_proof`, at the time `now`, where `uuid4` gives `fresh`
unfoldable pub issue_dpop_proof :
    {Token : Type 0} → Proofs Token → String → Jwk → ProofRequest Token → String → ℕ → String
issue_dpop_proof proofs private_key_pem public_jwk r fresh now =
    let c : DPoPProofClaims = record {
      jti = proof_id r.proof_jti fresh;
      htm = proofs.upper r.http_method;
      htu = r.http_url;
      iat = option_or (now / 1000000) r.issued_at;
      ath = hash_of proofs r.access_token;
      nonce = r.nonce;
    } in
    proofs.encode c private_key_pem public_jwk
