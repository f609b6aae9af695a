-- ===== src/Governance/Dpop/Tests.antt =====
-- Runs of the proofs of possession of src/governance/session_mgr.py, with a library whose proofs are
-- taken as they are.
use aegis_os.Prelude.{
  ℕ, ◌+◌, String, ◌≡◌, ◌≢◌, ◌↔◌, ◌&&◌, refl, true, false, some, none, [], ◌∷◌, ◌==◌, string_eq,
  if◌then◌else◌, arith, leb,
}
use aegis_os.Dict.{get, put, purge, remove, holds}
use aegis_os.Governance.ReplayStore.{
  micros, Entries, register_if_unused, register_if_unused_lem, is_live,
}
use aegis_os.Governance.Session.{Settings, new_manager, returned}
use aegis_os.Governance.Dpop.{
  Proofs, Header, DPoPProofClaims, proof_claims, Jwk, validate_dpop_proof,
}
use aegis_os.Governance.Dpop.Replay.{
  Presentation, present, present_all, validate_dpop_proof-single_use,
}

abbrev no_entries : Entries
no_entries = []

abbrev proof_id : String
proof_id = "jti-1"

register_if_unused_lem_example :
    let (entries', fresh) = register_if_unused "jti-1" 300 7 [] in
    ((fresh ≡ true) ↔ (is_live 7 (get no_entries "jti-1") ≡ false))
    × (get entries' "jti-1" ≡ (
        if fresh && (proof_id == proof_id)
        then some (7 + micros 300)
        else if holds (λ t. leb t 7) (get no_entries "jti-1")
        then none
        else get no_entries "jti-1"))
register_if_unused_lem_example = register_if_unused_lem "jti-1" "jti-1" 300 7 []

abbrev settings : Settings
settings = record {
  token_expiry_seconds = 900;
  token_algorithm = "HS256";
  token_secret_key = "secret";
  token_private_key = "";
  token_public_key = "";
  dpop_proof_ttl_seconds = 300;
  dpop_clock_skew_seconds = 30;
}

abbrev key : Jwk
key = ("kty", "RSA") ∷ ("e", "AQAB") ∷ ("n", "n") ∷ []

-- The proof was made at second 100.
abbrev made : DPoPProofClaims
made = record { jti = "jti-1"; htm = "POST"; htu = "/run"; iat = 100; ath = none; nonce = none }

abbrev header : Header
header = record { typ = some "dpop+jwt"; alg = some "RS256"; jwk = some key }

abbrev proofs : Proofs String
proofs = record {
  unverified_header = λ proof. some header;
  decode = λ proof pem alg now. proof_claims made;
  digest = λ jwk. "digest";
  ec_pem = λ curve x y. "pem";
  rsa_pem = λ e n. "pem";
  hash = λ t. t;
  encode = λ c pem jwk. "proof";
  upper = λ t. t;
}

abbrev at : ℕ → Presentation String
at t = record {
  proof = "proof";
  request = record { http_method = "POST"; http_url = "/run"; access_token = none; nonce = none };
  now = t;
  decoded_at = t;
  registered_at = t;
}

taken : (present proofs settings (at (micros 101)) new_manager).1 ≡ returned made
unfolding validate_dpop_proof get put register_if_unused purge remove
taken = refl

validate_dpop_proof-single_use_example :
    (present proofs settings (at (micros 900)) (
      present_all proofs settings
        (at (micros 200) ∷ [])
        (present proofs settings (at (micros 101)) new_manager).0)).1
    ≢ returned made
validate_dpop_proof-single_use_example =
    validate_dpop_proof-single_use proofs settings (at (micros 101)) (at (micros 900))
      (at (micros 200) ∷ []) new_manager taken (omega arith, tt) (omega arith)

-- A proof from a clock that is 30 seconds ahead is taken at second 70, and again at second 371.
taken_early : (present proofs settings (at (micros 70)) new_manager).1 ≡ returned made
unfolding validate_dpop_proof get put register_if_unused purge remove
taken_early = refl

taken_again :
    (present proofs settings
      (at (micros 371))
      (present proofs settings (at (micros 70)) new_manager).0).1
    ≡ returned made
unfolding validate_dpop_proof get put register_if_unused purge remove
taken_again = refl
