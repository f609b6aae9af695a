-- ===== src/Governance/Session/Tests.antt =====
-- Runs of the tokens of src/governance/session_mgr.py, with a library whose tokens are the claims
-- themselves, with the key.
use aegis_os.Prelude.{
  ℕ, ◌+◌, String, ◌≡◌, refl, true, some, none, Option, Bool, ◌==◌, string_eq, if◌then◌else◌, arith,
}
use aegis_os.Dict.{get}
use aegis_os.Governance.ReplayStore.{micros}
use aegis_os.Governance.Session.{
  Settings, Payload, Decoded, claims, expired_signature, invalid, Jose, TokenRequest, new_manager,
  returned, signing_key, verification_key, issue_token, expired_at,
}
use aegis_os.Governance.Session.Validation.{validate_token, revoke_token}
use aegis_os.Governance.Session.Validation.Revocation.{
  Keys, worth, token, validate_token-issue_token, validate_token-revoke_token,
  validate_token-rotation,
}

abbrev Clear : Type 0
Clear = Payload × String

abbrev decode_clear : Clear → String → String → ℕ → Decoded
decode_clear (p, key) verification alg now =
    if key == verification
    then if expired_at p now then expired_signature else claims p
    else invalid

abbrev payload_in : Clear → Option Payload
payload_in (p, key) = some p

abbrev same_key : String → String → String → Bool
same_key alg key verification = key == verification

decode_round :
    (p : Payload) (key verification alg : String) (now : ℕ)
    → same_key alg key verification ≡ true
    → decode_clear (p, key) verification alg now
      ≡ (if expired_at p now then expired_signature else claims p)
decode_round p key verification alg now same = rw same

abbrev jose : Jose Clear
jose = record {
  encode = λ p key alg. (p, key);
  decode = decode_clear;
  unverified_claims = payload_in;
  public_pem = λ pem. pem;
  matches = same_key;
  decode-encode = decode_round;
  unverified-encode = λ p key verification alg same. refl;
}

abbrev settings : Settings
settings = record {
  token_expiry_seconds = 900;
  token_algorithm = "HS256";
  token_secret_key = "secret";
  token_private_key = "";
  token_public_key = "";
  dpop_proof_ttl_seconds = 300;
  dpop_clock_skew_seconds = 30;
}

signs_with : signing_key jose settings ≡ returned "secret"
unfolding signing_key
signs_with = refl

verifies_with : verification_key jose settings ≡ returned "secret"
unfolding verification_key
verifies_with = refl

abbrev keys : Keys jose settings
keys = record {
  key = "secret";
  verification = "secret";
  signs = signs_with;
  verifies = verifies_with;
  fits = refl;
}

-- A request for an hour, four times the default.
abbrev request : TokenRequest
request = record {
  agent_type = "finance";
  requester_id = "tim";
  metadata = none;
  session_id = none;
  allowed_actions = none;
  role = none;
  expires_in_seconds = some 3600;
  rotation_key = some "llm:task-1";
  task_id = none;
  confirmation_jkt = none;
}

validate_token-issue_token_example :
    ((issue_token jose settings request "jti-1" 5 5 new_manager).1
      ≡ returned (token keys request "jti-1" 5))
    × ((validate_token jose settings (token keys request "jti-1" 5) 7 7 8 new_manager).1
        ≡ worth keys request "jti-1" 5 7 8 (get new_manager.revoked_jtis "jti-1"))
validate_token-issue_token_example =
    validate_token-issue_token keys request "jti-1" 5 5 new_manager refl 7 7 8 (omega arith)
      new_manager

validate_token-revoke_token_example :
    (validate_token jose settings
      (token keys request "jti-1" 5)
      7
      7
      8
      (revoke_token jose settings (token keys request "jti-1" 5) 6 new_manager).0).1
    ≡ worth keys request "jti-1" 5 7 8 (some (5 + micros 3600))
validate_token-revoke_token_example =
    validate_token-revoke_token keys request "jti-1" 5 5 new_manager refl 7 7 8 (omega arith) 6
      new_manager

-- Half an hour after the rotation.
validate_token-rotation_example :
    let m1 = (issue_token jose settings request "jti-1" 5 5 new_manager).0 in
    let m2 = (issue_token jose settings request "jti-2" 6 6 m1).0 in
    (validate_token jose settings
      (token keys request "jti-1" 5)
      (micros 1800)
      (micros 1800)
      (micros 1800)
      m2).1
    ≡ worth keys request "jti-1" 5 (micros 1800) (micros 1800) (some (6 + micros 900))
validate_token-rotation_example =
    validate_token-rotation keys request "jti-1" 5 5 new_manager refl (micros 1800) (micros 1800)
      (micros 1800) (omega arith) request "jti-2" "llm:task-1" 6 6 refl refl refl

-- There the rotated token is taken again.
rotated_token_is_taken :
    worth keys request "jti-1" 5 (micros 1800) (micros 1800) (some (6 + micros 900))
    ≡ worth keys request "jti-1" 5 (micros 1800) (micros 1800) none
rotated_token_is_taken = refl
