-- ===== src/Governance/Session/Validation.antt =====
-- src/governance/session_mgr.py: the checks of a token, and its revocation.
pub mod Revocation
use aegis_os.Prelude.{
  ℕ, ◌-◌, String, Bool, true, false, Option, none, some, contains, ltb, if◌then◌else◌, string_eq,
}
use aegis_os.Prelude.Int.{ℤ, pos, ◌-ℤ◌}
use aegis_os.Dict.{get, is_some}
use aegis_os.Governance.Session.{
  Settings, Payload, TokenClaims, Error, value_error, key_error, jwt_error, token_expired,
  token_revoked, token_action, Result, returned, raised, Decoded, claims, expired_signature,
  invalid, Jose, SessionManager, Call, verification_key, purge_expired_revocations, revoke_jti,
  required, claims_of, option_or,
}

-- `is_revoked`, which drops the expired entries first
unfoldable pub is_revoked : String → ℕ → SessionManager → SessionManager × Bool
is_revoked jti now m =
    let m' = purge_expired_revocations now m in (m', is_some (get m'.revoked_jtis jti))

refuse_revoked : String → Payload → SessionManager × Bool → Call TokenClaims
refuse_revoked jti p (m, true) = (m, raised (token_revoked jti))
refuse_revoked jti p (m, false) = (m, claims_of jti p)

check_jti : Result String → Payload → ℕ → ℕ → SessionManager → Call TokenClaims
unfolding refuse_revoked
check_jti (raised err) p purged_at checked_at m = (m, raised err)
check_jti (returned jti) p purged_at checked_at m =
    refuse_revoked jti p (is_revoked jti checked_at (purge_expired_revocations purged_at m))

check_payload : Decoded → ℕ → ℕ → SessionManager → Call TokenClaims
unfolding check_jti
check_payload (claims p) purged_at checked_at m =
    check_jti (required "jti" p.jti) p purged_at checked_at m
check_payload expired_signature purged_at checked_at m = (m, raised token_expired)
check_payload invalid purged_at checked_at m = (m, raised jwt_error)

decode_with :
    {Token : Type 0}
    → Jose Token
    → Settings
    → Result String
    → Token
    → ℕ
    → ℕ
    → ℕ
    → SessionManager
    → Call TokenClaims
unfolding check_payload
decode_with jose settings (raised err) token decoded_at purged_at checked_at m = (m, raised err)
decode_with jose settings (returned key) token decoded_at purged_at checked_at m =
    check_payload (jose.decode token key settings.token_algorithm decoded_at) purged_at checked_at m

-- `validate_token`, which reads the clock three times
unfoldable pub validate_token :
    {Token : Type 0} → Jose Token → Settings → Token → ℕ → ℕ → ℕ → SessionManager → Call TokenClaims
unfolding decode_with
validate_token jose settings token decoded_at purged_at checked_at m =
    decode_with jose settings (verification_key jose settings) token decoded_at purged_at checked_at
      m

revoke_id : Settings → Option String → Option ℕ → ℕ → SessionManager → Call String
revoke_id settings none exp now m = (m, raised (key_error "jti"))
revoke_id settings (some jti) exp now m =
    (revoke_jti settings jti (some (option_or now exp)) now m, returned jti)

revoke_claims : Settings → Option Payload → ℕ → SessionManager → Call String
unfolding revoke_id
revoke_claims settings none now m = (m, raised (value_error "Unable to revoke malformed token"))
revoke_claims settings (some p) now m = revoke_id settings p.jti p.exp now m

-- `revoke_token`, without a valid signature
unfoldable pub revoke_token :
    {Token : Type 0} → Jose Token → Settings → Token → ℕ → SessionManager → Call String
unfolding revoke_claims
revoke_token jose settings token now m = revoke_claims settings (jose.unverified_claims token) now m

-- `ensure_action_allowed`
unfoldable pub ensure_action_allowed : TokenClaims → String → Result (Unit {0})
ensure_action_allowed c action =
    if contains c.allowed_actions action then returned tt else raised (token_action c.jti action)

-- `is_expired`
unfoldable pub is_expired : TokenClaims → ℕ → Bool
is_expired c now = ltb c.expires_at now

-- `time_remaining`
unfoldable pub time_remaining : TokenClaims → ℕ → ℤ
time_remaining c now = pos c.expires_at -ℤ pos now
