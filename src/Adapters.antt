-- ===== src/Adapters.antt =====
-- src/adapters/base.py: the check that an adapter makes before it sends a request. Of the metadata it
-- reads three entries, which are the arguments here; an empty text counts as none.
pub mod Protection
pub mod Providers
mod Tests
use aegis_os.Prelude.{
  ℕ, String, string_eq, ◌==◌, Bool, true, false, ◌||◌, Option, none, some, if◌then◌else◌,
}
use aegis_os.Dict.{holds}
use aegis_os.Governance.Session
use aegis_os.Governance.Session.{Jose, Settings, SessionManager, TokenClaims, Call}
use aegis_os.Governance.Dpop.{Proofs, Request, validate_sender_constrained_token}

-- `metadata.get(…)` of "aegis_protected", "aegis_token" and "aegis_dpop_proof"
pub record AegisMetadata (Token : Type 0) : Type 0 where
  pub aegis_protected : Option String
  pub aegis_token : Option Token
  pub aegis_dpop_proof : Option String

-- `AdapterSecurityError` with its cause, or an error of the session manager that is passed on
pub data Error : Type 0 where
  adapter_security : Option Session.Error → Error
  session_error : Session.Error → Error

pub data Result (A : Type 0) : Type 0 where
  returned : A → Result A
  raised : Error → Result A

-- `except (DPoPReplayError, DPoPProofError, TokenBindingError)`
abbrev pub security_error : Session.Error → Error
security_error (Session.dpop_replay jti) = adapter_security (some (Session.dpop_replay jti))
security_error (Session.dpop_proof m) = adapter_security (some (Session.dpop_proof m))
security_error (Session.token_binding m) = adapter_security (some (Session.token_binding m))
security_error err = session_error err

-- The readings of the clock.
pub record Times : Type 0 where
  pub t : ℕ
  pub purged_at : ℕ
  pub checked_at : ℕ
  pub now : ℕ
  pub decoded_at : ℕ
  pub registered_at : ℕ

module _ {Token : Type 0} (jose : Jose Token) (proofs : Proofs Token) (settings : Settings) where
  abbrev pub is_protected : Bool → AegisMetadata Token → Bool
  is_protected require_sender_constrained_tokens metadata =
      holds (λ v. v == "true") metadata.aegis_protected || require_sender_constrained_tokens

  pub guarded : Call TokenClaims → SessionManager × Result (Option TokenClaims)
  guarded (m, Session.returned claims) = (m, returned (some claims))
  guarded (m, Session.raised err) = (m, raised (security_error err))

  abbrev pub checked : Token → String → String → String → Times → SessionManager → Call TokenClaims
  checked token proof http_method http_url x m =
      validate_sender_constrained_token jose proofs settings token proof
        (record {
          http_method = http_method;
          http_url = http_url;
          access_token = none;
          nonce = none;
        })
        x.t x.purged_at x.checked_at x.now x.decoded_at x.registered_at m

  pub with_both :
      Option Token
      → Option String
      → String
      → String
      → Times
      → SessionManager
      → SessionManager × Result (Option TokenClaims)
  with_both none proof http_method http_url x m = (m, raised (adapter_security none))
  with_both (some token) none http_method http_url x m = (m, raised (adapter_security none))
  with_both (some token) (some proof) http_method http_url x m =
      guarded (checked token proof http_method http_url x m)

  -- `require_sender_constrained_request`
  pub require_sender_constrained_request :
      Bool
      → AegisMetadata Token
      → String
      → String
      → Times
      → SessionManager
      → SessionManager × Result (Option TokenClaims)
  require_sender_constrained_request require_all metadata http_method http_url x m =
      let both =
        with_both metadata.aegis_token metadata.aegis_dpop_proof http_method http_url x m in
      if is_protected require_all metadata then both else (m, returned none)
