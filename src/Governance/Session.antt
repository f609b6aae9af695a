-- ===== src/Governance/Session.antt =====
-- src/governance/session_mgr.py: `SessionManager`, its access tokens and its revocation list.
-- Times are in microseconds; the library `jose` and the key loader are a parameter.
pub mod Validation
mod Tests
use aegis_os.Prelude.{
  ℕ, ◌+◌, ◌*◌, ◌/◌, String, ◌≡◌, Bool, true, false, Option, none, some, List, [], ◌∷◌, contains,
  ltb, leb, ◌==◌, if◌then◌else◌, string_eq, ◌||◌,
}
use text.Mathlib.Text.{starts_with}
use aegis_os.Dict.{Dict, get, put, purge}
use aegis_os.Governance.ReplayStore.{micros, Entries, live}

-- The part of `settings` that the tokens use; a text that is not configured is empty.
pub record Settings : Type 0 where
  pub token_expiry_seconds : ℕ
  pub token_algorithm : String
  pub token_secret_key : String
  pub token_private_key : String
  pub token_public_key : String
  pub dpop_proof_ttl_seconds : ℕ
  pub dpop_clock_skew_seconds : ℕ

-- The claims of a token as JSON; a key that is absent, or null, is `none`.
pub record Payload : Type 0 where
  pub jti : Option String
  pub sub : Option String
  pub agent_type : Option String
  pub session_id : Option String
  pub task_id : Option String
  pub allowed_actions : Option (List String)
  pub role : Option String
  pub iat : Option ℕ
  pub exp : Option ℕ
  pub metadata : Option (Dict String String)
  pub cnf : Option String

pub record TokenClaims : Type 0 where
  pub jti : String
  pub sub : String
  pub agent_type : String
  pub session_id : Option String
  pub task_id : Option String
  pub allowed_actions : List String
  pub role : Option String
  pub issued_at : ℕ
  pub expires_at : ℕ
  pub metadata : Dict String String
  pub cnf : Option String

-- `ValueError`, `KeyError`, `JWTError` and the errors of this module.
pub data Error : Type 0 where
  value_error : String → Error
  key_error : String → Error
  jwt_error : Error
  token_expired : Error
  token_revoked : String → Error
  token_action : String → String → Error
  token_binding : String → Error
  dpop_proof : String → Error
  dpop_replay : String → Error

pub data Result (A : Type 0) : Type 0 where
  returned : A → Result A
  raised : Error → Result A

abbrev pub bind : {A B : Type 0} → Result A → (A → Result B) → Result B
bind (returned a) f = f a
bind (raised err) f = raised err

-- What `jwt.decode` does: return the claims, or raise.
pub data Decoded : Type 0 where
  claims : Payload → Decoded
  expired_signature : Decoded
  invalid : Decoded

-- `jose` compares whole seconds, and a token is expired after the second of its `exp`.
abbrev pub expired_at : Payload → ℕ → Bool
expired_at p now = elim p.exp [ none ↦ false | some exp ↦ ltb (exp / 1000000) (now / 1000000) ]

-- `jwt.encode`, `jwt.decode` and `jwt.get_unverified_claims`, with a key and an algorithm, and the
-- PEM of the public key of a private one. A token is what `encode` makes.
pub record Jose (Token : Type 0) : Type 0 where
  pub encode : Payload → String → String → Token
  pub decode : Token → String → String → ℕ → Decoded
  pub unverified_claims : Token → Option Payload
  pub public_pem : String → String
  -- the key that verifies is the secret itself, or the public half of a private key
  pub matches : String → String → String → Bool
  pub decode-encode :
      (p : Payload) (key verification alg : String) (now : ℕ)
      → matches alg key verification ≡ true
      → decode (encode p key alg) verification alg now
        ≡ (if expired_at p now then expired_signature else claims p)
  pub unverified-encode :
      (p : Payload) (key verification alg : String)
      → matches alg key verification ≡ true
      → unverified_claims (encode p key alg) ≡ some p

-- The state of the manager.
pub record SessionManager : Type 0 where
  pub revoked_jtis : Entries
  pub rotation_index : Dict String String
  pub replay_store : Entries

-- A method returns the manager as it leaves it, also where it raises.
abbrev pub Call : Type 0 → Type 0
Call A = SessionManager × Result A

-- `__init__`, with the replay store in memory
abbrev pub new_manager : SessionManager
new_manager = record { revoked_jtis = []; rotation_index = []; replay_store = [] }

module _ {Token : Type 0} (jose : Jose Token) (settings : Settings) where
  -- `_signing_key`
  unfoldable pub signing_key : Result String
  signing_key =
      if starts_with settings.token_algorithm "HS"
      then returned settings.token_secret_key
      else if settings.token_private_key == ""
      then raised (value_error "AEGIS_TOKEN_PRIVATE_KEY must be configured")
      else returned settings.token_private_key

  -- `_verification_key`
  unfoldable pub verification_key : Result String
  verification_key =
      if starts_with settings.token_algorithm "HS"
      then returned settings.token_secret_key
      else if settings.token_public_key == ""
      then if settings.token_private_key == ""
        then raised (value_error "AEGIS_TOKEN_PUBLIC_KEY must be configured")
        else returned (jose.public_pem settings.token_private_key)
      else returned settings.token_public_key

-- `_purge_expired_revocations`
abbrev pub purge_expired_revocations : ℕ → SessionManager → SessionManager
purge_expired_revocations now m = record m { revoked_jtis = live now m.revoked_jtis }

-- `revoke_jti`, at the time `now`
unfoldable pub revoke_jti : Settings → String → Option ℕ → ℕ → SessionManager → SessionManager
revoke_jti settings jti none now m = record m {
  revoked_jtis = put m.revoked_jtis jti (now + micros settings.token_expiry_seconds);
}
revoke_jti settings jti (some expires_at) now m = record m {
  revoked_jtis = put m.revoked_jtis jti expires_at;
}

-- The arguments of `issue_token`; the thumbprint of the confirmation key stands for the key.
pub record TokenRequest : Type 0 where
  pub agent_type : String
  pub requester_id : String
  pub metadata : Option (Dict String String)
  pub session_id : Option String
  pub allowed_actions : Option (List String)
  pub role : Option String
  pub expires_in_seconds : Option ℕ
  pub rotation_key : Option String
  pub task_id : Option String
  pub confirmation_jkt : Option String

abbrev pub option_or {ℓ} : {A : Type ℓ} → A → Option A → A
option_or a none = a
option_or a (some b) = b

-- The claims that are signed, with the id that `uuid4` gave.
abbrev pub payload_of : Settings → TokenRequest → String → ℕ → Payload
payload_of settings r jti now = record {
  jti = some jti;
  sub = some r.requester_id;
  agent_type = some r.agent_type;
  session_id = r.session_id;
  task_id = r.task_id;
  allowed_actions = some (option_or [] r.allowed_actions);
  role = r.role;
  iat = some now;
  exp = some (now + micros (option_or settings.token_expiry_seconds r.expires_in_seconds));
  metadata = some (option_or [] r.metadata);
  cnf = r.confirmation_jkt;
}

-- `if rotation_key in self._rotation_index: self.revoke_jti(...)`
revoke_found : Settings → Option String → ℕ → SessionManager → SessionManager
revoke_found settings none now m = m
revoke_found settings (some jti) now m = revoke_jti settings jti none now m

pub rotate_out : Settings → Option String → ℕ → SessionManager → SessionManager
unfolding revoke_found
rotate_out settings none now m = m
rotate_out settings (some key) now m = revoke_found settings (get m.rotation_index key) now m

pub index_token : Option String → String → SessionManager → SessionManager
index_token none jti m = m
index_token (some key) jti m = record m { rotation_index = put m.rotation_index key jti }

signed :
    {Token : Type 0}
    → Jose Token
    → Settings
    → Result String
    → TokenRequest
    → String
    → ℕ
    → SessionManager
    → Call Token
unfolding index_token
signed jose settings (raised err) r jti now m = (m, raised err)
signed jose settings (returned key) r jti now m = (
  index_token r.rotation_key jti m,
  returned (jose.encode (payload_of settings r jti now) key settings.token_algorithm),
)

-- `issue_token`, begun at `now`, where a rotation reads the clock at `revoked_at`
unfoldable pub issue_token :
    {Token : Type 0}
    → Jose Token
    → Settings
    → TokenRequest
    → String
    → ℕ
    → ℕ
    → SessionManager
    → Call Token
unfolding signed signing_key rotate_out
issue_token jose settings r jti now revoked_at m =
    if (r.agent_type == "") || (r.requester_id == "")
    then (m, raised (value_error "agent_type and requester_id must not be empty"))
    else signed jose settings (signing_key jose settings) r jti now
        (rotate_out settings r.rotation_key revoked_at (purge_expired_revocations now m))

-- `issue_sender_constrained_token`
unfoldable pub issue_sender_constrained_token :
    {Token : Type 0}
    → Jose Token
    → Settings
    → TokenRequest
    → String
    → String
    → ℕ
    → ℕ
    → SessionManager
    → Call Token
unfolding issue_token
issue_sender_constrained_token jose settings r public_jkt =
    issue_token jose settings (record r { confirmation_jkt = some public_jkt })

-- `payload[name]`
abbrev pub required : {A : Type 0} → String → Option A → Result A
required name none = raised (key_error name)
required name (some a) = returned a

-- The claims, read in the order of the code.
unfoldable pub claims_of : String → Payload → Result TokenClaims
claims_of jti p = bind (required "sub" p.sub) (λ sub.
    bind (required "agent_type" p.agent_type) (λ agent_type.
      bind (required "iat" p.iat) (λ issued_at. bind (required "exp" p.exp) (λ expires_at.
        returned (record {
          jti = jti;
          sub = sub;
          agent_type = agent_type;
          session_id = p.session_id;
          task_id = p.task_id;
          allowed_actions = option_or [] p.allowed_actions;
          role = p.role;
          issued_at = issued_at;
          expires_at = expires_at;
          metadata = option_or [] p.metadata;
          cnf = p.cnf;
        })))))
