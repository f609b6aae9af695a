-- ===== src/Adapters/Providers.antt =====
-- src/adapters/openai_adapter.py, src/adapters/anthropic_adapter.py and src/adapters/local_llama.py: an
-- adapter's call of its provider. The HTTP client is a parameter. The span and its attributes are left out.
pub mod Vendors
pub mod Posting
use aegis_os.Prelude.{
  ℕ, suc, ◌+◌, String, ◌==◌, string_eq, Bool, true, false, Option, none, some, List, [], ◌∷◌, ◌++◌,
  if◌then◌else◌,
}
use aegis_os.Prelude.Int.{pos}
use aegis_os.Decimal.{Decimal}
use aegis_os.Audit.{AuditLogger, DateTime, Event, Kwargs, Outcome, text, stage_event}
use aegis_os.Governance.Policy.{is_success}
use aegis_os.Governance.Session
use aegis_os.Governance.Session.{Jose, Settings, SessionManager, TokenClaims}
use aegis_os.Governance.Session.Validation.{validate_token}
use aegis_os.Governance.Dpop.{Proofs}
use aegis_os.ControlPlane.Steps.{Result, returned, raised, Step, ◌>>=◌, ◌>>◌, pure, raise, handle}
use aegis_os.ControlPlane.Orchestrator.{LlmResponse}
use aegis_os.Adapters
use aegis_os.Adapters.{AegisMetadata, Times, adapter_security, require_sender_constrained_request}

-- `LLMRequest`
pub record Request (Token : Type 0) : Type 0 where
  pub prompt : String
  pub model : String
  pub max_tokens : ℕ
  pub temperature : Decimal
  pub system_prompt : String
  pub metadata : AegisMetadata Token

pub record Message : Type 0 where
  pub role : String
  pub content : String

-- The JSON object that is sent; a key that it may lack is an option.
pub record Payload : Type 0 where
  pub model : String
  pub max_tokens : ℕ
  pub messages : List Message
  pub temperature : Option Decimal
  pub system : Option String

pub record Post : Type 0 where
  pub url : String
  pub json : Payload
  pub headers : List (String × String)

-- What is read of a JSON object that is received. A key that it has holds a value of its type.
pub record Choice : Type 0 where
  pub content : Option String
  pub finish_reason : Option String

pub record Usage : Type 0 where
  pub total_tokens : Option ℕ
  pub input_tokens : Option ℕ
  pub output_tokens : Option ℕ

pub record Document : Type 0 where
  pub choices : Option (List Choice)
  pub content : Option (List (Option String))
  pub usage : Option Usage
  pub stop_reason : Option String

-- What comes of a post: an error of the transport, or a status and a document, if it is JSON.
pub data Answer : Type 0 where
  transport_error : Answer
  response : ℕ → Option Document → Answer

-- `KeyError` and `IndexError` are one, as are the errors of the HTTP client.
pub data Error : Type 0 where
  guard_error : Adapters.Error → Error
  http_error bad_body missing_key audit_ordering : Error

-- What an adapter holds, its posts, and how often the clock was read.
pub record State : Type 0 where
  pub sessions : SessionManager
  pub audit : AuditLogger
  pub posts : List Post
  pub readings : ℕ

abbrev pub M : Type 0 → Type 0
M A = Step State Error A

pub record Env (Token : Type 0) : Type 0 where
  pub jose : Jose Token
  pub proofs : Proofs Token
  pub settings : Settings
  pub require_sender_constrained_tokens : Bool
  pub client : Post → Answer
  pub clock : ℕ → ℕ
  pub traceparent : String
  pub message : Adapters.Error → String

-- What the three adapters differ in: their name, where they post, what they post, and what they read.
pub record Provider (Token : Type 0) : Type 0 where
  pub provider_name : String
  pub http_method : String
  pub http_url : String
  pub payload : Request Token → Post
  pub read : Request Token → Document → Option LlmResponse

abbrev pub or_unknown : Option String → String
or_unknown none = "unknown"
or_unknown (some t) = if t == "" then "unknown" else t

-- The task and the agent of the claims that are known.
abbrev pub named_by : Option TokenClaims → String × String
named_by none = ("unknown", "unknown")
named_by (some c) = (or_unknown c.task_id, c.agent_type)

-- `isinstance(exc.__cause__, DPoPReplayError)`
abbrev pub rejection_event : Option Session.Error → String
rejection_event (some (Session.dpop_replay jti)) = "dpop.proof.replayed"
rejection_event other = "dpop.proof.rejected"

pub reading : M ℕ
reading st = (record st { readings = suc st.readings }, returned st.readings)

pub after_audit : State → Option AuditLogger → State × Result Error (Unit {0})
after_audit st none = (st, raised audit_ordering)
after_audit st (some audit) = (record st { audit = audit }, returned tt)

pub in_audit : (AuditLogger → Option AuditLogger) → M (Unit {0})
in_audit f st = after_audit st (f st.audit)

pub after_guard :
    State
    → SessionManager × Adapters.Result (Option TokenClaims)
    → State × Result Error (Option TokenClaims)
after_guard st (m, Adapters.returned o) = (record st { sessions = m }, returned o)
after_guard st (m, Adapters.raised err) = (record st { sessions = m }, raised (guard_error err))

-- `try: … except Exception: pass`
pub after_lookup : State → Session.Call TokenClaims → State × Result Error (Option TokenClaims)
after_lookup st (m, Session.returned c) = (record st { sessions = m }, returned (some c))
after_lookup st (m, Session.raised err) = (record st { sessions = m }, returned none)

pub answered : Answer → M Document
answered transport_error = raise http_error
answered (response status none) = if is_success status then raise bad_body else raise http_error
answered (response status (some d)) = if is_success status then pure d else raise http_error

pub read_or_raise : Option LlmResponse → M LlmResponse
read_or_raise none = raise missing_key
read_or_raise (some r) = pure r

module _ {Token : Type 0} (env : Env Token) (p : Provider Token) where
  -- `self._audit.stage_event`, in the stage "llm-invoke"
  pub log : Outcome → String → String × String → Kwargs → M (Unit {0})
  log outcome event (task_id, agent_type) kwargs = do
    n ← reading
    in_audit (
        stage_event outcome
          (record {
            event = event;
            task_id = task_id;
            agent_type = agent_type;
            stage = "llm-invoke";
            traceparent = env.traceparent;
            timestamp_override = none;
            kwargs = ("provider", text p.provider_name) ∷ kwargs;
          })
          (record { wall = pos (env.clock n); utc_offset = some (pos 0) }))

  pub times : M Times
  times = do
    t ← reading
    purged_at ← reading
    checked_at ← reading
    now ← reading
    decoded_at ← reading
    registered_at ← reading
    pure (record {
      t = env.clock t;
      purged_at = env.clock purged_at;
      checked_at = env.clock checked_at;
      now = env.clock now;
      decoded_at = env.clock decoded_at;
      registered_at = env.clock registered_at;
    })

  -- The claims of the token of a request that was refused, if it has a valid one.
  pub lookup : Option Token → M (Option TokenClaims)
  lookup none = pure none
  lookup (some token) = do
    t ← reading
    purged ← reading
    checked ← reading
    λ st. after_lookup st (
        validate_token env.jose env.settings token (env.clock t) (env.clock purged)
          (env.clock checked) st.sessions)

  -- `except AdapterSecurityError`
  pub refuse : Request Token → Error → M (Option TokenClaims)
  refuse r (guard_error (adapter_security cause)) = do
    claims ← lookup r.metadata.aegis_token
    log Outcome.deny (rejection_event cause) (named_by claims)
        (("error_message", text (env.message (adapter_security cause))) ∷ [])
    raise (guard_error (adapter_security cause))
  refuse r err = raise err

  pub require_constrained : Request Token → Times → M (Option TokenClaims)
  require_constrained r x st = after_guard st (
      require_sender_constrained_request env.jose env.proofs env.settings
        env.require_sender_constrained_tokens r.metadata p.http_method p.http_url x st.sessions)

  pub log_validated : Option TokenClaims → M (Unit {0})
  log_validated none = pure tt
  log_validated (some c) =
      log Outcome.allow "dpop.proof.validated" (named_by (some c)) (("jti", text c.jti) ∷ [])

  -- The check before the post, with its events.
  pub guard : Request Token → M (Unit {0})
  guard r = do x ← times; claims ← handle (require_constrained r x) (refuse r); log_validated claims

  -- `await client.post(...)`
  pub post : Post → M Document
  post q st = answered (env.client q) (record st { posts = st.posts ++ q ∷ [] })

  -- `complete`
  unfoldable pub complete : Request Token → M LlmResponse
  complete r = do guard r; document ← post (p.payload r); read_or_raise (p.read r document)
