-- ===== src/ControlPlane/Router/Hitl.antt =====
-- src/control_plane/router.py: the routes that approve or deny a task. The body of the request is
-- what the validation makes of it, and the texts of the header are split by a parameter.
pub mod Authority
mod Tests
use Prim.Native.String.{◌++◌ as str_append}
use aegis_os.Prelude.{
  ℕ, String, string_eq, ◌==◌, Bool, true, false, not, ◌||◌, Option, none, some, List, if◌then◌else◌,
}
use aegis_os.Governance.Policy
use aegis_os.Governance.Policy.{PolicyInput, PolicyResult, Posted, evaluate}
use aegis_os.Governance.Session
use aegis_os.Governance.Session.{Jose, Settings, SessionManager, TokenClaims}
use aegis_os.Governance.Session.Validation.{validate_token, ensure_action_allowed}
use aegis_os.ControlPlane.ApprovalService
use aegis_os.ControlPlane.ApprovalService.{
  Temporal, ApprovalStatusSnapshot, ApprovalDecisionResult, get_snapshot, approve_pending,
  deny_pending,
}
use aegis_os.ControlPlane.Router.{HttpError, http_error, uncaught, Reply, replied, failed}

-- `str.partition(" ")` without the separator, `str.lower`, and the token that a text is.
pub record HeaderTools (Token : Type 0) : Type 0 where
  pub partition : String → String × String
  pub lower : String → String
  pub token_of : String → Token

-- What `configure_hitl_controls` is given, with what its parts use.
pub record Controls (Token S : Type 0) : Type 0 where
  pub jose : Jose Token
  pub settings : Settings
  pub temporal : Temporal S
  pub opa : PolicyInput → Posted
  pub header_tools : HeaderTools Token

pub record ApprovalDecisionRequest : Type 0 where
  pub approver_id : String
  pub reason : String

pub record ApprovalDecisionResponse : Type 0 where
  pub task_id : String
  pub status : String
  pub actor_id : String
  pub timestamp : ℕ

-- The readings of the clock.
pub record Times : Type 0 where
  pub decoded_at : ℕ
  pub purged_at : ℕ
  pub checked_at : ℕ
  pub replied_at : ℕ

-- What follows a reply.
unfoldable pub and_then : {A B : Type 0} → Reply A → (A → Reply B) → Reply B
and_then (failed err) f = failed err
and_then (replied a) f = f a

-- The handlers of `_authorize_hitl_action`.
pub claims_reply : {A : Type 0} → Session.Result A → Reply A
claims_reply (Session.returned a) = replied a
claims_reply (Session.raised Session.token_expired) = failed (http_error 401)
claims_reply (Session.raised (Session.token_revoked jti)) = failed (http_error 401)
claims_reply (Session.raised (Session.token_action jti action)) = failed (http_error 403)
claims_reply (Session.raised Session.jwt_error) = failed (http_error 401)
claims_reply (Session.raised err) = failed uncaught

-- The handlers of the routes.
pub service_reply : {A : Type 0} → ApprovalService.Result A → Reply A
service_reply (ApprovalService.returned a) = replied a
service_reply (ApprovalService.raised ApprovalService.not_found) = failed (http_error 404)
service_reply
      (ApprovalService.raised (ApprovalService.conflict task_id approval_state workflow_status)) =
    failed (http_error 409)
service_reply (ApprovalService.raised ApprovalService.rpc_error) = failed uncaught

-- The token and the task belong to different sessions.
pub is_cross_session : Option String → Option String → Bool
is_cross_session none s = false
is_cross_session (some a) none = false
is_cross_session (some a) (some b) = not (a == b)

module _ {Token S : Type 0} (c : Controls Token S) (task_id action : String) where
  -- `_extract_bearer_token`
  pub extract_bearer_token : Option String → Reply Token
  extract_bearer_token none = failed (http_error 401)
  extract_bearer_token (some authorization) =
      let (scheme, token) = c.header_tools.partition authorization in
      if not (c.header_tools.lower scheme == "bearer") || (token == "")
      then failed (http_error 401)
      else replied (c.header_tools.token_of token)

  pub allow_action : TokenClaims → Reply TokenClaims
  allow_action claims =
      and_then (claims_reply (ensure_action_allowed claims (str_append "hitl:" action)))
        (λ done. replied claims)

  pub check_session : TokenClaims → ApprovalStatusSnapshot → Reply ApprovalStatusSnapshot
  check_session claims snapshot =
      if is_cross_session claims.session_id snapshot.session_id
      then failed (http_error 403)
      else replied snapshot

  abbrev pub hitl_input : TokenClaims → ApprovalStatusSnapshot → PolicyInput
  hitl_input claims snapshot = record {
    agent_type = snapshot.agent_type;
    requester_id = claims.sub;
    action = action;
    resource = "workflow:pending_approval";
    principal_role = claims.role;
    token_expired = false;
    metadata = claims.metadata;
  }

  pub check_policy : TokenClaims → Policy.Result PolicyResult → Reply String
  check_policy claims (Policy.raised err) = failed uncaught
  check_policy claims (Policy.returned result) =
      if not result.allowed then failed (http_error 403) else replied claims.sub

  -- The rest of `_authorize_hitl_action`, once the claims are validated.
  pub authorize_claims : S → TokenClaims → Reply String
  authorize_claims s claims = and_then (allow_action claims) λ allowed.
      and_then (service_reply (get_snapshot c.temporal task_id s)) λ snapshot.
        and_then (check_session claims snapshot)
          λ same. check_policy claims (evaluate (c.opa (hitl_input claims snapshot)))

  pub authorize_token : Times → SessionManager → S → Reply Token → SessionManager × Reply String
  authorize_token t m s (failed err) = (m, failed err)
  authorize_token t m s (replied token) =
      let (m', claims) =
        validate_token c.jose c.settings token t.decoded_at t.purged_at t.checked_at m in
      (m', and_then (claims_reply claims) (authorize_claims s))

  -- `_authorize_hitl_action`
  pub authorize_hitl_action :
      Option String → Times → SessionManager → S → SessionManager × Reply String
  authorize_hitl_action authorization t m s =
      authorize_token t m s (extract_bearer_token authorization)

  pub decided :
      Times → S × ApprovalService.Result ApprovalDecisionResult → S × Reply ApprovalDecisionResponse
  decided t (s, result) = (
    s,
    and_then (service_reply result) (λ r. replied (record {
      task_id = task_id;
      status = r.status;
      actor_id = r.actor_id;
      timestamp = t.replied_at;
    })),
  )

  pub decide_authorized :
      Times
      → (S → S × ApprovalService.Result ApprovalDecisionResult)
      → S
      → SessionManager × Reply String
      → SessionManager × S × Reply ApprovalDecisionResponse
  decide_authorized t decide s (m, failed err) = (m, s, failed err)
  decide_authorized t decide s (m, replied sub) =
      let (s', reply) = decided t (decide (c.temporal.elapse s)) in (m, s', reply)

module _ {Token S : Type 0} where
  -- What the two routes share.
  pub decide_task :
      Option (Controls Token S)
      → String
      → String
      → Option ApprovalDecisionRequest
      → Option String
      → Times
      → (Temporal S
          → String
          → String
          → String
          → S
          → S × ApprovalService.Result ApprovalDecisionResult)
      → SessionManager
      → S
      → SessionManager × S × Reply ApprovalDecisionResponse
  decide_task none action task_id body authorization t decide m s = (m, s, failed uncaught)
  decide_task (some c) action task_id none authorization t decide m s =
      (m, s, failed (http_error 400))
  decide_task (some c) action task_id (some body) authorization t decide m s =
      decide_authorized c task_id action t (decide c.temporal task_id body.approver_id body.reason)
        s (authorize_hitl_action c task_id action authorization t m s)

  -- `approve_task`
  pub approve_task :
      Option (Controls Token S)
      → String
      → Option ApprovalDecisionRequest
      → Option String
      → Times
      → SessionManager
      → S
      → SessionManager × S × Reply ApprovalDecisionResponse
  approve_task c task_id body authorization t m s =
      decide_task c "approve" task_id body authorization t (λ temporal. approve_pending temporal) m
        s

  -- `deny_task`
  pub deny_task :
      Option (Controls Token S)
      → String
      → Option ApprovalDecisionRequest
      → Option String
      → Times
      → SessionManager
      → S
      → SessionManager × S × Reply ApprovalDecisionResponse
  deny_task c task_id body authorization t m s =
      decide_task c "deny" task_id body authorization t (λ temporal. deny_pending temporal) m s
