-- ===== src/ControlPlane/Router/Hitl/Tests.antt =====
-- Runs of the routes of src/control_plane/router.py that decide on a task.
use mathlib.Core.Option.{map as map_option}
use aegis_os.Prelude.{string_eq, ◌==◌, ◌≡◌, inr, true, some, refl, contains, if◌then◌else◌}
use aegis_os.Dict.{get, put, purge}
use aegis_os.Samples.{jose, settings, reviewer, single, waiting, opa}
use aegis_os.Governance.ReplayStore.{micros, live}
use aegis_os.Governance.Session.{Payload, new_manager, verification_key, claims_of}
use aegis_os.Governance.Session.Validation.{validate_token, is_revoked, ensure_action_allowed}
use aegis_os.Governance.Policy.{evaluate}
use aegis_os.ControlPlane.Approval
use aegis_os.ControlPlane.Approval.{WorkflowState, deliver}
use aegis_os.ControlPlane.ApprovalService.{get_snapshot, get_pending_snapshot, approve_pending}
use aegis_os.ControlPlane.ApprovalService.Decisions.{Awaiting}
use aegis_os.ControlPlane.Router.{http_error, replied, failed}
use aegis_os.ControlPlane.Router.Hitl.{
  Controls, ApprovalDecisionRequest, ApprovalDecisionResponse, Times, and_then, claims_reply,
  service_reply, is_cross_session, extract_bearer_token, allow_action, check_session, check_policy,
  authorize_claims, authorize_token, authorize_hitl_action, decided, decide_authorized, decide_task,
  approve_task, deny_task,
}
use aegis_os.ControlPlane.Router.Hitl.Authority.{
  Authorizes, Untouched, approve_task-Authorizes, approve_task-Untouched,
}

abbrev controls : Controls Payload WorkflowState
controls = record {
  jose = jose;
  settings = settings;
  temporal = single;
  opa = opa;
  header_tools = record {
    partition = λ text. if text == "Bearer t" then ("Bearer", "t") else ("", "");
    lower = λ text. if text == "Bearer" then "bearer" else text;
    token_of = λ text. reviewer;
  };
}

abbrev body : ApprovalDecisionRequest
body = record { approver_id = "anna"; reason = "fine" }

abbrev times : Times
times = record {
  decoded_at = micros 5;
  purged_at = micros 5;
  checked_at = micros 5;
  replied_at = micros 6;
}

abbrev approved : WorkflowState
approved = record waiting {
  approval_signal = some (record { approver_id = "anna"; reason = "fine"; approved = true });
}

abbrev answer : ApprovalDecisionResponse
answer = record { task_id = "task-1"; status = "approved"; actor_id = "anna"; timestamp = micros 6 }

-- The holder of the token is "tim", and the approver is whom the body names.
accepted :
    approve_task (some controls) "task-1" (some body) (some "Bearer t") times new_manager waiting
    ≡ (new_manager, approved, replied answer)
unfolding approve_task decide_task decide_authorized decided authorize_hitl_action authorize_token
    authorize_claims extract_bearer_token allow_action check_session check_policy claims_reply
    service_reply is_cross_session and_then validate_token is_revoked ensure_action_allowed
    verification_key claims_of get put purge contains evaluate get_snapshot get_pending_snapshot
    approve_pending deliver live
accepted = refl

approve_task-Authorizes_example :
    Authorizes controls "task-1" "approve" (some "Bearer t") times new_manager waiting
    × Awaiting single "task-1" waiting
    × (single.workflow approved "task-1"
        ≡ map_option
            (deliver (
              Approval.approve (record { approver_id = "anna"; reason = "fine"; approved = true })))
            (single.workflow waiting "task-1"))
    × (answer ≡ record {
      task_id = "task-1";
      status = "approved";
      actor_id = "anna";
      timestamp = micros 6;
    })
approve_task-Authorizes_example =
    approve_task-Authorizes controls "task-1" body (some "Bearer t") times new_manager waiting
      accepted

-- The token does not allow a denial.
refused :
    deny_task (some controls) "task-1" (some body) (some "Bearer t") times new_manager waiting
    ≡ (new_manager, waiting, failed (http_error 403))
unfolding deny_task decide_task decide_authorized decided authorize_hitl_action authorize_token
    authorize_claims extract_bearer_token allow_action check_session check_policy claims_reply
    service_reply is_cross_session and_then validate_token is_revoked ensure_action_allowed
    verification_key claims_of get put purge contains evaluate get_snapshot live
refused = refl

approve_task-Untouched_example : Untouched controls waiting waiting
approve_task-Untouched_example =
    approve_task-Untouched controls "task-1" (some body) (some "Bearer t") times new_manager waiting
      (inr refused)
