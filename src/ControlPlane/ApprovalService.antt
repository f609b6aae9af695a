-- ===== src/ControlPlane/ApprovalService.antt =====
-- src/control_plane/approval_service.py: the decisions on tasks that await approval. The Temporal
-- client is a parameter.
pub mod Decisions
mod Tests
use aegis_os.Prelude.{
  ℕ, String, string_eq, ◌==◌, ◌≡◌, Bool, true, false, Option, none, some, List, [], ◌∷◌, map,
  if◌then◌else◌,
}
use mathlib.Core.Option.{map as map_option}
use aegis_os.ControlPlane.Records.{PendingApprovalState, approval_value, ApprovalSignalPayload}
use aegis_os.ControlPlane.Approval
use aegis_os.ControlPlane.Approval.{WorkflowState, Signal, deliver}

pub record ApprovalStatusSnapshot : Type 0 where
  pub task_id : String
  pub session_id : Option String
  pub agent_type : String
  pub workflow_status : String
  pub approval_state : String
  pub pending_since_epoch_seconds : Option ℕ

-- `approval_status`
abbrev pub approval_status : WorkflowState → ApprovalStatusSnapshot
approval_status w = record {
  task_id = w.task_id;
  session_id = w.session_id;
  agent_type = w.agent_type;
  workflow_status = w.workflow_status;
  approval_state = approval_value w.approval_state;
  pending_since_epoch_seconds = w.pending_since;
}

pub record Execution : Type 0 where
  pub id : String
  pub close_time : Option ℕ

-- The client of a server in a state of the type `S`: the workflow that answers queries under an id,
-- the executions that are listed, and the delivery of a signal, which may fail.
pub record Temporal (S : Type 0) : Type 0 where
  pub workflow : S → String → Option WorkflowState
  pub list_workflows : S → ℕ → List Execution
  pub signal : String → Signal → S → Option S
  -- what else happens between a query and the signal that follows it
  pub elapse : S → S
  pub signal-workflow :
      (id : String) (sig : Signal) (s s' : S)
      → signal id sig s ≡ some s'
      → workflow s' id ≡ map_option (deliver sig) (workflow s id)

-- `PendingApprovalNotFoundError`, `PendingApprovalConflictError`, and the client's own error
pub data Error : Type 0 where
  not_found : Error
  conflict : (task_id approval_state workflow_status : String) → Error
  rpc_error : Error

pub data Result (A : Type 0) : Type 0 where
  returned : A → Result A
  raised : Error → Result A

pub record ApprovalDecisionResult : Type 0 where
  pub task_id : String
  pub status : String
  pub actor_id : String
  pub reason : String

module _ {S : Type 0} (temporal : Temporal S) where
  snapshot_of : Option WorkflowState → Result ApprovalStatusSnapshot
  snapshot_of none = raised not_found
  snapshot_of (some w) = returned (approval_status w)

  -- `get_snapshot`
  unfoldable pub get_snapshot : String → S → Result ApprovalStatusSnapshot
  unfolding snapshot_of
  get_snapshot task_id s = snapshot_of (temporal.workflow s task_id)

  abbrev pub is_pending : ApprovalStatusSnapshot → Bool
  is_pending snapshot =
      snapshot.approval_state == approval_value PendingApprovalState.awaiting_approval

  pending_or_raise : String → Result ApprovalStatusSnapshot → Result ApprovalStatusSnapshot
  pending_or_raise task_id (raised err) = raised err
  pending_or_raise task_id (returned snapshot) =
      if is_pending snapshot
      then returned snapshot
      else raised (conflict task_id snapshot.approval_state snapshot.workflow_status)

  -- `get_pending_snapshot`
  unfoldable pub get_pending_snapshot : String → S → Result ApprovalStatusSnapshot
  unfolding pending_or_raise
  get_pending_snapshot task_id s = pending_or_raise task_id (get_snapshot task_id s)

  -- What a listed execution adds: nothing if it is closed, answers no query or is not pending.
  listed : Option WorkflowState → List ApprovalStatusSnapshot → List ApprovalStatusSnapshot
  listed none rest = rest
  listed (some w) rest = if is_pending (approval_status w) then approval_status w ∷ rest else rest

  listed_open :
      Option ℕ → Option WorkflowState → List ApprovalStatusSnapshot → List ApprovalStatusSnapshot
  unfolding listed
  listed_open (some close_time) w rest = rest
  listed_open none w rest = listed w rest

  collect : S → List Execution → List ApprovalStatusSnapshot
  unfolding listed_open
  collect s [] = []
  collect s (e ∷ es) = listed_open e.close_time (temporal.workflow s e.id) (collect s es)

  -- `list_pending_snapshots`, of a server that stays as it is while it is asked
  unfoldable pub list_pending_snapshots : ℕ → S → List ApprovalStatusSnapshot
  unfolding collect
  list_pending_snapshots limit s = collect s (temporal.list_workflows s limit)

  signalled : S → Option S → ApprovalDecisionResult → S × Result ApprovalDecisionResult
  signalled s none result = (s, raised rpc_error)
  signalled s (some s') result = (s', returned result)

  pub decide_on :
      String
      → Signal
      → ApprovalDecisionResult
      → S
      → Result ApprovalStatusSnapshot
      → S × Result ApprovalDecisionResult
  unfolding signalled
  decide_on task_id sig result s (raised err) = (s, raised err)
  decide_on task_id sig result s (returned snapshot) =
      let later = temporal.elapse s in signalled later (temporal.signal task_id sig later) result

  -- `approve`
  unfoldable pub approve_pending : String → String → String → S → S × Result ApprovalDecisionResult
  unfolding decide_on
  approve_pending task_id approver_id reason s =
      decide_on task_id
        (Approval.approve (record { approver_id = approver_id; reason = reason; approved = true }))
        (record {
          task_id = task_id;
          status = approval_value PendingApprovalState.approved;
          actor_id = approver_id;
          reason = reason;
        })
        s (get_pending_snapshot task_id s)

  -- `deny`
  unfoldable pub deny_pending : String → String → String → S → S × Result ApprovalDecisionResult
  unfolding decide_on
  deny_pending task_id approver_id reason s =
      decide_on task_id
        (Approval.deny (record { approver_id = approver_id; reason = reason; approved = false }))
        (record {
          task_id = task_id;
          status = approval_value PendingApprovalState.denied;
          actor_id = approver_id;
          reason = reason;
        })
        s (get_pending_snapshot task_id s)
