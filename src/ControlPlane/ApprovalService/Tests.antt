-- ===== src/ControlPlane/ApprovalService/Tests.antt =====
-- Runs of the service of src/control_plane/approval_service.py.
use mathlib.Core.Option.{map as map_option}
use aegis_os.Prelude.{◌≡◌, ◌↔◌, true, some, refl}
use aegis_os.ControlPlane.Approval
use aegis_os.ControlPlane.Approval.{WorkflowState, deliver}
use aegis_os.ControlPlane.ApprovalService.{
  approval_status, returned, ApprovalDecisionResult, get_snapshot, get_pending_snapshot,
  list_pending_snapshots, approve_pending,
}
use aegis_os.Samples.{single, waiting}
use aegis_os.ControlPlane.ApprovalService.Decisions.{
  Awaiting, Among, AnyShows, approve_pending-deliver, list_pending_snapshots-Among,
}

abbrev decided : WorkflowState
decided = record waiting {
  approval_signal = some (record { approver_id = "tim"; reason = "fine"; approved = true });
}

abbrev approval : ApprovalDecisionResult
approval = record { task_id = "task-1"; status = "approved"; actor_id = "tim"; reason = "fine" }

accepted : approve_pending single "task-1" "tim" "fine" waiting ≡ (decided, returned approval)
unfolding approve_pending get_pending_snapshot get_snapshot deliver
accepted = refl

approve_pending-deliver_example :
    Awaiting single "task-1" waiting
    × (single.workflow decided "task-1"
        ≡ map_option
            (deliver
              (Approval.approve (record { approver_id = "tim"; reason = "fine"; approved = true })))
            (single.workflow (single.elapse waiting) "task-1"))
    × (approval
        ≡ record { task_id = "task-1"; status = "approved"; actor_id = "tim"; reason = "fine" })
approve_pending-deliver_example =
    approve_pending-deliver single "task-1" "tim" "fine" waiting accepted

list_pending_snapshots-Among_example :
    Among single (approval_status waiting) waiting (list_pending_snapshots single 200 waiting)
    ↔ AnyShows single (approval_status waiting) waiting (single.list_workflows waiting 200)
list_pending_snapshots-Among_example =
    list_pending_snapshots-Among single (approval_status waiting) waiting 200
