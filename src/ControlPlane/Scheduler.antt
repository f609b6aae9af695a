-- ===== src/ControlPlane/Scheduler.antt =====
-- src/control_plane/scheduler.py: `AgentScheduler`. A handle is a shared object, so the handles stand
-- in a store by their references, and the registry and the callers hold references.
pub mod Handles
use aegis_os.Prelude.{ℕ, suc, String, string_eq, nat_eq, Option, none, some, List, [], ◌∷◌}
use aegis_os.Dict.{Dict, get, put}
use aegis_os.ControlPlane.Records.{WorkflowStatus}

pub record WorkflowHandle : Type 0 where
  pub workflow_id : String
  pub status : WorkflowStatus
  pub agent_type : String
  pub task_description : String
  pub step_count : ℕ
  pub token_count : ℕ

pub record AgentScheduler : Type 0 where
  pub workflows : Dict String ℕ
  pub store : Dict ℕ WorkflowHandle
  pub next : ℕ

-- `__init__`
abbrev pub new_scheduler : AgentScheduler
new_scheduler = record { workflows = []; store = []; next = 0 }

-- `schedule`, with the UUID of the new handle
unfoldable pub schedule : String → String → String → AgentScheduler → AgentScheduler × ℕ
schedule workflow_id agent_type task_description s =
    let handle : WorkflowHandle = record {
      workflow_id = workflow_id;
      status = WorkflowStatus.pending;
      agent_type = agent_type;
      task_description = task_description;
      step_count = 0;
      token_count = 0;
    } in
    (
      record {
        workflows = put s.workflows workflow_id s.next;
        store = put s.store s.next handle;
        next = suc s.next;
      },
      s.next,
    )

-- `get`
unfoldable pub get_reference : String → AgentScheduler → Option ℕ
get_reference workflow_id s = get s.workflows workflow_id

abbrev pub store_status :
    Option WorkflowHandle → ℕ → WorkflowStatus → AgentScheduler → AgentScheduler
store_status none ref status s = s
store_status (some handle) ref status s = record s {
  store = put s.store ref (record handle { status = status });
}

-- `handle.status = status`
pub set_status : ℕ → WorkflowStatus → AgentScheduler → AgentScheduler
set_status ref status s = store_status (get s.store ref) ref status s

-- `update_status`, which has no result, or raises a `KeyError`
pub data Updated : Type 0 where
  updated key_error : Updated

pub update_at : Option ℕ → WorkflowStatus → AgentScheduler → AgentScheduler × Updated
update_at none status s = (s, key_error)
update_at (some ref) status s = (set_status ref status s, updated)

unfoldable pub update_status : String → WorkflowStatus → AgentScheduler → AgentScheduler × Updated
update_status workflow_id status s = update_at (get_reference workflow_id s) status s

-- `run_workflow` of the handle at a reference
unfoldable pub run_workflow : ℕ → AgentScheduler → AgentScheduler
run_workflow ref s =
    set_status ref WorkflowStatus.completed (set_status ref WorkflowStatus.running s)
