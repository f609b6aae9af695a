-- ===== src/ControlPlane/Scheduler/Handles.antt =====
-- src/control_plane/scheduler.py: what is found under the id of a workflow.
use mathlib.Core.Option.{some-injective}
use aegis_os.Prelude.{
  ℕ, ◌<◌, String, string_eq, nat_eq, ◌==◌, ◌≡◌, ◌≢◌, refl, sym, ap, ◌∙◌, Bool-cases, inl, inr,
  Option, none, some, arith,
}
use aegis_os.Dict.{Dict, get, put, get-put, get-put_same, get-put_other}
use aegis_os.ControlPlane.Records.{WorkflowStatus}
use aegis_os.ControlPlane.Scheduler.{
  WorkflowHandle, AgentScheduler, new_scheduler, schedule, get_reference, store_status, set_status,
  run_workflow,
}

-- The handle that a reference stands for, and the one that is registered under an id.
abbrev handle_at : Option ℕ → AgentScheduler → Option WorkflowHandle
handle_at none s = none
handle_at (some ref) s = get s.store ref

abbrev handle_of : String → AgentScheduler → Option WorkflowHandle
handle_of workflow_id s = handle_at (get_reference workflow_id s) s

-- The registry has references only to handles that were made.
record IsSound (s : AgentScheduler) : Type 0 where
  pub made :
      (workflow_id : String) (ref : ℕ) → get_reference workflow_id s ≡ some ref → ref < s.next

new_scheduler-IsSound : IsSound new_scheduler
unfolding get_reference get
new_scheduler-IsSound = record { made = λ workflow_id ref h. cc (h) }

store_status-handle :
    (o : Option WorkflowHandle) (ref : ℕ) (status : WorkflowStatus) (s : AgentScheduler)
    {h : WorkflowHandle}
    → o ≡ some h
    → get (store_status o ref status s).store ref ≡ some (record h { status = status })
store_status-handle none ref status s at = cc (at)
store_status-handle (some k) ref status s at =
    get-put_same s.store ref (record k { status = status })
    ∙ ap (λ (x : WorkflowHandle). some (record x { status = status })) (some-injective _ _ at)

store_status-workflows :
    (o : Option WorkflowHandle) (ref : ℕ) (status : WorkflowStatus) (s : AgentScheduler)
    → (store_status o ref status s).workflows ≡ s.workflows
store_status-workflows none ref status s = refl
store_status-workflows (some k) ref status s = refl

set_status-handle :
    (ref : ℕ) (status : WorkflowStatus) (s : AgentScheduler) {h : WorkflowHandle}
    → get s.store ref ≡ some h
    → get (set_status ref status s).store ref ≡ some (record h { status = status })
unfolding set_status
set_status-handle ref status s at = store_status-handle _ ref status s at

set_status-workflows :
    (ref : ℕ) (status : WorkflowStatus) (s : AgentScheduler)
    → (set_status ref status s).workflows ≡ s.workflows
unfolding set_status
set_status-workflows ref status s = store_status-workflows _ ref status s

handle_of-known :
    (id : String) (ref : ℕ) (s : AgentScheduler) {h : WorkflowHandle}
    → get_reference id s ≡ some ref
    → get s.store ref ≡ some h
    → handle_of id s ≡ some h
handle_of-known id ref s there at = ap (λ o. handle_at o s) there ∙ at

handle_at-other :
    (o : Option ℕ) (s : AgentScheduler) (handle : WorkflowHandle) (workflows : Dict String ℕ)
    (next : ℕ)
    → ((ref : ℕ) → o ≡ some ref → ref < s.next)
    → handle_at o (record { workflows = workflows; store = put s.store s.next handle; next = next })
      ≡ handle_at o s
handle_at-other none s handle workflows next h = refl
handle_at-other (some ref) s handle workflows next h =
    let below = h ref refl in get-put_other s.store s.next ref handle (λ e. omega (arith, e, below))

module _ (id agent_type description : String) (s : AgentScheduler) where
  -- The handle that was scheduled and then run is found, completed, under its id: the registry and the
  -- caller share it.
  run_workflow-schedule :
      let (s1, ref) = schedule id agent_type description s in
      handle_of id (run_workflow ref s1)
      ≡ some (record {
        workflow_id = id;
        status = WorkflowStatus.completed;
        agent_type = agent_type;
        task_description = description;
        step_count = 0;
        token_count = 0;
      })
  unfolding schedule run_workflow get_reference
  run_workflow-schedule =
      let s1 = (schedule id agent_type description s).0 in
      let s2 = set_status s.next WorkflowStatus.running s1 in
      handle_of-known id s.next _
        (ap (λ d. get d id)
            (set_status-workflows s.next WorkflowStatus.completed s2
              ∙ set_status-workflows s.next WorkflowStatus.running s1)
          ∙ get-put_same s.workflows id s.next)
        (set_status-handle s.next WorkflowStatus.completed s2
          (set_status-handle s.next WorkflowStatus.running s1 (get-put_same s.store s.next _)))

  -- Scheduling keeps the registry sound and the handles of the other ids as they are.
  schedule-IsSound :
      IsSound s
      → IsSound (schedule id agent_type description s).0
        × ((other : String)
            → other ≢ id
            → handle_of other (schedule id agent_type description s).0 ≡ handle_of other s)
  unfolding schedule get_reference
  schedule-IsSound sound = (
    record {
      made = λ k ref h.
          let at = sym (get-put s.workflows id k s.next) ∙ h in
          elim (Bool-cases (id == k)) [
            | inl same ↦ let e = some-injective _ _ (rw same at at) in omega (arith, e)
            | inr different ↦
                let below = sound.made k ref (rw different at at) in omega (arith, below)
          ];
    },
    λ other different.
        ap (λ o. handle_at o (schedule id agent_type description s).0)
          (get-put_other s.workflows id other s.next (λ e. different (sym e)))
        ∙ handle_at-other (get s.workflows other) s _ _ _ (sound.made other),
  )
