-- ===== src/ControlPlane/ApprovalService/Decisions.antt =====
-- src/control_plane/approval_service.py: when a decision is accepted, what becomes of it, and which
-- tasks are listed.
use mathlib.Core.Option.{map as map_option, some-injective}
use aegis_os.Prelude.{
  ℕ, String, subst, string_eq, ◌==◌, ◌≡◌, ◌↔◌, ◌⊎◌, inl, inr, refl, sym, ap, ◌∙◌, Bool-cases, true,
  false, Option, none, some, List, [], ◌∷◌,
}
use aegis_os.ControlPlane.Records.{PendingApprovalState, approval_value}
use aegis_os.ControlPlane.Approval
use aegis_os.ControlPlane.Approval.{WorkflowState, Signal, deliver}
use aegis_os.ControlPlane.ApprovalService.{
  ApprovalStatusSnapshot, approval_status, Execution, Temporal, Error, rpc_error, Result, returned,
  raised, ApprovalDecisionResult, snapshot_of, get_snapshot, pending_or_raise, get_pending_snapshot,
  listed, listed_open, collect, list_pending_snapshots, signalled, decide_on, approve_pending,
  deny_pending,
}

awaits :
    (state : PendingApprovalState)
    → (approval_value state == "awaiting-approval") ≡ true
    → state ≡ PendingApprovalState.awaiting_approval
awaits PendingApprovalState.not_required h = cc (h)
awaits PendingApprovalState.awaiting_approval h = refl
awaits PendingApprovalState.approved h = cc (h)
awaits PendingApprovalState.denied h = cc (h)
awaits PendingApprovalState.timed_out h = cc (h)

module _ {S : Type 0} (temporal : Temporal S) where
  -- The task's workflow awaits approval.
  abbrev pub Awaiting : String → S → Type 0
  Awaiting task_id s =
      (w : WorkflowState) × (temporal.workflow s task_id ≡ some w)
      × (w.approval_state ≡ PendingApprovalState.awaiting_approval)

  get_pending_snapshot-returned :
      (task_id : String) (s : S) (o : Option WorkflowState) {snapshot : ApprovalStatusSnapshot}
      → temporal.workflow s task_id ≡ o
      → pending_or_raise temporal task_id (snapshot_of temporal o) ≡ returned snapshot
      → Awaiting task_id s
  unfolding pending_or_raise snapshot_of
  get_pending_snapshot-returned task_id s none at h = cc (h)
  get_pending_snapshot-returned task_id s (some w) at h =
      elim (Bool-cases (approval_value w.approval_state == "awaiting-approval")) [
        | inl there ↦ (w, at, awaits w.approval_state there)
        | inr gone ↦ cc (rw gone at h)
      ]

  signalled-returned :
      (task_id : String) (sig : Signal) (later : S) (o : Option S) (result : ApprovalDecisionResult)
      {s' : S} {r : ApprovalDecisionResult}
      → temporal.signal task_id sig later ≡ o
      → signalled temporal later o result ≡ (s', returned r)
      → (temporal.workflow s' task_id ≡ map_option (deliver sig) (temporal.workflow later task_id))
        × (r ≡ result)
  unfolding signalled
  signalled-returned task_id sig later none result at h = cc (ap (λ c. c.1) h)
  signalled-returned task_id sig later (some s') result at h = (
    subst
        (λ t.
          temporal.workflow t task_id ≡ map_option (deliver sig) (temporal.workflow later task_id))
        (ap (λ c. c.0) h) (temporal.signal-workflow task_id sig later s' at),
    cc (ap (λ c. c.1) h),
  )

  decide_on-returned :
      (task_id : String) (sig : Signal) (result : ApprovalDecisionResult) (s : S)
      (c : Result ApprovalStatusSnapshot) {s' : S} {r : ApprovalDecisionResult}
      → get_pending_snapshot temporal task_id s ≡ c
      → decide_on temporal task_id sig result s c ≡ (s', returned r)
      → Awaiting task_id s
        × (temporal.workflow s' task_id
            ≡ map_option (deliver sig) (temporal.workflow (temporal.elapse s) task_id))
        × (r ≡ result)
  unfolding decide_on get_pending_snapshot get_snapshot
  decide_on-returned task_id sig result s (raised err) at h = cc (ap (λ c. c.1) h)
  decide_on-returned task_id sig result s (returned snapshot) at h =
      let (sent, same) = signalled-returned task_id sig (temporal.elapse s) _ result refl h in
      (get_pending_snapshot-returned task_id s _ refl at, sent, same)

  -- A decision is accepted only if the task's workflow awaits one, and then the workflow has got it as
  -- it was by then, with the approver and the reason as given; the result names the decision.
  pub approve_pending-deliver :
      (task_id approver_id reason : String) (s : S) {s' : S} {r : ApprovalDecisionResult}
      → approve_pending temporal task_id approver_id reason s ≡ (s', returned r)
      → Awaiting task_id s
        × (temporal.workflow s' task_id
            ≡ map_option
                (deliver (
                  Approval.approve
                    (record { approver_id = approver_id; reason = reason; approved = true })))
                (temporal.workflow (temporal.elapse s) task_id))
        × (r ≡ record {
          task_id = task_id;
          status = "approved";
          actor_id = approver_id;
          reason = reason;
        })
  unfolding approve_pending
  approve_pending-deliver task_id approver_id reason s h = decide_on-returned task_id _ _ s _ refl h

  -- The same of a denial.
  pub deny_pending-deliver :
      (task_id approver_id reason : String) (s : S) {s' : S} {r : ApprovalDecisionResult}
      → deny_pending temporal task_id approver_id reason s ≡ (s', returned r)
      → Awaiting task_id s
        × (temporal.workflow s' task_id
            ≡ map_option
                (deliver (
                  Approval.deny
                    (record { approver_id = approver_id; reason = reason; approved = false })))
                (temporal.workflow (temporal.elapse s) task_id))
        × (r ≡ record {
          task_id = task_id;
          status = "denied";
          actor_id = approver_id;
          reason = reason;
        })
  unfolding deny_pending
  deny_pending-deliver task_id approver_id reason s h = decide_on-returned task_id _ _ s _ refl h

  signalled-raised :
      (later : S) (o : Option S) (result : ApprovalDecisionResult) {s' : S} {err : Error}
      → signalled temporal later o result ≡ (s', raised err)
      → err ≡ rpc_error
  unfolding signalled
  signalled-raised later none result h = cc (ap (λ c. c.1) h)
  signalled-raised later (some s') result h = cc (ap (λ c. c.1) h)

  decide_on-raised :
      (task_id : String) (sig : Signal) (result : ApprovalDecisionResult) (s : S)
      (c : Result ApprovalStatusSnapshot) {s' : S} {err : Error}
      → decide_on temporal task_id sig result s c ≡ (s', raised err)
      → (s' ≡ s) ⊎ (err ≡ rpc_error)
  unfolding decide_on
  decide_on-raised task_id sig result s (raised err) h = inl (sym (ap (λ c. c.0) h))
  decide_on-raised task_id sig result s (returned snapshot) h = inr (
      signalled-raised (temporal.elapse s) (temporal.signal task_id sig (temporal.elapse s)) result
        h)

  pub approve_pending-raised :
      (task_id approver_id reason : String) (s : S) {s' : S} {err : Error}
      → approve_pending temporal task_id approver_id reason s ≡ (s', raised err)
      → (s' ≡ s) ⊎ (err ≡ rpc_error)
  unfolding approve_pending
  approve_pending-raised task_id approver_id reason s h = decide_on-raised task_id _ _ s _ h

  pub deny_pending-raised :
      (task_id approver_id reason : String) (s : S) {s' : S} {err : Error}
      → deny_pending temporal task_id approver_id reason s ≡ (s', raised err)
      → (s' ≡ s) ⊎ (err ≡ rpc_error)
  unfolding deny_pending
  deny_pending-raised task_id approver_id reason s h = decide_on-raised task_id _ _ s _ h

  module _ (snapshot : ApprovalStatusSnapshot) (s : S) where
    abbrev pub Among : List ApprovalStatusSnapshot → Type 0
    Among [] = ⊥
    Among (row ∷ rows) = (row ≡ snapshot) ⊎ Among rows

    -- The execution is open, and its workflow awaits approval and has that snapshot.
    abbrev pub Shows : Execution → Type 0
    Shows e =
        (e.close_time ≡ none)
        × ((w : WorkflowState) × (temporal.workflow s e.id ≡ some w)
            × (w.approval_state ≡ PendingApprovalState.awaiting_approval)
            × (approval_status w ≡ snapshot))

    abbrev pub AnyShows : List Execution → Type 0
    AnyShows [] = ⊥
    AnyShows (e ∷ es) = Shows e ⊎ AnyShows es

    listed-Among :
        (o : Option WorkflowState) (rows : List ApprovalStatusSnapshot)
        → Among (listed temporal o rows) ↔ (
            ((w : WorkflowState) × (o ≡ some w)
              × (w.approval_state ≡ PendingApprovalState.awaiting_approval)
              × (approval_status w ≡ snapshot))
            ⊎ Among rows)
    unfolding listed
    listed-Among none rows =
        (inr, λ h. elim h [ inl (w, there, awaiting, same) ↦ cc (there) | inr k ↦ k ])
    listed-Among (some w) rows =
        elim (Bool-cases (approval_value w.approval_state == "awaiting-approval")) [
          | inl there ↦
              rw (there, listed)
                (
                  (λ h. elim h [
                    | inl same ↦ inl (w, refl, awaits w.approval_state there, same)
                    | inr k ↦ inr k
                  ]),
                  (λ h. elim h [
                    | inl (v, is, awaiting, same) ↦
                        inl (ap approval_status (some-injective _ _ is) ∙ same)
                    | inr k ↦ inr k
                  ]),
                )
          | inr gone ↦
              rw (gone, listed)
                (
                  inr,
                  (λ h. elim h [
                    | inl (v, is, awaiting, same) ↦ cc (gone, is, awaiting)
                    | inr k ↦ k
                  ]),
                )
        ]

    listed_open-Among :
        (e : Execution) (o : Option ℕ) (rows : List ApprovalStatusSnapshot)
        → e.close_time ≡ o
        → Among (listed_open temporal o (temporal.workflow s e.id) rows) ↔ (Shows e ⊎ Among rows)
    unfolding listed_open
    listed_open-Among e (some t) rows closed =
        (inr, λ h. elim h [ inl (live, shows) ↦ cc (live, closed) | inr k ↦ k ])
    listed_open-Among e none rows closed =
        let iff = listed-Among (temporal.workflow s e.id) rows in
        (
          (λ h. elim (iff.0 h) [ inl shows ↦ inl (closed, shows) | inr k ↦ inr k ]),
          (λ h. iff.1 (elim h [ inl (live, shows) ↦ inl shows | inr k ↦ inr k ])),
        )

    collect-Among : (es : List Execution) → Among (collect temporal s es) ↔ AnyShows es
    unfolding collect
    collect-Among [] = (λ h. h, λ h. h)
    collect-Among (e ∷ es) =
        let rest = collect-Among es in
        let iff = listed_open-Among e e.close_time (collect temporal s es) refl in
        (
          (λ h. elim (iff.0 h) [ inl shows ↦ inl shows | inr k ↦ inr (rest.0 k) ]),
          (λ h. iff.1 (elim h [ inl shows ↦ inl shows | inr k ↦ inr (rest.1 k) ])),
        )

    -- A snapshot is listed exactly if it is that of an open execution, of those that the client lists,
    -- whose workflow awaits approval.
    pub list_pending_snapshots-Among :
        (limit : ℕ)
        → Among (list_pending_snapshots temporal limit s)
          ↔ AnyShows (temporal.list_workflows s limit)
    unfolding list_pending_snapshots
    list_pending_snapshots-Among limit = collect-Among (temporal.list_workflows s limit)
