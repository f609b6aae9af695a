-- ===== src/ControlPlane/Approval/Signals.antt =====
-- src/control_plane/scheduler.py: which signal decides.
use aegis_os.Prelude.{
  ℕ, String, ◌≡◌, refl, sym, ap, ◌∙◌, if_cases, true, Option, none, some, List, [], ◌∷◌,
}
use aegis_os.ControlPlane.Records.{
  PendingApprovalState, ApprovalSignalPayload, WorkflowInput, WorkflowAuditInput,
}
use aegis_os.ControlPlane.Approval.{
  Activity, WorkflowState, returned, Call, Signal, approve, deny, record_decision, timeout_decision,
  reply, deliver, deliver_all, perform, execute, await_pending_approval, awaiting, decide, go_on,
  refuse, new_workflow,
}

abbrev pub payload_of : Signal → ApprovalSignalPayload
payload_of (approve decision) = decision
payload_of (deny decision) = decision

-- The payload of the last signal, after an earlier one.
abbrev pub last_decision : Option ApprovalSignalPayload → List Signal → Option ApprovalSignalPayload
last_decision old [] = old
last_decision old (s ∷ ss) = last_decision (some (payload_of s)) ss

-- A signal that arrives before the gate changes nothing.
pub deliver_all-new_workflow : (ss : List Signal) → deliver_all ss new_workflow ≡ new_workflow
unfolding deliver_all deliver
deliver_all-new_workflow [] = refl
deliver_all-new_workflow (approve d ∷ ss) = deliver_all-new_workflow ss
deliver_all-new_workflow (deny d ∷ ss) = deliver_all-new_workflow ss

deliver-awaiting :
    (s : Signal) (st : WorkflowState)
    → st.approval_state ≡ PendingApprovalState.awaiting_approval
    → deliver s st ≡ record st { approval_signal = some (payload_of s) }
unfolding deliver
deliver-awaiting (approve d) st h = rw h refl
deliver-awaiting (deny d) st h = rw h refl

pub deliver_all-awaiting :
    (ss : List Signal) (st : WorkflowState)
    → st.approval_state ≡ PendingApprovalState.awaiting_approval
    → deliver_all ss st ≡ record st { approval_signal = last_decision st.approval_signal ss }
unfolding deliver_all
deliver_all-awaiting [] st h = refl
deliver_all-awaiting (s ∷ ss) st h =
    ap (deliver_all ss) (deliver-awaiting s st h)
    ∙ deliver_all-awaiting ss (record st { approval_signal = some (payload_of s) }) h

pub deliver_all-executed :
    (ss : List Signal) (st : WorkflowState) → (deliver_all ss st).executed ≡ st.executed
unfolding deliver_all deliver
deliver_all-executed [] st = refl
deliver_all-executed (approve d ∷ ss) st = deliver_all-executed ss (record_decision d st)
deliver_all-executed (deny d ∷ ss) st = deliver_all-executed ss (record_decision d st)

reply-returned :
    (a : Activity) (o : Option (Unit {0})) (decision : ApprovalSignalPayload) (st : WorkflowState)
    {d : ApprovalSignalPayload}
    → (execute a o (reply decision) st).1 ≡ returned d
    → decision ≡ d
unfolding execute
reply-returned a none decision st h = cc (h)
reply-returned a (some done) decision st h = cc (h)

-- The decision that a gate answers with: that of the last signal, or that of the timeout.
abbrev pub answer_of : Option ApprovalSignalPayload → ApprovalSignalPayload
answer_of none = timeout_decision
answer_of (some d) = d

-- An approval is the decision of a signal.
pub answer_of-approved :
    (o : Option ApprovalSignalPayload) {d : ApprovalSignalPayload}
    → answer_of o ≡ d
    → d.approved ≡ true
    → o ≡ some d
answer_of-approved none h approval = cc (h, approval)
answer_of-approved (some signal) h approval = ap some h

module _ (audit : WorkflowAuditInput → Option (Unit {0})) (inp : WorkflowInput)
    {d : ApprovalSignalPayload} where
  decide-returned :
      (o : Option ApprovalSignalPayload) (st : WorkflowState)
      → (decide audit inp o st).1 ≡ returned d
      → answer_of o ≡ d
  unfolding decide go_on refuse
  decide-returned none st h = reply-returned _ _ timeout_decision _ h
  decide-returned (some signal) st h =
      if_cases (λ (c : Call ApprovalSignalPayload). c.1 ≡ returned d → signal ≡ d) signal.approved
        {x = go_on audit inp signal st} {y = refuse audit inp signal st}
        (λ said_yes. reply-returned _ _ signal _) (λ said_no. reply-returned _ _ signal _) h

  wait-returned :
      (ss : List Signal) (a : Activity) (o : Option (Unit {0})) (now : ℕ) (st : WorkflowState)
      → (execute a o
          (λ done st2. let st3 = deliver_all ss st2 in decide audit inp st3.approval_signal st3)
          (awaiting now st)).1
        ≡ returned d
      → answer_of (last_decision st.approval_signal ss) ≡ d
  unfolding execute
  wait-returned ss a none now st h = cc (h)
  wait-returned ss a (some done) now st h =
      let st2 = perform a (awaiting now st) in
      ap (λ (x : WorkflowState). answer_of x.approval_signal)
        (sym (deliver_all-awaiting ss st2 refl))
      ∙ decide-returned (deliver_all ss st2).approval_signal (deliver_all ss st2) h

  -- What the gate answers.
  pub await_pending_approval-returned :
      (ss : List Signal) (now : ℕ) (spend : String) (st : WorkflowState)
      → (await_pending_approval audit ss now spend inp st).1 ≡ returned d
      → answer_of (last_decision st.approval_signal ss) ≡ d
  unfolding await_pending_approval
  await_pending_approval-returned ss now spend st h = wait-returned ss _ _ now st h

  -- The gate answers with an approval only if the last of the signals that arrived at it is that.
  pub await_pending_approval-approved :
      (approval : d.approved ≡ true) (ss : List Signal) (now : ℕ) (spend : String)
      (st : WorkflowState)
      → (await_pending_approval audit ss now spend inp st).1 ≡ returned d
      → last_decision st.approval_signal ss ≡ some d
  await_pending_approval-approved approval ss now spend st h =
      answer_of-approved _ (await_pending_approval-returned ss now spend st h) approval
