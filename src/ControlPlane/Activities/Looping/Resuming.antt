-- ===== src/ControlPlane/Activities/Looping/Resuming.antt =====
-- src/control_plane/scheduler.py: "LoopRecordStep" from checkpoint to checkpoint, against a loop detector
-- that lives on.
use aegis_os.Prelude.{
  ℕ, suc, ◌+◌, String, ◌≡◌, ◌≢◌, refl, sym, ap, ◌∙◌, ◌==◌, string_eq, nat_eq, ==_refl, Bool-cases,
  eq_iff, inl, inr, if_true, true, Option, none, some, length, ltb, leb,
}
use aegis_os.Dict.{get, get-put}
use aegis_os.Audit.{
  AuditLogger, DateTime, Event, Level, Outcome, Kwargs, stage_event, emit_task_event,
}
use aegis_os.Audit.Calls.{overrides_back, emit_task_event-eq-none}
use aegis_os.Watchdog.Loop
use aegis_os.Watchdog.Loop.{
  LoopDetector, LoopSignal, ExecutionContext, ExecutionCheckpoint, checkpoint_of, record_step,
  with_step, check_step, no_progress_streak, is_human_required, checkpoint, get_context,
  create_context, new_context, store, checkpoint_in,
}
use aegis_os.Watchdog.Loop.Steps.{record_step-found, record_step_effects}
use aegis_os.Watchdog.Loop.Checkpoint.{restore-checkpoint_of, record_step-same}
use aegis_os.ControlPlane.Records.{LoopRecordInput, LoopRecordResult}
use aegis_os.ControlPlane.Steps.{Result, returned, raised, continue, ◌>>=◌, ◌>>◌}
use aegis_os.ControlPlane.Activities.{
  Env, Worker, M, Call, Error, application_error, loop_error, halted, after_audit, in_audit, log,
  require_task_id, uuid_or_raise, reading, time_at,
}
use aegis_os.ControlPlane.Activities.Looping.{
  counts, build_loop_detector, stepped, concluded, conclude, detect, loop_record_step,
}

after_audit-some :
    {A : Type 0} (m : M A) (v : Result Error A) (st : Worker) (o : Option AuditLogger)
    → o ≢ none
    → ((st' : Worker) → (m st').1 ≡ v)
    → (continue (λ (done : Unit {0}). m) (after_audit st o)).1 ≡ v
unfolding after_audit continue
after_audit-some m v st none h k = absurd (h refl)
after_audit-some m v st (some a) h k = k _

emit_task_event-taken :
    (level : Level) (e : Event) (now : DateTime) (a : AuditLogger)
    → e.timestamp_override ≡ none
    → emit_task_event level e now a ≢ none
emit_task_event-taken level e now a clock refused =
    let back = (emit_task_event-eq-none level e now a).0 refused in
    cc (back, ap (λ o. overrides_back o (get a.last_timestamps e.task_id)) clock)

module _ (env : Env) where
  -- An event whose time comes from the clock is always taken: what follows it decides.
  log-then :
      {A : Type 0} (c : Call) (outcome : Outcome) (event stage : String) (kwargs : Kwargs) (m : M A)
      (v : Result Error A) (st : Worker)
      → ((st' : Worker) → (m st').1 ≡ v)
      → ((log env c outcome event stage kwargs >> m) st).1 ≡ v
  unfolding log reading in_audit ◌>>◌ ◌>>=◌ continue stage_event
  log-then c outcome event stage kwargs m v st k =
      after_audit-some m v (record st { readings = suc st.readings }) _
        (emit_task_event-taken _ _ (time_at env c st.readings) st.audit refl) k

  require_task_id-then :
      {A : Type 0} (task_id stage agent_type : String) (m : M A) (st : Worker)
      → task_id ≢ ""
      → (require_task_id env task_id stage agent_type >> m) st ≡ m st
  unfolding require_task_id ◌>>◌ ◌>>=◌ continue
  require_task_id-then task_id stage agent_type m st named = elim (Bool-cases (task_id == "")) [
    | inl empty ↦ absurd (named ((eq_iff task_id "").0 empty))
    | inr there ↦ rw there refl
  ]

  abbrev pub result_of : ExecutionContext → LoopRecordResult
  result_of ctx = record {
    checkpoint = checkpoint_of ctx;
    step_count = length ctx.steps;
    total_tokens = ctx.total_tokens;
    loop_detected = ctx.loop_detected;
    intervention_required = ctx.intervention_required;
  }

  -- What the activity makes of the result of a step, by the numbers of steps and of tokens.
  abbrev pub result_for : ℕ × ℕ → Loop.Result ExecutionContext → Result Error LoopRecordResult
  result_for n (Loop.returned ctx) = returned (result_of ctx)
  result_for (steps, tokens) (Loop.raised (Loop.loop_detected streak max)) =
      raised (
        application_error "LoopDetectedError" (halted (Loop.loop_detected streak max) steps tokens))
  result_for (steps, tokens) (Loop.raised (Loop.token_velocity step delta max)) = raised (
      application_error "TokenVelocityError"
        (halted (Loop.token_velocity step delta max) steps tokens))
  result_for (steps, tokens) (Loop.raised (Loop.pending_approval step)) =
      raised (
        application_error "PendingApprovalError" (halted (Loop.pending_approval step) steps tokens))
  result_for n (Loop.raised (Loop.not_found k)) = raised (loop_error (Loop.not_found k))
  result_for n (Loop.raised Loop.bad_value) = raised (loop_error Loop.bad_value)

  -- The result that is due after a step of the detector, with what it has counted.
  unfoldable pub observed : ℕ → Loop.Call ExecutionContext → Result Error LoopRecordResult
  observed k (d, r) = result_for (counts (get d.contexts k)) r

  module _ (inp : LoopRecordInput) (k : ℕ) where
    pub stored_context :
        (d : LoopDetector) (ctx : ExecutionContext) → get (store k ctx d).contexts k ≡ some ctx
    stored_context d ctx = get-put d.contexts k k ctx ∙ if_true _ (get d.contexts k) (==_refl k)

    concluded-check_step :
        (step : ℕ) (ctx : ExecutionContext) (d : LoopDetector) (st : Worker)
        → let c = check_step k step inp.token_delta inp.signal ctx d in
          (concluded env inp k c st).1 ≡ observed k c
    unfolding observed concluded get_context checkpoint
    concluded-check_step step ctx d st =
        elim (Bool-cases (ltb d.max_token_velocity inp.token_delta)) [
          | inl fast ↦
              rw (fast, stored_context d (record ctx { loop_detected = true }))
                (log-then _ _ _ _ _ _ _ st (λ st'. refl))
          | inr slow ↦ elim (Bool-cases (is_human_required inp.signal)) [
            | inl human ↦
                rw (slow, human, stored_context d (record ctx { intervention_required = true }))
                  (log-then _ _ _ _ _ _ _ st (λ st'. refl))
            | inr other ↦ elim (Bool-cases (leb d.max_agent_steps (no_progress_streak ctx.steps))) [
              | inl stuck ↦
                  rw (slow, other, stuck, stored_context d (record ctx { loop_detected = true }))
                    (log-then _ _ _ _ _ _ _ st (λ st'. refl))
              | inr moving ↦
                  rw (slow, other, moving, stored_context d ctx, checkpoint_in)
                    (log-then _ _ _ _ _ _ _ st (λ st'. refl))
            ]
          ]
        ]

    pub stepped-resumed :
        (d : LoopDetector) (ctx : ExecutionContext)
        → inp.checkpoint ≡ some (checkpoint_of ctx)
        → ctx.session_id ≡ k
        → stepped env inp k d
          ≡ record_step k inp.token_delta inp.signal inp.description (store k ctx d)
    stepped-resumed d ctx at own =
        rw (at, restore-checkpoint_of)
          (ap (λ j. record_step k inp.token_delta inp.signal inp.description (store j ctx d)) own)

    concluded-record_step :
        (d : LoopDetector) (ctx : ExecutionContext) (st : Worker)
        → get d.contexts k ≡ some ctx
        → let c = record_step k inp.token_delta inp.signal inp.description d in
          (concluded env inp k c st).1 ≡ observed k c
    concluded-record_step d ctx st found =
        rw (record_step-found k inp.token_delta inp.signal inp.description d found) (
          concluded-check_step (length ctx.steps + 1)
            (with_step inp.token_delta inp.signal inp.description ctx) d st)

    loop_record_step-detect :
        (st : Worker)
        → inp.task_id ≢ ""
        → env.uuid inp.loop_session_id ≡ some k
        → loop_record_step env inp st ≡ detect env inp k st
    unfolding loop_record_step uuid_or_raise ◌>>=◌ continue
    loop_record_step-detect st named known =
        require_task_id-then inp.task_id "watchdog.loop-detect" inp.agent_type _ st named
        ∙ rw known refl

    -- The context of the session in both detectors, which have the same limits.
    pub record Agree (ctx : ExecutionContext) (a b : LoopDetector) : Type 0 where
      pub left : get a.contexts k ≡ some ctx
      pub right : get b.contexts k ≡ some ctx
      pub steps : a.max_agent_steps ≡ b.max_agent_steps
      pub velocity : a.max_token_velocity ≡ b.max_token_velocity

    counts-record_step :
        (d : LoopDetector) {ctx : ExecutionContext}
        → get d.contexts k ≡ some ctx
        → counts (get (record_step k inp.token_delta inp.signal inp.description d).0.contexts k)
          ≡ counts (some (with_step inp.token_delta inp.signal inp.description ctx))
    counts-record_step d found = ap counts (
        record_step_effects k k inp.token_delta inp.signal inp.description d found
        ∙ if_true _ (get d.contexts k) (==_refl k))

    observed-same :
        {ctx : ExecutionContext} (a b : LoopDetector)
        → Agree ctx a b
        → observed k (record_step k inp.token_delta inp.signal inp.description a)
          ≡ observed k (record_step k inp.token_delta inp.signal inp.description b)
    unfolding observed
    observed-same a b same =
        rw (counts-record_step a same.left, counts-record_step b same.right)
          (ap (result_for _) (
            record_step-same k inp.token_delta inp.signal inp.description a b
              (same.left ∙ sym same.right) same.steps same.velocity))

    pub loop_record_step-observed :
        {ctx : ExecutionContext} (a d : LoopDetector) (st : Worker)
        → inp.task_id ≢ ""
        → env.uuid inp.loop_session_id ≡ some k
        → stepped env inp k (build_loop_detector env inp st.audit)
          ≡ record_step k inp.token_delta inp.signal inp.description a
        → Agree ctx a d
        → (loop_record_step env inp st).1
          ≡ observed k (record_step k inp.token_delta inp.signal inp.description d)
    unfolding detect conclude
    loop_record_step-observed {ctx} a d st named known same agree =
        ap (λ (c : Worker × Result Error LoopRecordResult). c.1)
          (loop_record_step-detect st named known)
        ∙ rw same (concluded-record_step a ctx _ agree.left)
        ∙ observed-same a d agree

    -- A step that returns leaves the context that it returns under the key.
    pub check_step-found :
        (step : ℕ) (ctx ctx' : ExecutionContext) (d : LoopDetector)
        → (check_step k step inp.token_delta inp.signal ctx d).1 ≡ Loop.returned ctx'
        → (get (check_step k step inp.token_delta inp.signal ctx d).0.contexts k ≡ some ctx')
          × (ctx ≡ ctx')
    check_step-found step ctx ctx' d =
        elim (Bool-cases (ltb d.max_token_velocity inp.token_delta)) [
          | inl fast ↦ rw fast (λ went. cc)
          | inr slow ↦ elim (Bool-cases (is_human_required inp.signal)) [
            | inl human ↦ rw (slow, human) (λ went. cc)
            | inr other ↦ elim (Bool-cases (leb d.max_agent_steps (no_progress_streak ctx.steps))) [
              | inl stuck ↦ rw (slow, other, stuck) (λ went. cc)
              | inr moving ↦
                  rw (slow, other, moving)
                    (λ went.
                      let same : ctx ≡ ctx' = cc (went) in
                      (stored_context d ctx ∙ ap some same, same))
            ]
          ]
        ]
