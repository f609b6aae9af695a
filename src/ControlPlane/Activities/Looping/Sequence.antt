-- ===== src/ControlPlane/Activities/Looping/Sequence.antt =====
-- src/control_plane/scheduler.py: a sequence of "LoopRecordStep" activities, each with the checkpoint that
-- the one before it returned and each on a worker of its own.
use aegis_os.Prelude.{
  ℕ, ◌+◌, ◌≡◌, ◌≢◌, refl, sym, ap, ◌∙◌, nat_eq, ==_refl, if_true, Option, none, some, List, [], ◌∷◌,
  length, arith,
}
use aegis_os.Dict.{get, get-put}
use aegis_os.Watchdog.Loop
use aegis_os.Watchdog.Loop.{
  LoopDetector, LoopSignal, ExecutionContext, ExecutionCheckpoint, checkpoint_of, record_step,
  with_step, check_step, create_context, new_context, store,
}
use aegis_os.Watchdog.Loop.Steps.{record_step-found}
use aegis_os.Watchdog.Loop.Runs.{StepCall, record_step-max}
use aegis_os.ControlPlane.Records.{LoopRecordInput, LoopRecordResult}
use aegis_os.ControlPlane.Steps.{Result, returned, raised}
use aegis_os.ControlPlane.Activities.{Env, Worker, Error}
use aegis_os.ControlPlane.Activities.Looping.{build_loop_detector, limit_or, loop_record_step}
use aegis_os.ControlPlane.Activities.Looping.Resuming.{
  observed, stored_context, stepped-resumed, loop_record_step-observed, check_step-found, result_of,
}

abbrev pub with_call : LoopRecordInput → StepCall → Option ExecutionCheckpoint → LoopRecordInput
with_call inp c checkpoint = record inp {
  token_delta = c.token_delta;
  signal = c.signal;
  description = c.description;
  checkpoint = checkpoint;
}

-- The results of a sequence of steps, until one raises.
abbrev pub and_on :
    Result Error LoopRecordResult
    → (Option ExecutionCheckpoint → List (Result Error LoopRecordResult))
    → List (Result Error LoopRecordResult)
and_on (returned r) next = returned r ∷ next (some r.checkpoint)
and_on (raised err) next = raised err ∷ []

module _ (env : Env) where
  -- By the activity, given the workers.
  unfoldable pub resumed :
      LoopRecordInput
      → List (StepCall × Worker)
      → Option ExecutionCheckpoint
      → List (Result Error LoopRecordResult)
  resumed inp [] checkpoint = []
  resumed inp ((c, st) ∷ rest) checkpoint =
      and_on (loop_record_step env (with_call inp c checkpoint) st).1 (resumed inp rest)

  -- By one detector that keeps its context, with what is due after each step.
  unfoldable pub lived :
      ℕ → List (StepCall × Worker) → LoopDetector → List (Result Error LoopRecordResult)
  lived k [] d = []
  lived k ((c, st) ∷ rest) d =
      let s = record_step k c.token_delta c.signal c.description d in
      let after = lived k rest s.0 in and_on (observed env k s) (λ checkpoint. after)

  module _ (inp : LoopRecordInput) (k : ℕ) (named : inp.task_id ≢ "")
      (known : env.uuid inp.loop_session_id ≡ some k) where
    -- The detector has the context of the session, and the limits that the activities build theirs with.
    record Lives (ctx : ExecutionContext) (d : LoopDetector) : Type 0 where
      found : get d.contexts k ≡ some ctx
      own : ctx.session_id ≡ k
      steps : limit_or env.max_agent_steps inp.max_agent_steps ≡ d.max_agent_steps
      velocity : limit_or env.max_token_velocity inp.max_token_velocity ≡ d.max_token_velocity

    check_step-velocity :
        (step delta : ℕ) (signal : LoopSignal) (ctx : ExecutionContext) (d : LoopDetector)
        → (check_step k step delta signal ctx d).0.max_token_velocity ≡ d.max_token_velocity
    check_step-velocity step delta signal ctx d = ground arith

    -- After a step that returns its context, the detector lives on with that.
    record_step-Lives :
        (c : StepCall) (d : LoopDetector) {ctx ctx' : ExecutionContext}
        → Lives ctx d
        → (record_step k c.token_delta c.signal c.description d).1 ≡ Loop.returned ctx'
        → Lives ctx' (record_step k c.token_delta c.signal c.description d).0
    record_step-Lives c d {ctx} {ctx'} h went =
        let next = with_step c.token_delta c.signal c.description ctx in
        let step = length ctx.steps + 1 in
        let run = record_step-found k c.token_delta c.signal c.description d h.found in
        let found =
          check_step-found env (with_call inp c none) k step next ctx' d
            (sym (ap (λ (s : Loop.Call ExecutionContext). s.1) run) ∙ went) in
        record {
          found = ap (λ (s : Loop.Call ExecutionContext). get s.0.contexts k) run ∙ found.0;
          own = sym (ap (λ (x : ExecutionContext). x.session_id) found.1) ∙ h.own;
          steps = h.steps ∙ sym (record_step-max k c.token_delta c.signal c.description d);
          velocity =
              h.velocity
              ∙ sym (
                  ap (λ (s : Loop.Call ExecutionContext). s.0.max_token_velocity) run
                  ∙ check_step-velocity step c.token_delta c.signal next d);
        }

    -- What follows a step, once its result is known.
    and_on-observed :
        (s : Loop.Call ExecutionContext) (rest : List (StepCall × Worker))
        → ((ctx : ExecutionContext)
            → s.1 ≡ Loop.returned ctx
            → resumed inp rest (some (checkpoint_of ctx)) ≡ lived k rest s.0)
        → and_on (observed env k s) (resumed inp rest)
          ≡ and_on (observed env k s) (λ checkpoint. lived k rest s.0)
    unfolding observed
    and_on-observed (d, Loop.returned ctx) rest h =
        ap (λ l. returned (result_of env ctx) ∷ l) (h ctx refl)
    and_on-observed (d, Loop.raised (Loop.loop_detected streak max)) rest h = refl
    and_on-observed (d, Loop.raised (Loop.token_velocity step delta max)) rest h = refl
    and_on-observed (d, Loop.raised (Loop.pending_approval step)) rest h = refl
    and_on-observed (d, Loop.raised (Loop.not_found j)) rest h = refl
    and_on-observed (d, Loop.raised Loop.bad_value) rest h = refl

    resumed-lived :
        (calls : List (StepCall × Worker)) (d : LoopDetector) {ctx : ExecutionContext}
        → Lives ctx d
        → resumed inp calls (some (checkpoint_of ctx)) ≡ lived k calls d
    unfolding resumed lived
    resumed-lived [] d h = refl
    resumed-lived ((c, st) ∷ rest) d {ctx} h =
        let now = with_call inp c (some (checkpoint_of ctx)) in
        let built = build_loop_detector env now st.audit in
        let same =
          loop_record_step-observed env now k (store k ctx built) d st named known
            (stepped-resumed env now k built ctx refl h.own)
            (record {
              left = stored_context env now k built ctx;
              right = h.found;
              steps = h.steps;
              velocity = h.velocity;
            }) in
        ap (λ r. and_on r (resumed inp rest)) same
        ∙ and_on-observed (record_step k c.token_delta c.signal c.description d) rest
            (λ ctx' went. resumed-lived rest _ (record_step-Lives c d h went))

    created :
        (d : LoopDetector)
        → get (create_context k inp.agent_type d).0.contexts k ≡ some (new_context k inp.agent_type)
    unfolding create_context
    created d =
        get-put d.contexts k k (new_context k inp.agent_type)
        ∙ if_true _ (get d.contexts k) (==_refl k)

    -- A sequence of steps of one session, begun without a checkpoint, of a task that has an id: each
    -- activity gets the checkpoint that the one before it returned, and may run on any worker in any state.
    -- The results, to the first error, are those of one detector with the same limits that creates the
    -- context and then keeps it: the same checkpoints and counts, and an error of the same type at the
    -- same step.
    pub resumed-create_context :
        (calls : List (StepCall × Worker)) (d : LoopDetector)
        → limit_or env.max_agent_steps inp.max_agent_steps ≡ d.max_agent_steps
        → limit_or env.max_token_velocity inp.max_token_velocity ≡ d.max_token_velocity
        → resumed inp calls none ≡ lived k calls (create_context k inp.agent_type d).0
    unfolding resumed lived create_context
    resumed-create_context [] d steps velocity = refl
    resumed-create_context ((c, st) ∷ rest) d steps velocity =
        let now = with_call inp c none in
        let built = build_loop_detector env now st.audit in
        let fresh = (create_context k inp.agent_type d).0 in
        let lives : Lives (new_context k inp.agent_type) fresh = record {
          found = created d;
          own = refl;
          steps = steps;
          velocity = velocity;
        } in
        let same =
          loop_record_step-observed env now k (create_context k inp.agent_type built).0 fresh st
            named known refl
            (record {
              left = created built;
              right = created d;
              steps = steps;
              velocity = velocity;
            }) in
        ap (λ r. and_on r (resumed inp rest)) same
        ∙ and_on-observed (record_step k c.token_delta c.signal c.description fresh) rest
            (λ ctx' went. resumed-lived rest _ (record_step-Lives c fresh lives went))
