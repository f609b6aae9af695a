-- ===== src/ControlPlane/Activities/Looping.antt =====
-- src/control_plane/scheduler.py: the activity "LoopRecordStep".
pub mod Resuming
pub mod Sequence
use aegis_os.Prelude.{ℕ, String, Option, none, some, List, [], ◌∷◌, length}
use aegis_os.Audit.{AuditLogger, Outcome, text, num}
use aegis_os.Watchdog.Loop
use aegis_os.Watchdog.Loop.{
  LoopDetector, ExecutionContext, ExecutionCheckpoint, signal_value, create_context, restore,
  record_step, get_context, checkpoint,
}
use aegis_os.ControlPlane.Records.{LoopRecordInput, LoopRecordResult}
use aegis_os.ControlPlane.Steps.{Result, returned, raised, ◌>>=◌, ◌>>◌, pure, raise}
use aegis_os.ControlPlane.Activities.{
  Env, Worker, M, Call, Error, application_error, loop_error, halted, require_task_id, log,
  uuid_or_raise,
}

abbrev limit_or : ℕ → Option ℕ → ℕ
limit_or default none = default
limit_or default (some limit) = limit

-- What the detector has counted for a session, if it knows it.
abbrev pub counts : Option ExecutionContext → ℕ × ℕ
counts none = (0, 0)
counts (some ctx) = (length ctx.steps, ctx.total_tokens)

abbrev pub and_then : {A B : Type 0} → Loop.Call A → (LoopDetector → Loop.Call B) → Loop.Call B
and_then (d, Loop.returned a) f = f d
and_then (d, Loop.raised err) f = (d, Loop.raised err)

-- `if inp.checkpoint is None`
abbrev pub resume :
    Option ExecutionCheckpoint → ℕ → String → LoopDetector → Loop.Call ExecutionContext
resume none id agent_type d = create_context id agent_type d
resume (some snapshot) id agent_type d = restore snapshot d

module _ (env : Env) where
  -- `_build_loop_detector`; it writes to the log of the worker.
  abbrev pub build_loop_detector : LoopRecordInput → AuditLogger → LoopDetector
  build_loop_detector inp audit = record {
    max_agent_steps = limit_or env.max_agent_steps inp.max_agent_steps;
    max_token_velocity = limit_or env.max_token_velocity inp.max_token_velocity;
    contexts = [];
    audit = audit;
  }

  module _ (inp : LoopRecordInput) where
    abbrev pub loop_call : Call
    loop_call = record {
      task_id = inp.task_id;
      agent_type = inp.agent_type;
      span = "watchdog.loop-detect";
      traceparent = inp.traceparent;
    }

    -- The calls of the detector.
    abbrev pub stepped : ℕ → LoopDetector → Loop.Call ExecutionContext
    stepped id d =
        and_then (resume inp.checkpoint id inp.agent_type d)
          (record_step id inp.token_delta inp.signal inp.description)

    -- The event, and the error that ends the activity, with what was counted.
    abbrev pub halt : String → String → Loop.Error → ℕ × ℕ → M LoopRecordResult
    halt event error_type err (step_count, total_tokens) = do
      log env loop_call Outcome.deny event "watchdog.loop-detect"
          (("error_message", text (env.message (loop_error err))) ∷ [])
      raise (application_error error_type (halted err step_count total_tokens))

    abbrev pub checkpointed :
        ExecutionContext → Loop.Result ExecutionCheckpoint → M LoopRecordResult
    checkpointed ctx (Loop.raised err) = raise (loop_error err)
    checkpointed ctx (Loop.returned snapshot) = pure (record {
      checkpoint = snapshot;
      step_count = length ctx.steps;
      total_tokens = ctx.total_tokens;
      loop_detected = ctx.loop_detected;
      intervention_required = ctx.intervention_required;
    })

    -- What follows the calls of the detector.
    pub concluded : ℕ → Loop.Call ExecutionContext → M LoopRecordResult
    concluded id (d, Loop.returned ctx) = do
      log env loop_call Outcome.allow "loop.step_recorded" "watchdog.loop-detect"
          (("step", num (length ctx.steps)) ∷ ("signal", text (signal_value inp.signal)) ∷ [])
      checkpointed ctx (checkpoint id d)
    concluded id (d, Loop.raised (Loop.loop_detected streak max)) =
        halt "loop.halted" "LoopDetectedError" (Loop.loop_detected streak max)
          (counts (get_context id d))
    concluded id (d, Loop.raised (Loop.token_velocity step delta max)) =
        halt "loop.velocity_exceeded" "TokenVelocityError" (Loop.token_velocity step delta max)
          (counts (get_context id d))
    concluded id (d, Loop.raised (Loop.pending_approval step)) =
        halt "loop.pending_approval" "PendingApprovalError" (Loop.pending_approval step)
          (counts (get_context id d))
    concluded id (d, Loop.raised err) = raise (loop_error err)

    -- The worker goes on with the log that the detector has written to.
    pub conclude : ℕ → Loop.Call ExecutionContext → M LoopRecordResult
    conclude id c st = concluded id c (record st { audit = c.0.audit })

    pub detect : ℕ → M LoopRecordResult
    detect id st = conclude id (stepped id (build_loop_detector inp st.audit)) st

    -- `loop_record_step`
    unfoldable pub loop_record_step : M LoopRecordResult
    loop_record_step = do
      require_task_id env inp.task_id "watchdog.loop-detect" inp.agent_type
      id ← uuid_or_raise (env.uuid inp.loop_session_id)
      detect id
