-- ===== src/Audit/Tests.antt =====
-- Runs of src/audit_vault/logger.py at small inputs.
use aegis_os.Prelude.{ℕ, ◌≡◌, ◌↔◌, true, some, none, [], ◌∷◌, List, map, string_eq}
use aegis_os.Prelude.Int.{pos}
use aegis_os.Dict.{get}
use aegis_os.Audit.{DateTime, Event, Level, Outcome, new_logger, counter, emit_task_event}
use aegis_os.Audit.Calls.{
  Call, stage, run, events, number_of, countdown, IsDescending, run-IsNumbered, overrides_back,
  emit_task_event-eq-none,
}

abbrev at : ℕ → DateTime
at t = record { wall = pos t; utc_offset = some (pos 0) }

abbrev event : Event
event = record {
  event = "policy.evaluated";
  task_id = "task-1";
  agent_type = "finance";
  stage = "policy-eval";
  traceparent = "";
  timestamp_override = none;
  kwargs = [];
}

-- The second reading of the clock is before the first.
abbrev calls : List Call
calls = stage Outcome.allow event (at 10) ∷ stage Outcome.allow event (at 4) ∷ []

run-IsNumbered_example :
    let a = run calls new_logger in
    (map number_of (events "task-1" a.log) ≡ countdown (counter a.seq_counters "task-1"))
    × IsDescending (events "task-1" a.log)
run-IsNumbered_example = run-IsNumbered calls "task-1"

emit_task_event-eq-none_example :
    (emit_task_event Level.info event (at 4) new_logger ≡ none)
    ↔ (overrides_back none (get new_logger.last_timestamps "task-1") ≡ true)
emit_task_event-eq-none_example = emit_task_event-eq-none Level.info event (at 4) new_logger
