-- ===== src/Audit.antt =====
-- src/audit_vault/logger.py: the audit logger, its levels, the sequence numbers and the timestamps
-- of task-scoped events. The sink is the list of the emitted entries, the newest first. A keyword
-- argument does not carry the name of a field that the logger sets itself.
pub mod Trail
pub mod Calls
pub mod Compliance
mod Tests
use mathlib.Core.Option
use aegis_os.Prelude.{
  ℕ, suc, ◌+◌, String, Bool, true, false, Option, none, some, List, [], ◌∷◌, ◌==◌, if◌then◌else◌,
  string_eq,
}
use aegis_os.Prelude.Int.{ℤ, ◌-ℤ◌, ltb_ℤ}
use aegis_os.Decimal.{Decimal}
use aegis_os.Dict.{Dict, get, put}

pub data Level : Type 0 where
  info warning error : Level

-- The value of a keyword argument.
pub data Value : Type 0 where
  text : String → Value
  num : ℕ → Value
  uuid : ℕ → Value
  money : Decimal → Value
  texts : List String → Value

abbrev pub Kwargs : Type 0
Kwargs = List (String × Value)

-- What a clock that moved backward adds to the warning about it, in microseconds.
pub record Skew : Type 0 where
  pub previous_timestamp : ℤ
  pub attempted_timestamp : ℤ
  pub adjusted_timestamp : ℤ
  pub skew : ℤ

-- The fields of an event that belongs to a task.
pub record TaskFields : Type 0 where
  pub task_id : String
  pub agent_type : String
  pub stage : String
  pub traceparent : String
  pub sequence_number : ℕ
  pub timestamp : ℤ

pub record Entry : Type 0 where
  pub level : Level
  pub event : String
  pub task : Option TaskFields
  pub skew : Option Skew
  pub kwargs : Kwargs

pub record AuditLogger : Type 0 where
  pub seq_counters : Dict String ℕ
  pub last_timestamps : Dict String ℤ
  pub log : List Entry

abbrev pub new_logger : AuditLogger
new_logger = record { seq_counters = []; last_timestamps = []; log = [] }

-- `structlog`'s sink, at one level.
abbrev pub emit : Entry → AuditLogger → AuditLogger
emit entry a = record a { log = entry ∷ a.log }

-- `AuditLogger.info`, `.warning` and `.error`
abbrev pub plain : Level → String → Kwargs → AuditLogger → AuditLogger
plain level event kwargs =
    emit (record { level = level; event = event; task = none; skew = none; kwargs = kwargs })

-- A `datetime`: microseconds on the wall clock, and the offset from UTC if it is aware.
pub record DateTime : Type 0 where
  pub wall : ℤ
  pub utc_offset : Option ℤ

-- `_normalize_timestamp`: microseconds in UTC; a naive value is taken as UTC.
abbrev pub normalize_timestamp : DateTime → ℤ
normalize_timestamp t = elim t.utc_offset [ none ↦ t.wall | some offset ↦ t.wall -ℤ offset ]

-- A `defaultdict(int)`
abbrev pub counter : Dict String ℕ → String → ℕ
counter d task_id = elim (get d task_id) [ none ↦ 0 | some n ↦ n ]

-- Is the candidate earlier than the previous timestamp, if there is one?
abbrev pub moves_back : ℤ → Option ℤ → Bool
moves_back candidate none = false
moves_back candidate (some previous) = ltb_ℤ candidate previous

-- What `_reserve_task_event_metadata` returns: the sequence number, the timestamp, and the sequence
-- number and the payload of a warning about the clock.
pub record Reserved : Type 0 where
  pub sequence_number : ℕ
  pub timestamp : ℤ
  pub clock_warning : Option (ℕ × Skew)

abbrev pub skew_of : ℤ → ℤ → Skew
skew_of previous candidate = record {
  previous_timestamp = previous;
  attempted_timestamp = candidate;
  adjusted_timestamp = previous;
  skew = previous -ℤ candidate;
}

-- The sequence number is taken, and the timestamp becomes the last one of the task.
abbrev pub reserve_at : String → ℤ → Option (ℕ × Skew) → AuditLogger → Reserved × AuditLogger
reserve_at task_id effective clock_warning a =
    let n = counter a.seq_counters task_id in
    (
      record { sequence_number = n; timestamp = effective; clock_warning = clock_warning },
      record a {
        seq_counters = put a.seq_counters task_id (n + 1);
        last_timestamps = put a.last_timestamps task_id effective;
      },
    )

-- A warning takes a sequence number of its own first.
abbrev pub reserve_skewed : String → ℤ → ℤ → AuditLogger → Reserved × AuditLogger
reserve_skewed task_id previous candidate a =
    let n = counter a.seq_counters task_id in
    reserve_at task_id previous (some (n, skew_of previous candidate))
      (record a { seq_counters = put a.seq_counters task_id (n + 1) })

-- The call once the task's previous timestamp is known. Under an override a step back raises
-- `AuditOrderingError` (`none`); by the clock `now` it is clamped to the previous timestamp.
abbrev pub reserve_after :
    Option ℤ → String → Option DateTime → DateTime → AuditLogger → Option (Reserved × AuditLogger)
reserve_after none task_id none now a = some (reserve_at task_id (normalize_timestamp now) none a)
reserve_after (some previous) task_id none now a =
    let candidate = normalize_timestamp now in
    some (
      if ltb_ℤ candidate previous
      then reserve_skewed task_id previous candidate a
      else reserve_at task_id candidate none a)
reserve_after previous task_id (some override) now a =
    let candidate = normalize_timestamp override in
    if moves_back candidate previous then none else some (reserve_at task_id candidate none a)

-- `_reserve_task_event_metadata`
pub reserve : String → Option DateTime → DateTime → AuditLogger → Option (Reserved × AuditLogger)
reserve task_id override now a =
    reserve_after (get a.last_timestamps task_id) task_id override now a

-- What the callers of the two emitters share.
pub record Event : Type 0 where
  pub event : String
  pub task_id : String
  pub agent_type : String
  pub stage : String
  pub traceparent : String
  pub timestamp_override : Option DateTime
  pub kwargs : Kwargs

abbrev pub task_fields : Event → ℕ → ℤ → TaskFields
task_fields e n t = record {
  task_id = e.task_id;
  agent_type = e.agent_type;
  stage = e.stage;
  traceparent = e.traceparent;
  sequence_number = n;
  timestamp = t;
}

-- `_emit_clock_skew_warning`, where there is one to emit.
abbrev pub emit_clock_skew_warning : Event → ℤ → Option (ℕ × Skew) → AuditLogger → AuditLogger
emit_clock_skew_warning e t none a = a
emit_clock_skew_warning e t (some (n, skew)) a =
    emit
      (record {
        level = Level.warning;
        event = "audit.clock_skew_warning";
        task = some (task_fields e n t);
        skew = some skew;
        kwargs = [];
      })
      a

-- What an emitter does with the metadata that it has reserved.
abbrev pub finish_event : Level → Event → Reserved × AuditLogger → AuditLogger
finish_event level e (r, a) =
    emit
      (record {
        level = level;
        event = e.event;
        task = some (task_fields e r.sequence_number r.timestamp);
        skew = none;
        kwargs = e.kwargs;
      })
      (emit_clock_skew_warning e r.timestamp r.clock_warning a)

-- The part that `stage_event` and `lifecycle_event` have in common; `none` is the ordering error.
pub emit_task_event : Level → Event → DateTime → AuditLogger → Option AuditLogger
unfolding reserve
emit_task_event level e now a =
    Option.map (finish_event level e) (reserve e.task_id e.timestamp_override now a)

pub data Outcome : Type 0 where
  allow deny redact retried failure : Outcome

-- The text of an outcome; `failure` is "error", and "retried" is an outcome that the activities use.
abbrev pub outcome_text : Outcome → String
outcome_text Outcome.allow = "allow"
outcome_text Outcome.deny = "deny"
outcome_text Outcome.redact = "redact"
outcome_text Outcome.retried = "retried"
outcome_text Outcome.failure = "error"

abbrev pub outcome_level : Outcome → Level
outcome_level Outcome.failure = Level.error
outcome_level Outcome.deny = Level.warning
outcome_level _ = Level.info

unfoldable pub stage_event : Outcome → Event → DateTime → AuditLogger → Option AuditLogger
unfolding emit_task_event
stage_event outcome e =
    emit_task_event (outcome_level outcome)
      (record e { kwargs = ("outcome", text (outcome_text outcome)) ∷ e.kwargs })

-- `LifecycleEvent`
pub data LifecycleEvent : Type 0 where
  started retried pending_approval approved denied completed failed : LifecycleEvent

abbrev pub lifecycle_text : LifecycleEvent → String
lifecycle_text LifecycleEvent.started = "task.started"
lifecycle_text LifecycleEvent.retried = "task.retried"
lifecycle_text LifecycleEvent.pending_approval = "task.pending_approval"
lifecycle_text LifecycleEvent.approved = "task.approved"
lifecycle_text LifecycleEvent.denied = "task.denied"
lifecycle_text LifecycleEvent.completed = "task.completed"
lifecycle_text LifecycleEvent.failed = "task.failed"

abbrev pub lifecycle_level : String → Level
lifecycle_level event_type =
    if event_type == lifecycle_text LifecycleEvent.failed
    then Level.error
    else if event_type == lifecycle_text LifecycleEvent.denied
    then Level.warning
    else Level.info

abbrev session_text : Option String → String
session_text none = ""
session_text (some session_id) = session_id

unfoldable pub lifecycle_event :
    String → Option String → String → Event → DateTime → AuditLogger → Option AuditLogger
unfolding emit_task_event
lifecycle_event event_type session_id workflow_status e =
    emit_task_event (lifecycle_level event_type) (record e {
      kwargs =
          ("event_type", text event_type)
          ∷ ("session_id", text (session_text session_id))
          ∷ ("workflow_status", text workflow_status)
          ∷ e.kwargs;
    })
