-- ===== src/Audit/Calls.antt =====
-- Any sequence of calls of the audit logger, for any tasks in any order.
use aegis_os.Prelude.{
  ℕ, zero, suc, String, ◌≡◌, refl, Bool, true, false, ◌↔◌, Option, none, some, eq_iff, List, [],
  ◌∷◌, ◌==◌, arith, ap, sym, subst, ◌∙◌, inl, inr, Bool-cases, string_eq,
}
use aegis_os.Prelude.Int.{ℤ, ltb_ℤ}
use mathlib.Core.List.{head?, map}
use mathlib.Core.Option
use aegis_os.Dict.{get, get-empty}
use aegis_os.Audit.{
  Level, Kwargs, Entry, AuditLogger, Event, DateTime, Outcome, TaskFields, counter, moves_back,
  plain, new_logger, finish_event, reserve_after, normalize_timestamp, emit_task_event, stage_event,
  lifecycle_event,
}
use aegis_os.Audit.Trail.{
  IsConsistent, IsTrail, of_task, Continues, newest, following, time_of,
  emit_task_event-IsConsistent,
}

pub data Call : Type 0 where
  plain_event : Level → String → Kwargs → Call
  stage : Outcome → Event → DateTime → Call
  lifecycle : String → Option String → String → Event → DateTime → Call

-- A call that raises leaves the logger as it was.
abbrev or_same : AuditLogger → Option AuditLogger → AuditLogger
or_same a none = a
or_same a (some b) = b

pub call : Call → AuditLogger → AuditLogger
call (plain_event level event kwargs) a = plain level event kwargs a
call (stage outcome e now) a = or_same a (stage_event outcome e now a)
call (lifecycle event_type session_id status e now) a =
    or_same a (lifecycle_event event_type session_id status e now a)

pub run : List Call → AuditLogger → AuditLogger
unfolding call
run [] a = a
run (c ∷ cs) a = run cs (call c a)

or_same-IsConsistent :
    {a : AuditLogger} (o : Option AuditLogger)
    → IsConsistent a
    → ((b : AuditLogger) → o ≡ some b → IsConsistent b)
    → IsConsistent (or_same a o)
or_same-IsConsistent none h k = h
or_same-IsConsistent (some b) h k = k b refl

emitted-IsConsistent :
    (level : Level) (e : Event) (now : DateTime) (a : AuditLogger)
    → IsConsistent a
    → IsConsistent (or_same a (emit_task_event level e now a))
emitted-IsConsistent level e now a h =
    or_same-IsConsistent (emit_task_event level e now a) h
      (λ b. emit_task_event-IsConsistent level e now a h)

call-IsConsistent : (c : Call) (a : AuditLogger) → IsConsistent a → IsConsistent (call c a)
unfolding call stage_event lifecycle_event
call-IsConsistent (plain_event level event kwargs) a h = record {
  counted = h.counted;
  stamped = h.stamped;
  trail = (tt, h.trail);
}
call-IsConsistent (stage outcome e now) a h = emitted-IsConsistent _ _ now a h
call-IsConsistent (lifecycle event_type session_id status e now) a h =
    emitted-IsConsistent _ _ now a h

run-IsConsistent : (cs : List Call) (a : AuditLogger) → IsConsistent a → IsConsistent (run cs a)
unfolding run
run-IsConsistent [] a h = h
run-IsConsistent (c ∷ cs) a h = run-IsConsistent cs (call c a) (call-IsConsistent c a h)

new_logger-IsConsistent : IsConsistent new_logger
new_logger-IsConsistent = record {
  counted = λ t. rw (get-empty {V = ℕ} t, counter);
  stamped = λ t. get-empty t;
  trail = tt;
}

abbrev pub cons_some : Option TaskFields → List TaskFields → List TaskFields
cons_some none fs = fs
cons_some (some f) fs = f ∷ fs

-- The events of a task in the sink, the newest first.
abbrev pub events : String → List Entry → List TaskFields
events t [] = []
events t (entry ∷ log) = cons_some (of_task t entry.task) (events t log)

-- n - 1, …, 1, 0
abbrev pub countdown : ℕ → List ℕ
countdown zero = []
countdown (suc n) = n ∷ countdown n

-- No timestamp is earlier than the one before it, the newest first.
abbrev pub IsDescending : List TaskFields → Type 0
IsDescending [] = Unit {0}
IsDescending (f ∷ fs) = (moves_back f.timestamp (time_of (head? fs)) ≡ false) × IsDescending fs

abbrev pub number_of : TaskFields → ℕ
number_of f = f.sequence_number

head-events : (t : String) (log : List Entry) → head? (events t log) ≡ newest t log
head-events t [] = refl
head-events t (entry ∷ log) = ground (arith, head-events t log)

-- The events of a task are numbered down to 0, and stand in the order of time.
abbrev pub IsNumbered : List TaskFields → Type 0
IsNumbered fs = (map number_of fs ≡ countdown (following (head? fs))) × IsDescending fs

own-IsNumbered :
    (f : TaskFields) (log : List Entry)
    → Continues (some f) log
    → IsNumbered (events f.task_id log)
    → IsNumbered (f ∷ events f.task_id log)
own-IsNumbered f log c h = (
  ap (λ ns. f.sequence_number ∷ ns)
      (h.0 ∙ ap countdown (ap following (head-events f.task_id log) ∙ sym c.0)),
  (rw head-events c.1, h.1),
)

cons-IsNumbered :
    (t : String) (log : List Entry) (o : Option TaskFields)
    → Continues o log
    → IsNumbered (events t log)
    → IsNumbered (cons_some (of_task t o) (events t log))
cons-IsNumbered t log none c h = h
cons-IsNumbered t log (some f) c h = elim (Bool-cases (f.task_id == t)) [
  | inl same ↦ rw same (
      subst (λ j. IsNumbered (events j log) → IsNumbered (f ∷ events j log))
        ((eq_iff f.task_id t).0 same) (own-IsNumbered f log c) h)
  | inr other ↦ rw other h
]

events-IsNumbered : (t : String) (log : List Entry) → IsTrail log → IsNumbered (events t log)
events-IsNumbered t [] h = (refl, tt)
events-IsNumbered t (entry ∷ log) h =
    cons-IsNumbered t log entry.task h.0 (events-IsNumbered t log h.1)

-- Is there an explicit timestamp, and is it earlier than the task's last one?
abbrev pub overrides_back : Option DateTime → Option ℤ → Bool
overrides_back none previous = false
overrides_back (some t) previous = moves_back (normalize_timestamp t) previous

refusal :
    (level : Level) (e : Event) (now : DateTime) (a : AuditLogger) (previous : Option ℤ)
    (override : Option DateTime)
    → (Option.map (finish_event level e) (reserve_after previous e.task_id override now a) ≡ none)
      ↔ (overrides_back override previous ≡ true)
refusal level e now a none none = (λ h. cc, λ h. cc)
refusal level e now a (some previous) none = (λ h. cc, λ h. cc)
refusal level e now a none (some t) = (λ h. cc, λ h. cc)
refusal level e now a (some previous) (some t) =
    elim (Bool-cases (ltb_ℤ (normalize_timestamp t) previous)) [
      | inl back ↦ (λ h. back, λ h. rw back)
      | inr onward ↦ (rw onward (λ h. cc), λ h. cc (onward, h))
    ]

-- From a new logger, after any calls of its methods for any tasks, raising ones included: the
-- sequence numbers of the events of a task, its clock warnings included, count up from 0 with no
-- gap and no duplicate, the next one is the task's counter, and no timestamp is earlier than the
-- one emitted before it for that task.
pub run-IsNumbered :
    (cs : List Call) (t : String)
    → let a = run cs new_logger in
      (map number_of (events t a.log) ≡ countdown (counter a.seq_counters t))
      × IsDescending (events t a.log)
run-IsNumbered cs t =
    let h = run-IsConsistent cs new_logger new_logger-IsConsistent in
    let n = events-IsNumbered t (run cs new_logger).log h.trail in
    (
      n.0 ∙ ap countdown (ap following (head-events t (run cs new_logger).log) ∙ sym (h.counted t)),
      n.1,
    )

-- An event with an explicit timestamp is refused exactly when that is earlier than the task's last
-- timestamp. Without one the event is never refused, whatever the clock says.
pub emit_task_event-eq-none :
    (level : Level) (e : Event) (now : DateTime) (a : AuditLogger)
    → (emit_task_event level e now a ≡ none)
      ↔ (overrides_back e.timestamp_override (get a.last_timestamps e.task_id) ≡ true)
unfolding emit_task_event
emit_task_event-eq-none level e now a =
    refusal level e now a (get a.last_timestamps e.task_id) e.timestamp_override
