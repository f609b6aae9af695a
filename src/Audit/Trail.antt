-- ===== src/Audit/Trail.antt =====
-- The trail of each task: no gap in its sequence numbers, and no step back in its timestamps.
use mathlib.Core.Option
use aegis_os.Prelude.{
  ℕ, suc, ◌+◌, String, ◌≡◌, refl, ◌∙◌, subst, Bool-cases, inl, inr, false, Option, none, some, List,
  [], ◌∷◌, ◌==◌, if◌then◌else◌, arith, eq_iff, string_eq,
}
use aegis_os.Prelude.Int.{ℤ, ltb_ℤ}
use aegis_os.Dict.{get, put, get-put}
use aegis_os.Audit.{
  Level, Entry, TaskFields, AuditLogger, Event, DateTime, Reserved, reserve_at, reserve_skewed,
  task_fields, emit_clock_skew_warning, counter, moves_back, reserve, emit_task_event, skew_of,
  finish_event, reserve_after, normalize_timestamp,
}

-- The fields of an event, if it is one of the task `t`.
abbrev pub of_task : String → Option TaskFields → Option TaskFields
of_task t none = none
of_task t (some f) = if f.task_id == t then some f else none

abbrev pub or_older : Option TaskFields → Option TaskFields → Option TaskFields
or_older none older = older
or_older (some f) older = some f

-- The newest event of a task.
abbrev pub newest : String → List Entry → Option TaskFields
newest t [] = none
newest t (entry ∷ log) = or_older (of_task t entry.task) (newest t log)

-- The sequence number that comes after an event.
abbrev pub following : Option TaskFields → ℕ
following none = 0
following (some f) = suc f.sequence_number

abbrev pub time_of : Option TaskFields → Option ℤ
time_of none = none
time_of (some f) = some f.timestamp

-- An event goes on where the newest one of its task stopped.
abbrev pub Continues : Option TaskFields → List Entry → Type 0
Continues none log = Unit {0}
Continues (some f) log =
    (f.sequence_number ≡ following (newest f.task_id log))
    × (moves_back f.timestamp (time_of (newest f.task_id log)) ≡ false)

abbrev pub IsTrail : List Entry → Type 0
IsTrail [] = Unit {0}
IsTrail (entry ∷ log) = Continues entry.task log × IsTrail log

pub record IsConsistent (a : AuditLogger) : Type 0 where
  pub counted : (t : String) → counter a.seq_counters t ≡ following (newest t a.log)
  pub stamped : (t : String) → get a.last_timestamps t ≡ time_of (newest t a.log)
  pub trail : IsTrail a.log

-- One more event, which goes on where the newest one of its task stopped.
extend :
    {a : AuditLogger} (b : AuditLogger) (e : Entry) (f : TaskFields)
    → IsConsistent a
    → e.task ≡ some f
    → b.log ≡ e ∷ a.log
    → f.sequence_number ≡ counter a.seq_counters f.task_id
    → moves_back f.timestamp (get a.last_timestamps f.task_id) ≡ false
    → ((t : String)
        → counter b.seq_counters t
          ≡ (if f.task_id == t then f.sequence_number + 1 else counter a.seq_counters t))
    → ((t : String)
        → get b.last_timestamps t
          ≡ (if f.task_id == t then some f.timestamp else get a.last_timestamps t))
    → IsConsistent b
extend b e f h task log n back counters stamps = record {
  counted = λ t. rw (log, task) (ground (arith, counters t, h.counted t));
  stamped = λ t. rw (log, task) (ground (arith, stamps t, h.stamped t));
  trail = rw (log, task) ((n ∙ h.counted f.task_id, rw (← h.stamped f.task_id) back), h.trail);
}

same_time : (t : ℤ) → moves_back t (some t) ≡ false
same_time t = ground arith

module _ (level : Level) (e : Event) where
  reserve_at-IsConsistent :
      (t : ℤ) {a : AuditLogger}
      → IsConsistent a
      → moves_back t (get a.last_timestamps e.task_id) ≡ false
      → IsConsistent (finish_event level e (reserve_at e.task_id t none a))
  reserve_at-IsConsistent t {a} h back =
      extend _ _ (task_fields e (counter a.seq_counters e.task_id) t) h refl refl refl back
        (λ j.
          ground (arith, get-put a.seq_counters e.task_id j (counter a.seq_counters e.task_id + 1)))
        (λ j. get-put a.last_timestamps e.task_id j t)

  -- The warning comes first, and the event after it, both at the previous timestamp.
  reserve_skewed-IsConsistent :
      (previous candidate : ℤ) {a : AuditLogger}
      → IsConsistent a
      → get a.last_timestamps e.task_id ≡ some previous
      → IsConsistent (finish_event level e (reserve_skewed e.task_id previous candidate a))
  reserve_skewed-IsConsistent previous candidate {a} h last =
      let n = counter a.seq_counters e.task_id in
      let w = some (n, skew_of previous candidate) in
      let back : moves_back previous (get a.last_timestamps e.task_id) ≡ false =
        rw last (same_time previous) in
      let warned =
        emit_clock_skew_warning e previous w
          (record a { seq_counters = put a.seq_counters e.task_id (n + 1) }) in
      let warned-IsConsistent : IsConsistent warned =
        extend _ _ (task_fields e n previous) h refl refl refl back
          (λ j. ground (arith, get-put a.seq_counters e.task_id j (n + 1)))
          (λ j. ground (arith, last, eq_iff e.task_id j)) in
      reserve_at-IsConsistent previous {a = warned} warned-IsConsistent back

  abbrev FinishesConsistent : Option (Reserved × AuditLogger) → Type 0
  FinishesConsistent none = Unit {0}
  FinishesConsistent (some p) = IsConsistent (finish_event level e p)

  reserve_after-consistent :
      (previous : Option ℤ) (override : Option DateTime) (now : DateTime) {a : AuditLogger}
      → IsConsistent a
      → get a.last_timestamps e.task_id ≡ previous
      → FinishesConsistent (reserve_after previous e.task_id override now a)
  reserve_after-consistent none none now h last =
      reserve_at-IsConsistent (normalize_timestamp now) h (rw last)
  reserve_after-consistent (some previous) none now h last =
      let candidate = normalize_timestamp now in
      elim (Bool-cases (ltb_ℤ candidate previous)) [
        | inl skewed ↦ rw skewed (reserve_skewed-IsConsistent previous candidate h last)
        | inr onward ↦ rw onward (reserve_at-IsConsistent candidate h (rw last onward))
      ]
  reserve_after-consistent none (some t) now h last =
      reserve_at-IsConsistent (normalize_timestamp t) h (rw last)
  reserve_after-consistent (some previous) (some t) now h last =
      let candidate = normalize_timestamp t in
      elim (Bool-cases (ltb_ℤ candidate previous)) [
        | inl back ↦ rw back tt
        | inr onward ↦ rw onward (reserve_at-IsConsistent candidate h (rw last onward))
      ]

  finish-IsConsistent :
      {b : AuditLogger} (o : Option (Reserved × AuditLogger))
      → FinishesConsistent o
      → Option.map (finish_event level e) o ≡ some b
      → IsConsistent b
  finish-IsConsistent none k eq = cc
  finish-IsConsistent (some p) k eq = subst IsConsistent (cc) k

-- An event of a task, from either emitter, keeps the trails of all tasks.
pub emit_task_event-IsConsistent :
    (level : Level) (e : Event) (now : DateTime) (a : AuditLogger) {b : AuditLogger}
    → IsConsistent a
    → emit_task_event level e now a ≡ some b
    → IsConsistent b
unfolding emit_task_event
emit_task_event-IsConsistent level e now a h emitted =
    finish-IsConsistent level e (reserve e.task_id e.timestamp_override now a)
      (reserve_after-consistent level e (get a.last_timestamps e.task_id) e.timestamp_override now h
        refl)
      emitted
