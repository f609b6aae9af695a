-- ===== src/Watchdog/Loop.antt =====
-- src/watchdog/loop_detector.py: the circuit breaker over the steps of an agent. A UUID is its
-- number, and a text that is read as a UUID is either that of a number or malformed. A message is
-- the data that it is made from.
pub mod Streak
pub mod Steps
pub mod Runs
pub mod Checkpoint
mod Tests
use mathlib.Core.List.{reverse}
use aegis_os.Prelude.{
  ℕ, suc, ◌+◌, String, Bool, true, false, Option, none, some, List, [], ◌∷◌, ◌++◌, map, length, ltb,
  leb, ◌==◌, if◌then◌else◌, nat_eq, string_eq,
}
use aegis_os.Dict.{Dict, get, put}
use aegis_os.Audit.{AuditLogger, Kwargs, Level, text, num, uuid, plain}

pub data LoopSignal : Type 0 where
  progress no_progress human_required : LoopSignal

-- The texts of the signals.
abbrev pub signal_value : LoopSignal → String
signal_value LoopSignal.progress = "progress"
signal_value LoopSignal.no_progress = "no_progress"
signal_value LoopSignal.human_required = "human_intervention_required"

-- `LoopSignal(text)`; `none` is its `ValueError`.
abbrev pub signal_of : String → Option LoopSignal
signal_of t =
    if t == signal_value LoopSignal.progress
    then some LoopSignal.progress
    else if t == signal_value LoopSignal.no_progress
    then some LoopSignal.no_progress
    else if t == signal_value LoopSignal.human_required
    then some LoopSignal.human_required
    else none

pub record StepRecord : Type 0 where
  pub step_number : ℕ
  pub token_delta : ℕ
  pub signal : LoopSignal
  pub description : String

pub record ExecutionContext : Type 0 where
  pub session_id : ℕ
  pub agent_type : String
  pub steps : List StepRecord
  pub total_tokens : ℕ
  pub loop_detected : Bool
  pub intervention_required : Bool

-- `KeyError`, `TokenVelocityError`, `PendingApprovalError`, `LoopDetectedError` and `ValueError`
pub data Error : Type 0 where
  not_found : ℕ → Error
  token_velocity : (step delta max : ℕ) → Error
  pending_approval : (step : ℕ) → Error
  loop_detected : (streak max : ℕ) → Error
  bad_value : Error

pub data Result (A : Type 0) : Type 0 where
  returned : A → Result A
  raised : Error → Result A

pub record LoopDetector : Type 0 where
  pub max_agent_steps : ℕ
  pub max_token_velocity : ℕ
  pub contexts : Dict ℕ ExecutionContext
  pub audit : AuditLogger

abbrev pub Call : Type 0 → Type 0
Call A = LoopDetector × Result A

abbrev pub new_context : ℕ → String → ExecutionContext
new_context session_id agent_type = record {
  session_id = session_id;
  agent_type = agent_type;
  steps = [];
  total_tokens = 0;
  loop_detected = false;
  intervention_required = false;
}

-- Any change of the context that stands under a key.
abbrev pub store : ℕ → ExecutionContext → LoopDetector → LoopDetector
store session_id ctx d = record d { contexts = put d.contexts session_id ctx }

abbrev pub with_audit : Level → String → Kwargs → LoopDetector → LoopDetector
with_audit level event kwargs d = record d { audit = plain level event kwargs d.audit }

unfoldable pub create_context : ℕ → String → LoopDetector → Call ExecutionContext
create_context session_id agent_type d =
    let ctx = new_context session_id agent_type in
    (
      with_audit Level.info "loop_detector.context_created"
          (("session_id", uuid session_id) ∷ ("agent_type", text agent_type) ∷ [])
          (store session_id ctx d),
      returned ctx,
    )

-- Does a step reset the streak?
abbrev pub resets : LoopSignal → Bool
resets LoopSignal.no_progress = false
resets _ = true

-- The loop over the reversed steps.
pub count_streak : List StepRecord → ℕ
count_streak [] = 0
count_streak (step ∷ steps) =
    let more = suc (count_streak steps) in if resets step.signal then 0 else more

-- `_no_progress_streak`
pub no_progress_streak : List StepRecord → ℕ
unfolding count_streak
no_progress_streak steps = count_streak (reverse steps)

-- The context with one more step.
abbrev pub with_step : ℕ → LoopSignal → String → ExecutionContext → ExecutionContext
with_step token_delta signal description ctx =
    let step : StepRecord = record {
      step_number = length ctx.steps + 1;
      token_delta = token_delta;
      signal = signal;
      description = description;
    } in
    record ctx { steps = ctx.steps ++ step ∷ []; total_tokens = ctx.total_tokens + token_delta }

abbrev pub is_human_required : LoopSignal → Bool
is_human_required LoopSignal.human_required = true
is_human_required _ = false

-- Check 1
abbrev trip_velocity : ℕ → ℕ → ℕ → ExecutionContext → LoopDetector → Call ExecutionContext
trip_velocity session_id step token_delta ctx d = (
  with_audit Level.warning "loop.detected"
      (("reason", text "token_velocity_exceeded")
        ∷ ("session_id", uuid session_id)
        ∷ ("agent_type", text ctx.agent_type)
        ∷ ("step", num step)
        ∷ ("token_delta", num token_delta)
        ∷ ("max_token_velocity", num d.max_token_velocity)
        ∷ [])
      (store session_id (record ctx { loop_detected = true }) d),
  raised (token_velocity step token_delta d.max_token_velocity),
)

-- Check 2
abbrev hold_for_approval : ℕ → ℕ → ExecutionContext → LoopDetector → Call ExecutionContext
hold_for_approval session_id step ctx d = (
  with_audit Level.warning "loop.pending_approval"
      (("session_id", uuid session_id)
        ∷ ("agent_type", text ctx.agent_type)
        ∷ ("step", num step)
        ∷ [])
      (store session_id (record ctx { intervention_required = true }) d),
  raised (pending_approval step),
)

-- Check 3
abbrev trip_streak : ℕ → ℕ → ℕ → ExecutionContext → LoopDetector → Call ExecutionContext
trip_streak session_id step streak ctx d = (
  with_audit Level.warning "loop.detected"
      (("reason", text "no_progress_streak")
        ∷ ("session_id", uuid session_id)
        ∷ ("agent_type", text ctx.agent_type)
        ∷ ("step", num step)
        ∷ ("streak", num streak)
        ∷ ("max_agent_steps", num d.max_agent_steps)
        ∷ [])
      (store session_id (record ctx { loop_detected = true }) d),
  raised (loop_detected streak d.max_agent_steps),
)

-- The checks in their order. `ctx` has the new step already.
abbrev pub check_step :
    ℕ → ℕ → ℕ → LoopSignal → ExecutionContext → LoopDetector → Call ExecutionContext
check_step session_id step token_delta signal ctx d =
    let streak = no_progress_streak ctx.steps in
    if ltb d.max_token_velocity token_delta
    then trip_velocity session_id step token_delta ctx d
    else if is_human_required signal
    then hold_for_approval session_id step ctx d
    else if leb d.max_agent_steps streak
    then trip_streak session_id step streak ctx d
    else (store session_id ctx d, returned ctx)

abbrev pub step_in :
    Option ExecutionContext → ℕ → ℕ → LoopSignal → String → LoopDetector → Call ExecutionContext
step_in none session_id token_delta signal description d = (d, raised (not_found session_id))
step_in (some ctx) session_id token_delta signal description d =
    check_step session_id (length ctx.steps + 1) token_delta signal
      (with_step token_delta signal description ctx) d

unfoldable pub record_step : ℕ → ℕ → LoopSignal → String → LoopDetector → Call ExecutionContext
unfolding no_progress_streak
record_step session_id token_delta signal description d =
    step_in (get d.contexts session_id) session_id token_delta signal description d

-- `get_context`
unfoldable pub get_context : ℕ → LoopDetector → Option ExecutionContext
get_context session_id d = get d.contexts session_id

pub data UuidText : Type 0 where
  canonical : ℕ → UuidText
  malformed : String → UuidText

pub record StepSnapshot : Type 0 where
  pub step_number : ℕ
  pub token_delta : ℕ
  pub signal : String
  pub description : String

pub record ExecutionCheckpoint : Type 0 where
  pub session_id : UuidText
  pub agent_type : String
  pub total_tokens : ℕ
  pub loop_detected : Bool
  pub intervention_required : Bool
  pub steps : List StepSnapshot

abbrev pub step_snapshot : StepRecord → StepSnapshot
step_snapshot step = record {
  step_number = step.step_number;
  token_delta = step.token_delta;
  signal = signal_value step.signal;
  description = step.description;
}

abbrev pub checkpoint_of : ExecutionContext → ExecutionCheckpoint
checkpoint_of ctx = record {
  session_id = canonical ctx.session_id;
  agent_type = ctx.agent_type;
  total_tokens = ctx.total_tokens;
  loop_detected = ctx.loop_detected;
  intervention_required = ctx.intervention_required;
  steps = map step_snapshot ctx.steps;
}

abbrev pub checkpoint_in : Option ExecutionContext → ℕ → Result ExecutionCheckpoint
checkpoint_in none session_id = raised (not_found session_id)
checkpoint_in (some ctx) session_id = returned (checkpoint_of ctx)

unfoldable pub checkpoint : ℕ → LoopDetector → Result ExecutionCheckpoint
checkpoint session_id d = checkpoint_in (get d.contexts session_id) session_id

abbrev step_with_signal : StepSnapshot → LoopSignal → StepRecord
step_with_signal s signal = record {
  step_number = s.step_number;
  token_delta = s.token_delta;
  signal = signal;
  description = s.description;
}

abbrev cons_step :
    StepSnapshot → Option LoopSignal → Option (List StepRecord) → Option (List StepRecord)
cons_step s none rest = none
cons_step s (some signal) none = none
cons_step s (some signal) (some steps) = some (step_with_signal s signal ∷ steps)

-- The comprehension over the snapshots of the steps.
pub read_steps : List StepSnapshot → Option (List StepRecord)
read_steps [] = some []
read_steps (s ∷ ss) = cons_step s (signal_of s.signal) (read_steps ss)

abbrev restore_in :
    UuidText → Option (List StepRecord) → ExecutionCheckpoint → LoopDetector → Call ExecutionContext
restore_in (malformed t) steps snapshot d = (d, raised bad_value)
restore_in (canonical session_id) none snapshot d = (d, raised bad_value)
restore_in (canonical session_id) (some steps) snapshot d =
    let ctx : ExecutionContext = record {
      session_id = session_id;
      agent_type = snapshot.agent_type;
      steps = steps;
      total_tokens = snapshot.total_tokens;
      loop_detected = snapshot.loop_detected;
      intervention_required = snapshot.intervention_required;
    } in
    (store session_id ctx d, returned ctx)

unfoldable pub restore : ExecutionCheckpoint → LoopDetector → Call ExecutionContext
unfolding read_steps
restore snapshot d = restore_in snapshot.session_id (read_steps snapshot.steps) snapshot d
