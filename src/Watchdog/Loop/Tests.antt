-- ===== src/Watchdog/Loop/Tests.antt =====
-- Runs of src/watchdog/loop_detector.py at small inputs.
use aegis_os.Prelude.{ℕ, ◌≡◌, refl, true, some, [], ◌∷◌, ◌++◌, List, length, arith, nat_eq}
use aegis_os.Dict.{get, put}
use aegis_os.Audit.{new_logger}
use aegis_os.Watchdog.Loop.{
  LoopSignal, StepRecord, ExecutionContext, LoopDetector, Error, returned, raised, new_context,
  store, create_context, resets, no_progress_streak, record_step, checkpoint, checkpoint_of,
  restore,
}
use aegis_os.Watchdog.Loop.Streak.{no_progress_streak_counts}
use aegis_os.Watchdog.Loop.Runs.{
  StepCall, run_all, HasValid, run_all-create_context-IsValid, run_idle, run_idle-raises,
}
use aegis_os.Watchdog.Loop.Checkpoint.{restore-checkpoint}

abbrev sid : ℕ
sid = 1

abbrev context : ExecutionContext
context = new_context 1 "finance"

abbrev empty : LoopDetector
empty = record { max_agent_steps = 2; max_token_velocity = 100; contexts = []; audit = new_logger }

abbrev detector : LoopDetector
detector = store 1 context empty

known : get detector.contexts 1 ≡ some context
unfolding get put
known = refl

abbrev first_step : StepRecord
first_step = record {
  step_number = 1;
  token_delta = 200;
  signal = LoopSignal.no_progress;
  description = "retry";
}

abbrev progress_step : StepRecord
progress_step = record first_step { signal = LoopSignal.progress }

no_progress_streak_counts_example :
    (no_progress_streak (first_step ∷ first_step ∷ []) ≡ length (first_step ∷ first_step ∷ []))
    × (resets LoopSignal.progress ≡ true
        → no_progress_streak ((first_step ∷ progress_step ∷ []) ++ first_step ∷ first_step ∷ [])
          ≡ length (first_step ∷ first_step ∷ []))
no_progress_streak_counts_example =
    no_progress_streak_counts (first_step ∷ []) (first_step ∷ first_step ∷ []) progress_step
      (refl, (refl, tt))

abbrev calls : List StepCall
calls =
    record { token_delta = 30; signal = LoopSignal.no_progress; description = "a" }
    ∷ record { token_delta = 200; signal = LoopSignal.progress; description = "b" }
    ∷ []

run_all-create_context-IsValid_example :
    HasValid 1 (run_all 1 calls (create_context 1 "hr" empty).0)
run_all-create_context-IsValid_example = run_all-create_context-IsValid 1 "hr" calls empty

no_steps : no_progress_streak [] ≡ 0
unfolding no_progress_streak
no_steps = refl

run_idle-raises_example : (err : Error) × ((run_idle 1 (5 ∷ 6 ∷ []) detector).1 ≡ raised err)
run_idle-raises_example = run_idle-raises 1 5 (6 ∷ []) detector known (omega (arith, no_steps))

abbrev restarted : LoopDetector
restarted = record empty { contexts = [] }

restore-checkpoint_example :
    let (d3, r) = restore (checkpoint_of context) restarted in
    (checkpoint 1 detector ≡ returned (checkpoint_of context))
    × (r ≡ returned context)
    × (get d3.contexts 1 ≡ some context)
    × ((record_step 1 30 LoopSignal.no_progress "retry" d3).1
        ≡ (record_step 1 30 LoopSignal.no_progress "retry" detector).1)
restore-checkpoint_example =
    restore-checkpoint 1 30 LoopSignal.no_progress "retry" detector restarted known refl refl refl
