-- ===== src/Watchdog/Loop/Checkpoint.antt =====
-- Checkpoints: the round trip, and going on after it.
use mathlib.Core.List.{map}
use aegis_os.Prelude.{
  ℕ, String, ◌≡◌, refl, sym, subst, length, ◌+◌, ◌∙◌, Option, none, some, List, [], ◌∷◌, arith,
  nat_eq, if_true, ==_refl,
}
use aegis_os.Dict.{get, get-put}
use aegis_os.Watchdog.Loop.{
  LoopSignal, StepRecord, ExecutionContext, LoopDetector, returned, signal_value, signal_of,
  step_snapshot, checkpoint_of, read_steps, checkpoint, checkpoint_in, with_step, restore,
  record_step, step_in, check_step, store,
}

-- The text of a signal reads back.
signal_of-signal_value : (s : LoopSignal) → signal_of (signal_value s) ≡ some s
signal_of-signal_value LoopSignal.progress = refl
signal_of-signal_value LoopSignal.no_progress = refl
signal_of-signal_value LoopSignal.human_required = refl

read_steps-map : (steps : List StepRecord) → read_steps (map step_snapshot steps) ≡ some steps
unfolding read_steps
read_steps-map [] = refl
read_steps-map (step ∷ steps) = rw (signal_of-signal_value, read_steps-map steps)

checkpoint-found :
    (k : ℕ) (d : LoopDetector) {ctx : ExecutionContext}
    → get d.contexts k ≡ some ctx
    → checkpoint k d ≡ returned (checkpoint_of ctx)
unfolding checkpoint
checkpoint-found k d found = rw (found, checkpoint_in)

pub restore-checkpoint_of :
    (d : LoopDetector) (ctx : ExecutionContext)
    → restore (checkpoint_of ctx) d ≡ (store ctx.session_id ctx d, returned ctx)
unfolding restore
restore-checkpoint_of d ctx = rw read_steps-map

check_step-limits :
    (k step delta : ℕ) (signal : LoopSignal) (ctx : ExecutionContext) (a b : LoopDetector)
    → a.max_agent_steps ≡ b.max_agent_steps
    → a.max_token_velocity ≡ b.max_token_velocity
    → (check_step k step delta signal ctx a).1 ≡ (check_step k step delta signal ctx b).1
check_step-limits k step delta signal ctx a b s v = ground arith

step_in-limits :
    (o : Option ExecutionContext) (k delta : ℕ) (signal : LoopSignal) (description : String)
    (a b : LoopDetector)
    → a.max_agent_steps ≡ b.max_agent_steps
    → a.max_token_velocity ≡ b.max_token_velocity
    → (step_in o k delta signal description a).1 ≡ (step_in o k delta signal description b).1
step_in-limits none k delta signal description a b s v = refl
step_in-limits (some ctx) k delta signal description a b s v =
    check_step-limits k (length ctx.steps + 1) delta signal (with_step delta signal description ctx)
      a b s v

-- Detectors with the same limits and the same context answer a step alike.
pub record_step-same :
    (k delta : ℕ) (signal : LoopSignal) (description : String) (a b : LoopDetector)
    → get a.contexts k ≡ get b.contexts k
    → a.max_agent_steps ≡ b.max_agent_steps
    → a.max_token_velocity ≡ b.max_token_velocity
    → (record_step k delta signal description a).1 ≡ (record_step k delta signal description b).1
unfolding record_step
record_step-same k delta signal description a b same s v =
    rw same (step_in-limits (get b.contexts k) k delta signal description a b s v)

-- A checkpoint that is restored into any detector, such as that of a restarted process, puts the
-- same context there, and the next step then has the same outcome as in the detector that it was
-- taken from, if both have the same limits.
pub restore-checkpoint :
    (k delta : ℕ) (signal : LoopSignal) (description : String) (d d2 : LoopDetector)
    {ctx : ExecutionContext}
    → get d.contexts k ≡ some ctx
    → ctx.session_id ≡ k
    → d2.max_agent_steps ≡ d.max_agent_steps
    → d2.max_token_velocity ≡ d.max_token_velocity
    → let (d3, r) = restore (checkpoint_of ctx) d2 in
      (checkpoint k d ≡ returned (checkpoint_of ctx))
      × (r ≡ returned ctx)
      × (get d3.contexts k ≡ some ctx)
      × ((record_step k delta signal description d3).1
          ≡ (record_step k delta signal description d).1)
restore-checkpoint k delta signal description d d2 {ctx} found own s v =
    let d3 = store ctx.session_id ctx d2 in
    let kept : get d3.contexts k ≡ some ctx =
      subst (λ j. get d3.contexts j ≡ some ctx) own
        (get-put d2.contexts ctx.session_id ctx.session_id ctx
          ∙ if_true _ (get d2.contexts ctx.session_id) (==_refl ctx.session_id)) in
    rw restore-checkpoint_of (
      checkpoint-found k d found,
      refl,
      kept,
      record_step-same k delta signal description d3 d (kept ∙ sym found) s v,
    )
