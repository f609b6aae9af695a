-- ===== src/Watchdog/Loop/Steps.antt =====
-- `record_step` on every path, the invariant of the contexts, and the bound on a run of steps that
-- make no progress.
use aegis_os.Prelude.{
  ℕ, ◌+◌, ◌<◌, String, ◌≡◌, Bool, true, false, ◌||◌, some, [], ◌∷◌, ◌++◌, ◌==◌, length, arith, ltb,
  leb, if◌then◌else◌, nat_eq, Bool-cases, inl, inr,
}
use aegis_os.Dict.{get, get-put}
use aegis_os.Watchdog.Loop.{
  LoopSignal, ExecutionContext, LoopDetector, Call, Result, returned, raised, token_velocity,
  pending_approval, loop_detected, no_progress_streak, with_step, is_human_required, check_step,
  step_in, record_step,
}

-- Did a breaker trip, and was the step held for a human?
abbrev pub is_tripped : {A : Type 0} → Result A → Bool
is_tripped (raised (token_velocity step delta max)) = true
is_tripped (raised (loop_detected streak max)) = true
is_tripped _ = false

abbrev pub is_held : {A : Type 0} → Result A → Bool
is_held (raised (pending_approval step)) = true
is_held _ = false

module _ (k step delta : ℕ) (signal : LoopSignal) (ctx : ExecutionContext) (d : LoopDetector) where
  -- The context as the call leaves it.
  abbrev flagged : {A : Type 0} → Result A → ExecutionContext
  flagged r = record ctx {
    loop_detected = is_tripped r || ctx.loop_detected;
    intervention_required = is_held r || ctx.intervention_required;
  }

  abbrev Leaves : ℕ → Call ExecutionContext → Type 0
  Leaves j (d', r) = get d'.contexts j ≡ (if k == j then some (flagged r) else get d.contexts j)

  check_step-Leaves : (j : ℕ) → Leaves j (check_step k step delta signal ctx d)
  check_step-Leaves j = elim (Bool-cases (ltb d.max_token_velocity delta)) [
    | inl fast ↦ rw fast (get-put d.contexts k j _)
    | inr slow ↦ elim (Bool-cases (is_human_required signal)) [
      | inl human ↦ rw (slow, human) (get-put d.contexts k j _)
      | inr other ↦ elim (Bool-cases (leb d.max_agent_steps (no_progress_streak ctx.steps))) [
        | inl stuck ↦ rw (slow, other, stuck) (get-put d.contexts k j _)
        | inr moving ↦ rw (slow, other, moving) (get-put d.contexts k j _)
      ]
    ]
  ]

check_step-returned :
    (k step delta : ℕ) (signal : LoopSignal) (ctx : ExecutionContext) (d : LoopDetector)
    {ctx' : ExecutionContext}
    → (check_step k step delta signal ctx d).1 ≡ returned ctx'
    → no_progress_streak ctx.steps < d.max_agent_steps
check_step-returned k step delta signal ctx d went = ground arith

module _ (k delta : ℕ) (signal : LoopSignal) (description : String) (d : LoopDetector)
    {ctx : ExecutionContext} (found : get d.contexts k ≡ some ctx) where
  pub record_step-found :
      record_step k delta signal description d
      ≡ check_step k (length ctx.steps + 1) delta signal (with_step delta signal description ctx) d
  unfolding record_step
  record_step-found = rw (found, step_in)

  -- Whatever is returned, the streak is below the maximum.
  pub record_step-returned :
      {ctx' : ExecutionContext}
      → (record_step k delta signal description d).1 ≡ returned ctx'
      → no_progress_streak (with_step delta signal description ctx).steps < d.max_agent_steps
  record_step-returned went =
      check_step-returned k (length ctx.steps + 1) delta signal
        (with_step delta signal description ctx) d (rw record_step-found at went)

pub record_step_effects :
    (k j delta : ℕ) (signal : LoopSignal) (description : String) (d : LoopDetector)
    {ctx : ExecutionContext}
    → get d.contexts k ≡ some ctx
    → let (d', r) = record_step k delta signal description d in
      get d'.contexts j ≡ (
        if k == j
        then some (record ctx {
          steps =
              ctx.steps
              ++ record {
                step_number = length ctx.steps + 1;
                token_delta = delta;
                signal = signal;
                description = description;
              }
                ∷ [];
          total_tokens = ctx.total_tokens + delta;
          loop_detected = is_tripped r || ctx.loop_detected;
          intervention_required = is_held r || ctx.intervention_required;
        })
        else get d.contexts j)
record_step_effects k j delta signal description d {ctx} found =
    rw (record_step-found k delta signal description d found) (
      check_step-Leaves k (length ctx.steps + 1) delta signal
        (with_step delta signal description ctx) d j)
