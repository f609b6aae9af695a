-- ===== src/Watchdog/Loop/Runs.antt =====
-- Runs of steps: the invariant of a context, and the bound on steps that make no progress.

use aegis_os.Prelude.{
  ℕ, suc, ◌+◌, ◌≤◌, ◌<◌, String, ◌≡◌, ◌≢◌, refl, ap, ◌∙◌, subst, Option, none, some, List, [], ◌∷◌,
  ◌++◌, length, arith, nat_eq, if_true, ==_refl,
}
use aegis_os.Dict.{get, get-put}
use aegis_os.Watchdog.Loop.{
  LoopSignal, StepRecord, ExecutionContext, LoopDetector, Call, Result, Error, returned, raised,
  step_in, check_step, no_progress_streak, with_step, record_step, create_context, new_context,
}
use aegis_os.Watchdog.Loop.Streak.{no_progress_streak-append}
use aegis_os.Watchdog.Loop.Steps.{record_step_effects, record_step-returned}

-- One call of the agent loop.
pub record StepCall : Type 0 where
  pub token_delta : ℕ
  pub signal : LoopSignal
  pub description : String

-- All the calls for one session are made, also after a raise.
pub run_all : ℕ → List StepCall → LoopDetector → LoopDetector
run_all k [] d = d
run_all k (c ∷ cs) d = run_all k cs (record_step k c.token_delta c.signal c.description d).0

-- The steps are numbered from `n` on.
abbrev pub NumberedFrom : ℕ → List StepRecord → Type 0
NumberedFrom n [] = Unit {0}
NumberedFrom n (step ∷ steps) = (step.step_number ≡ n) × NumberedFrom (suc n) steps

abbrev pub sum_tokens : List StepRecord → ℕ
sum_tokens [] = 0
sum_tokens (step ∷ steps) = step.token_delta + sum_tokens steps

-- The number of a step is its place, and the total is the sum of the tokens of all steps.
pub record IsValid (ctx : ExecutionContext) : Type 0 where
  pub numbered : NumberedFrom 1 ctx.steps
  pub total : ctx.total_tokens ≡ sum_tokens ctx.steps

NumberedFrom-append :
    (n : ℕ) (steps : List StepRecord) (step : StepRecord)
    → NumberedFrom n steps
    → step.step_number ≡ length steps + n
    → NumberedFrom n (steps ++ step ∷ [])
NumberedFrom-append n [] step h e = (omega arith, tt)
NumberedFrom-append n (s ∷ steps) step h e =
    (h.0, NumberedFrom-append (suc n) steps step h.1 (omega arith))

sum_tokens-append :
    (steps : List StepRecord) (step : StepRecord)
    → sum_tokens (steps ++ step ∷ []) ≡ sum_tokens steps + step.token_delta
sum_tokens-append [] step = omega arith
sum_tokens-append (s ∷ steps) step = omega (arith, sum_tokens-append steps step)

with_step-IsValid :
    (delta : ℕ) (signal : LoopSignal) (description : String) (ctx : ExecutionContext)
    → IsValid ctx
    → IsValid (with_step delta signal description ctx)
with_step-IsValid delta signal description ctx h = record {
  numbered = NumberedFrom-append 1 ctx.steps _ h.numbered refl;
  total = omega (arith, h.total, sum_tokens-append ctx.steps);
}

-- A known context that is valid.
abbrev pub HasValid : ℕ → LoopDetector → Type 0
HasValid k d = (ctx : ExecutionContext) × (get d.contexts k ≡ some ctx) × IsValid ctx

step-HasValid :
    (k : ℕ) (c : StepCall) (d : LoopDetector)
    → HasValid k d
    → HasValid k (record_step k c.token_delta c.signal c.description d).0
step-HasValid k c d (ctx, found, h) =
    let v = with_step-IsValid c.token_delta c.signal c.description ctx h in
    (
      _,
      record_step_effects k k c.token_delta c.signal c.description d found
          ∙ if_true _ (get d.contexts k) (==_refl k),
      record { numbered = v.numbered; total = v.total },
    )

run_all-HasValid :
    (k : ℕ) (cs : List StepCall) (d : LoopDetector) → HasValid k d → HasValid k (run_all k cs d)
unfolding run_all
run_all-HasValid k [] d h = h
run_all-HasValid k (c ∷ cs) d h =
    run_all-HasValid k cs (record_step k c.token_delta c.signal c.description d).0
      (step-HasValid k c d h)

-- From the creation of a context on, whatever steps are recorded, with raises between them: its
-- steps are numbered 1, 2, 3, … without a gap, and its total is the sum of their tokens.
pub run_all-create_context-IsValid :
    (k : ℕ) (agent_type : String) (cs : List StepCall) (d : LoopDetector)
    → HasValid k (run_all k cs (create_context k agent_type d).0)
unfolding create_context
run_all-create_context-IsValid k agent_type cs d = run_all-HasValid k cs _ (
  new_context k agent_type,
  get-put d.contexts k k (new_context k agent_type) ∙ if_true _ _ (==_refl k),
  record { numbered = tt; total = refl },
)

abbrev and_then : {A B : Type 0} → Call A → (LoopDetector → Call B) → Call B
and_then (d, returned a) f = f d
and_then (d, raised err) f = (d, raised err)

-- Steps without progress, until one raises.
pub run_idle : ℕ → List ℕ → LoopDetector → Call (Unit {0})
run_idle k [] d = (d, returned tt)
run_idle k (delta ∷ deltas) d =
    and_then (record_step k delta LoopSignal.no_progress "" d) (run_idle k deltas)

check_step-max :
    (k step delta : ℕ) (signal : LoopSignal) (ctx : ExecutionContext) (d : LoopDetector)
    → (check_step k step delta signal ctx d).0.max_agent_steps ≡ d.max_agent_steps
check_step-max k step delta signal ctx d = ground arith

step_in-max :
    (o : Option ExecutionContext) (k delta : ℕ) (signal : LoopSignal) (description : String)
    (d : LoopDetector)
    → (step_in o k delta signal description d).0.max_agent_steps ≡ d.max_agent_steps
step_in-max none k delta signal description d = refl
step_in-max (some ctx) k delta signal description d =
    check_step-max k (length ctx.steps + 1) delta signal (with_step delta signal description ctx) d

pub record_step-max :
    (k delta : ℕ) (signal : LoopSignal) (description : String) (d : LoopDetector)
    → (record_step k delta signal description d).0.max_agent_steps ≡ d.max_agent_steps
unfolding record_step
record_step-max k delta signal description d =
    step_in-max (get d.contexts k) k delta signal description d

-- The steps and the streak of the context under a key.
abbrev HasStreak : ℕ → ℕ → LoopDetector → Type 0
HasStreak k n d =
    (ctx : ExecutionContext) × (get d.contexts k ≡ some ctx) × (no_progress_streak ctx.steps ≡ n)

idle_step :
    (k n delta : ℕ) (d : LoopDetector) {ctx' : ExecutionContext}
    → HasStreak k n d
    → (record_step k delta LoopSignal.no_progress "" d).1 ≡ returned ctx'
    → HasStreak k (suc n) (record_step k delta LoopSignal.no_progress "" d).0
      × (suc n < d.max_agent_steps)
idle_step k n delta d (ctx, found, streak) went =
    let d' = (record_step k delta LoopSignal.no_progress "" d).0 in
    let longer : no_progress_streak (with_step delta LoopSignal.no_progress "" ctx).steps ≡ suc n =
      no_progress_streak-append ctx.steps _ ∙ ap suc streak in
    (
      (
        _,
        record_step_effects k k delta LoopSignal.no_progress "" d found
            ∙ if_true _ (get d.contexts k) (==_refl k),
        longer,
      ),
      subst (λ m. m < d.max_agent_steps) longer
          (record_step-returned k delta LoopSignal.no_progress "" d found went),
    )

and_then-returned :
    {A B : Type 0} (r : Call A) (f : LoopDetector → Call B) {b : B}
    → (and_then r f).1 ≡ returned b
    → (a : A) × (r.1 ≡ returned a) × ((f r.0).1 ≡ returned b)
and_then-returned (d, returned a) f h = (a, refl, h)
and_then-returned (d, raised err) f h = cc

idle-bound :
    (k n delta : ℕ) (deltas : List ℕ) (d : LoopDetector)
    → HasStreak k n d
    → (run_idle k (delta ∷ deltas) d).1 ≡ returned tt
    → suc (length deltas) + n < d.max_agent_steps
unfolding run_idle
idle-bound k n delta [] d h went =
    let (ctx', stepped, _) =
      and_then-returned (record_step k delta LoopSignal.no_progress "" d) (run_idle k []) went in
    omega (arith, (idle_step k n delta d h stepped).1)
idle-bound k n delta (next ∷ deltas) d h went =
    let d' = (record_step k delta LoopSignal.no_progress "" d).0 in
    let (ctx', stepped, rest) =
      and_then-returned (record_step k delta LoopSignal.no_progress "" d)
        (run_idle k (next ∷ deltas)) went in
    omega (
      arith,
      idle-bound k (suc n) next deltas d' (idle_step k n delta d h stepped).0 rest,
      record_step-max k delta LoopSignal.no_progress "" d,
    )

unit_result : {r : Result (Unit {0})} (u : Unit {0}) → r ≡ returned u → r ≡ returned tt
unit_result tt h = h

raises : {A : Type 0} (r : Result A) → ((a : A) → r ≢ returned a) → (err : Error) × (r ≡ raised err)
raises (returned a) h = absurd (h a refl)
raises (raised err) h = (err, refl)

-- The breaker always trips: from a context whose streak is `n`, a run of steps without progress
-- that brings the streak to the maximum, or past it, raises at one of its steps, whatever tokens
-- they use.
pub run_idle-raises :
    (k delta : ℕ) (deltas : List ℕ) (d : LoopDetector) {ctx : ExecutionContext}
    → get d.contexts k ≡ some ctx
    → d.max_agent_steps ≤ no_progress_streak ctx.steps + length (delta ∷ deltas)
    → (err : Error) × ((run_idle k (delta ∷ deltas) d).1 ≡ raised err)
run_idle-raises k delta deltas d {ctx} found enough =
    raises (run_idle k (delta ∷ deltas) d).1 (λ u went. absurd (
      omega (
        arith,
        idle-bound k (no_progress_streak ctx.steps) delta deltas d (ctx, found, refl)
            (unit_result u went),
      )))
