-- ===== src/Watchdog/Loop/Streak.antt =====
-- The streak of trailing steps without progress, and the bound that it puts on a run.
use mathlib.Core.List.{reverse-append, append-nil, append_assoc}
use aegis_os.Prelude.{
  suc, ◌+◌, ◌≡◌, sym, ap, ◌∙◌, true, false, List, [], ◌∷◌, ◌++◌, length, arith, if◌then◌else◌,
}
use aegis_os.Watchdog.Loop.{StepRecord, resets, no_progress_streak}

-- A step adds one to the streak, or resets it.
pub no_progress_streak-append :
    (steps : List StepRecord) (step : StepRecord)
    → no_progress_streak (steps ++ step ∷ [])
      ≡ (if resets step.signal then 0 else suc (no_progress_streak steps))
unfolding no_progress_streak
no_progress_streak-append steps step = rw reverse-append

-- No step of a list makes progress or asks for a human.
abbrev pub AllNoProgress : List StepRecord → Type 0
AllNoProgress [] = Unit {0}
AllNoProgress (step ∷ steps) = (resets step.signal ≡ false) × AllNoProgress steps

-- Steps without progress at the end add their number to the streak.
pub no_progress_streak-append_all :
    (before tail : List StepRecord)
    → AllNoProgress tail
    → no_progress_streak (before ++ tail) ≡ no_progress_streak before + length tail
no_progress_streak-append_all before [] h = rw append-nil (omega arith)
no_progress_streak-append_all before (step ∷ tail) h =
    ap no_progress_streak (sym (append_assoc before (step ∷ []) tail))
    ∙ no_progress_streak-append_all (before ++ step ∷ []) tail h.1
    ∙ rw (no_progress_streak-append, h.0) (omega arith)

-- The streak is the number of the steps after the last one that made progress or asked for a
-- human, and the number of all the steps if there is no such step.
pub no_progress_streak_counts :
    (first tail : List StepRecord) (last : StepRecord)
    → AllNoProgress tail
    → (no_progress_streak tail ≡ length tail)
      × (resets last.signal ≡ true
          → no_progress_streak ((first ++ last ∷ []) ++ tail) ≡ length tail)
no_progress_streak_counts first tail last h = (
  no_progress_streak-append_all [] tail h ∙ (unfold no_progress_streak in omega arith),
  λ reset.
      no_progress_streak-append_all (first ++ last ∷ []) tail h
      ∙ rw (no_progress_streak-append, reset) (omega arith),
)
