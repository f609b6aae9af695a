-- ===== src/ControlPlane/Steps.antt =====
-- A step that changes a state of type `S` and returns a value or raises an error of type `E`, the
-- rules for what a step leaves alone, and for what holds of the value that it returns.
use aegis_os.Prelude.{◌≡◌, refl, ◌∙◌, subst, Bool, true, false, if◌then◌else◌}

pub data Result (E A : Type 0) : Type 0 where
  returned : A → Result E A
  raised : E → Result E A

abbrev pub Step : Type 0 → Type 0 → Type 0 → Type 0
Step S E A = S → S × Result E A

module _ {S E : Type 0} where
  -- What follows a call that has returned, and what follows one that has raised.
  unfoldable pub continue : {A B : Type 0} → (A → Step S E B) → S × Result E A → S × Result E B
  continue f (st, returned a) = f a st
  continue f (st, raised err) = (st, raised err)

  unfoldable pub recover : {A : Type 0} → (E → Step S E A) → S × Result E A → S × Result E A
  recover f (st, returned a) = (st, returned a)
  recover f (st, raised err) = f err st

  infixl 5 ◌>>=◌ ◌>>◌
  unfoldable pub ◌>>=◌ : {A B : Type 0} → Step S E A → (A → Step S E B) → Step S E B
  unfolding continue
  ◌>>=◌ m f st = continue f (m st)

  unfoldable pub ◌>>◌ : {A : Type 0} → Step S E (Unit {0}) → Step S E A → Step S E A
  m >> k = m >>= λ done. k

  abbrev pub pure : {A : Type 0} → A → Step S E A
  pure a st = (st, returned a)

  abbrev pub raise : {A : Type 0} → E → Step S E A
  raise err st = (st, raised err)

  -- `try: … except …`
  unfoldable pub handle : {A : Type 0} → Step S E A → (E → Step S E A) → Step S E A
  unfolding recover
  handle m f st = recover f (m st)

  -- A step that leaves a part of the state as it was, whether it returns or raises.
  pub record Keeps {X A : Type 0} (F : S → X) (m : Step S E A) : Type 0 where
    pub kept : (st : S) → F (m st).0 ≡ F st

  -- What holds of the value of a call, if it returns.
  abbrev pub Returned : {A : Type 0} → (A → Type 0) → S × Result E A → Type 0
  Returned P (st, returned a) = P a
  Returned P (st, raised err) = Unit {0}

  pub record Ensures {A : Type 0} (P : A → Type 0) (m : Step S E A) : Type 0 where
    pub at : (st : S) → Returned (λ a. P a) (m st)

  module _ {X : Type 0} {F : S → X} where
    pub Keeps-pure : {A : Type 0} (a : A) → Keeps F (pure a)
    Keeps-pure a = record { kept = λ st. refl }

    pub Keeps-raise : {A : Type 0} (err : E) → Keeps {A = A} F (raise err)
    Keeps-raise err = record { kept = λ st. refl }

    continue-kept :
        {A B : Type 0} (f : A → Step S E B) (c : S × Result E A)
        → ((a : A) → Keeps F (f a))
        → F (continue f c).0 ≡ F c.0
    unfolding continue
    continue-kept f (st, returned a) h = (h a).kept st
    continue-kept f (st, raised err) h = refl

    recover-kept :
        {A : Type 0} (f : E → Step S E A) (c : S × Result E A)
        → ((err : E) → Keeps F (f err))
        → F (recover f c).0 ≡ F c.0
    unfolding recover
    recover-kept f (st, returned a) h = refl
    recover-kept f (st, raised err) h = (h err).kept st

    pub Keeps->>= :
        {A B : Type 0} {m : Step S E A} {f : A → Step S E B}
        → Keeps F m
        → ((a : A) → Keeps F (f a))
        → Keeps F (m >>= f)
    unfolding ◌>>=◌
    Keeps->>= {m} {f} h k = record { kept = λ st. continue-kept f (m st) k ∙ h.kept st }

    pub Keeps->> :
        {A : Type 0} {m : Step S E (Unit {0})} {k : Step S E A}
        → Keeps F m
        → Keeps F k
        → Keeps F (m >> k)
    unfolding ◌>>◌
    Keeps->> h l = Keeps->>= h (λ done. l)

    pub Keeps-handle :
        {A : Type 0} {m : Step S E A} {f : E → Step S E A}
        → Keeps F m
        → ((err : E) → Keeps F (f err))
        → Keeps F (handle m f)
    unfolding handle
    Keeps-handle {m} {f} h k = record { kept = λ st. recover-kept f (m st) k ∙ h.kept st }

    pub Keeps-if :
        {A : Type 0} (test : Bool) {m k : Step S E A}
        → Keeps F m
        → Keeps F k
        → Keeps F (if test then m else k)
    Keeps-if true h l = h
    Keeps-if false h l = l

  pub Returned-Unit : {A : Type 0} (c : S × Result E A) → Returned (λ a. Unit {0}) c
  Returned-Unit (st, returned a) = tt
  Returned-Unit (st, raised err) = tt

  pub Ensures-Unit : {A : Type 0} (m : Step S E A) → Ensures (λ a. Unit {0}) m
  Ensures-Unit m = record { at = λ st. Returned-Unit (m st) }

  module _ {A : Type 0} {P : A → Type 0} where
    pub Ensures-pure : {a : A} → P a → Ensures P (pure a)
    Ensures-pure h = record { at = λ st. h }

    pub Ensures-raise : (err : E) → Ensures P (raise err)
    Ensures-raise err = record { at = λ st. tt }

    continue-Returned :
        {B : Type 0} {Q : B → Type 0} (f : B → Step S E A) (c : S × Result E B)
        → Returned (λ b. Q b) c
        → ((b : B) → Q b → Ensures P (f b))
        → Returned (λ a. P a) (continue f c)
    unfolding continue
    continue-Returned f (st, returned b) h k = (k b h).at st
    continue-Returned f (st, raised err) h k = tt

    pub Ensures->>= :
        {B : Type 0} {Q : B → Type 0} {m : Step S E B} {f : B → Step S E A}
        → Ensures Q m
        → ((b : B) → Q b → Ensures P (f b))
        → Ensures P (m >>= f)
    unfolding ◌>>=◌
    Ensures->>= {m} {f} h k = record { at = λ st. continue-Returned f (m st) (h.at st) k }

    -- A step of which nothing is known.
    pub Ensures-then :
        {B : Type 0} (m : Step S E B) {f : B → Step S E A}
        → ((b : B) → Ensures P (f b))
        → Ensures P (m >>= f)
    Ensures-then m k = Ensures->>= (Ensures-Unit m) (λ b h. k b)

    pub Ensures->> : (m : Step S E (Unit {0})) {k : Step S E A} → Ensures P k → Ensures P (m >> k)
    unfolding ◌>>◌
    Ensures->> m h = Ensures-then m (λ done. h)

    -- The same where the first step has no value.
    pub Ensures-after :
        {C : Type 0} {m : Step S E (Unit {0})} {k : Step S E A}
        → Ensures (λ done. C) m
        → (C → Ensures P k)
        → Ensures P (m >> k)
    unfolding ◌>>◌
    Ensures-after h k = Ensures->>= h (λ done c. k c)

    Returned-map :
        {Q : A → Type 0} (c : S × Result E A)
        → ((a : A) → Q a → P a)
        → Returned (λ a. Q a) c
        → Returned (λ a. P a) c
    Returned-map (st, returned a) f h = f a h
    Returned-map (st, raised err) f h = tt

    pub Ensures-map :
        {Q : A → Type 0} {m : Step S E A} → Ensures Q m → ((a : A) → Q a → P a) → Ensures P m
    Ensures-map {m} h f = record { at = λ st. Returned-map (m st) f (h.at st) }

    recover-Returned :
        (f : E → Step S E A) (c : S × Result E A)
        → Returned (λ a. P a) c
        → ((err : E) → Ensures P (f err))
        → Returned (λ a. P a) (recover f c)
    unfolding recover
    recover-Returned f (st, returned a) h k = h
    recover-Returned f (st, raised err) h k = (k err).at st

    pub Ensures-handle :
        {m : Step S E A} {f : E → Step S E A}
        → Ensures P m
        → ((err : E) → Ensures P (f err))
        → Ensures P (handle m f)
    unfolding handle
    Ensures-handle {m} {f} h k = record { at = λ st. recover-Returned f (m st) (h.at st) k }

    pub Ensures-if :
        (test : Bool) {m k : Step S E A}
        → (test ≡ true → Ensures P m)
        → (test ≡ false → Ensures P k)
        → Ensures P (if test then m else k)
    Ensures-if true h l = h refl
    Ensures-if false h l = l refl

    -- A call that has returned is as the rules say.
    pub Ensures-returned :
        {m : Step S E A} → Ensures P m → (st : S) {st' : S} {a : A} → m st ≡ (st', returned a) → P a
    Ensures-returned h st went = subst (Returned (λ a. P a)) went (h.at st)
