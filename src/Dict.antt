-- ===== src/Dict.antt =====
-- Python's `dict`: the entries in insertion order, keys compared by `==`.
use aegis_os.Prelude.{
  ◌≡◌, ◌≢◌, ◌∙◌, ap, refl, Bool, Bool-cases, inl, inr, true, false, Option, none, some, List, [],
  ◌∷◌, arith, Eq, ◌==◌, ==_refl, contains, if◌then◌else◌,
}

abbrev pub Dict {ℓ κ} : Type ℓ → Type κ → Type (ℓ ⊔ κ)
Dict K V = List (K × V)

module _ {ℓ κ} {K : Type ℓ} {V : Type κ} ⦃e : Eq K⦄ where
  -- `d.get(k)`
  unfoldable pub get : Dict K V → K → Option V
  get [] k = none
  get ((j, v) ∷ d) k = if j == k then some v else get d k

  -- `d[k] = v`: a present key keeps its place.
  unfoldable pub put : Dict K V → K → V → Dict K V
  put [] k v = (k, v) ∷ []
  put ((j, w) ∷ d) k v = if j == k then (j, v) ∷ d else (j, w) ∷ put d k v

  -- `d.pop(k, None)`
  unfoldable pub remove : Dict K V → K → Dict K V
  remove [] k = []
  remove ((j, v) ∷ d) k = let rest = remove d k in if j == k then rest else (j, v) ∷ rest

  -- `list(d)`
  keys : Dict K V → List K
  keys [] = []
  keys ((j, v) ∷ d) = j ∷ keys d

  pub get-empty : (k : K) → get [] k ≡ none
  unfolding get
  get-empty k = refl

  pub get-put :
      (d : Dict K V) (k j : K) (v : V) → get (put d k v) j ≡ (if k == j then some v else get d j)
  unfolding get put
  get-put [] k j v = refl
  get-put ((i, w) ∷ d) k j v =
      ground (arith, e.beq_iff i k, e.beq_iff i j, e.beq_iff k j, get-put d k j v)

  pub get-put_same : (d : Dict K V) (k : K) (v : V) → get (put d k v) k ≡ some v
  get-put_same d k v = get-put d k k v ∙ ap (λ b. if b then some v else get d k) (==_refl k)

  pub get-put_other : (d : Dict K V) (k j : K) (v : V) → k ≢ j → get (put d k v) j ≡ get d j
  get-put_other d k j v different = elim (Bool-cases (k == j)) [
    | inl same ↦ absurd (different ((e.beq_iff k j).0 same))
    | inr other ↦ get-put d k j v ∙ ap (λ b. if b then some v else get d j) other
  ]

  pub get-remove :
      (d : Dict K V) (k j : K) → get (remove d k) j ≡ (if k == j then none else get d j)
  unfolding get remove
  get-remove [] k j = ground arith
  get-remove ((i, w) ∷ d) k j =
      ground (arith, e.beq_iff i k, e.beq_iff i j, e.beq_iff k j, get-remove d k j)

  -- A value that is known to stand at `k`, in the form that the laws have.
  pub get_known :
      (d : Dict K V) (k j : K) {v : V}
      → get d k ≡ some v
      → get d j ≡ (if k == j then some v else get d j)
  get_known d k j h = elim (Bool-cases (k == j)) [
    | inl same ↦ rw (same, ← (e.beq_iff k j).0 same) h
    | inr other ↦ rw other
  ]

-- `k in d`
abbrev pub is_some {ℓ} : {A : Type ℓ} → Option A → Bool
is_some none = false
is_some (some a) = true

-- The test of a value that may be absent.
abbrev pub holds {ℓ} : {A : Type ℓ} → (A → Bool) → Option A → Bool
holds p none = false
holds p (some a) = p a

module _ {ℓ κ} {K : Type ℓ} {V : Type κ} ⦃e : Eq K⦄ where
  -- `[k for k, v in d.items() if p(v)]`
  keys_where : (V → Bool) → Dict K V → List K → List K
  keys_where p d [] = []
  keys_where p d (k ∷ ks) =
      let rest = keys_where p d ks in if holds p (get d k) then k ∷ rest else rest

  -- `for k in ks: d.pop(k, None)`
  unfoldable pub remove_all : Dict K V → List K → Dict K V
  remove_all d [] = d
  remove_all d (k ∷ ks) = remove_all (remove d k) ks

  -- Collect the keys whose value passes the test, then drop them.
  unfoldable pub purge : (V → Bool) → Dict K V → Dict K V
  unfolding keys_where remove_all keys
  purge p d = remove_all d (keys_where p d (keys d))

  pub get-remove_all :
      (ks : List K) (d : Dict K V) (k : K)
      → get (remove_all d ks) k ≡ (if contains ks k then none else get d k)
  unfolding remove_all contains
  get-remove_all [] d k = refl
  get-remove_all (j ∷ js) d k = ground (arith, get-remove_all js (remove d j) k, get-remove d j k)

  contains-keys_where :
      (p : V → Bool) (d : Dict K V) (ks : List K) (k : K)
      → contains (keys_where p d ks) k ≡ (if holds p (get d k) then contains ks k else false)
  unfolding contains keys_where
  contains-keys_where p d [] k = ground arith
  contains-keys_where p d (j ∷ js) k = elim (Bool-cases (j == k)) [
    | inl same ↦
        rw ((e.beq_iff j k).0 same) (ground (arith, ==_refl k, contains-keys_where p d js k))
    | inr other ↦ ground (arith, contains-keys_where p d js k)
  ]

  contains-keys : (d : Dict K V) (k : K) → contains (keys d) k ≡ is_some (get d k)
  unfolding contains keys get
  contains-keys [] k = refl
  contains-keys ((j, v) ∷ d) k = ground (arith, contains-keys d k)

  pub get-purge :
      (p : V → Bool) (d : Dict K V) (k : K)
      → get (purge p d) k ≡ (if holds p (get d k) then none else get d k)
  unfolding purge
  get-purge p d k = ground (
    arith,
    get-remove_all (keys_where p d (keys d)) d k,
    contains-keys_where p d (keys d) k,
    contains-keys d k,
  )

pub ruleset dict_laws = (get-put, get-remove, get-purge)
