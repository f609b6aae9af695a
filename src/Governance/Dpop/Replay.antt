-- ===== src/Governance/Dpop/Replay.antt =====
-- src/governance/session_mgr.py: a proof of possession is taken once, and a bound token needs one.
use aegis_os.Prelude.{
  ℕ, ◌+◌, ◌≤◌, ◌<◌, String, ◌≡◌, ◌≢◌, refl, ap, subst, ◌∙◌, Bool, Bool-cases, inl, inr, true, false,
  some, List, [], ◌∷◌, arith, ◌==◌, ==_refl, eq_iff, string_eq,
}
use aegis_os.Dict.{get}
use aegis_os.Governance.ReplayStore.{micros, Entries, register_if_unused, register_if_unused_lem}
use aegis_os.Governance.Session.{
  Settings, Result, returned, raised, bind, SessionManager, Call, dpop_replay,
}
use aegis_os.Governance.Dpop.{
  Proofs, DPoPProofClaims, Request, outside_window, first_failed, claim_tests, check_claims,
  fresh_or_replay, register, decoded_proof, validate_dpop_proof,
}

-- The outcome of a registration.
registered : DPoPProofClaims → Bool → Result DPoPProofClaims
registered c true = returned c
registered c false = raised (dpop_replay c.jti)

fresh-outcome :
    (c : DPoPProofClaims) (m : SessionManager) (x : Entries × Bool)
    → ((fresh_or_replay c m x).0.replay_store ≡ x.0)
      × ((fresh_or_replay c m x).1 ≡ registered c x.1)
unfolding fresh_or_replay registered
fresh-outcome c m (entries, true) = (refl, refl)
fresh-outcome c m (entries, false) = (refl, refl)

NoneStands : List (Bool × String) → Type 0
NoneStands [] = Unit {0}
NoneStands ((test, message) ∷ tests) = (test ≡ false) × NoneStands tests

first_failed-returned :
    {A : Type 0} (tests : List (Bool × String)) (a : A) {b : A}
    → first_failed tests a ≡ returned b
    → NoneStands tests × (a ≡ b)
unfolding first_failed NoneStands
first_failed-returned [] a h = (tt, cc (h))
first_failed-returned ((test, message) ∷ tests) a h = elim (Bool-cases test) [
  | inl stands ↦ cc (rw stands at h)
  | inr passes ↦
      let (none_stands, same) = first_failed-returned tests a (rw passes at h) in
      ((passes, none_stands), same)
]

-- A registration that succeeds was of a fresh id.
outcome-returned :
    (b : DPoPProofClaims) (m : SessionManager) (x : Entries × Bool) {c : DPoPProofClaims}
    → (fresh_or_replay b m x).1 ≡ returned c
    → (b ≡ c) × (x.1 ≡ true)
unfolding fresh_or_replay
outcome-returned b m (entries, true) same = (cc (same), refl)
outcome-returned b m (entries, false) same = cc (same)

-- The presentation of a proof, with what it reads off the clocks.
pub record Presentation (Token : Type 0) : Type 0 where
  pub proof : String
  pub request : Request Token
  pub now : ℕ
  pub decoded_at : ℕ
  pub registered_at : ℕ

module _ {Token : Type 0} (proofs : Proofs Token) (settings : Settings) where
  abbrev pub present : Presentation Token → SessionManager → Call DPoPProofClaims
  present p =
      validate_dpop_proof proofs settings p.proof p.request p.now p.decoded_at p.registered_at

  pub present_all : List (Presentation Token) → SessionManager → SessionManager
  present_all [] m = m
  present_all (p ∷ ps) m = present_all ps (present p m).0

  -- An entry that has not expired stays.
  register-keeps :
      (now : ℕ) (m : SessionManager) (r : Result DPoPProofClaims) (j : String) {until : ℕ}
      → get m.replay_store j ≡ some until
      → now < until
      → get (register settings now m r).0.replay_store j ≡ some until
  unfolding register
  register-keeps now m (raised err) j h later = h
  register-keeps now m (returned c) j {until} h later =
      let store' = register_if_unused c.jti settings.dpop_proof_ttl_seconds now m.replay_store in
      (ap (λ (x : Entries). get x j) (fresh-outcome c m store').0)
      ∙ elim (Bool-cases (c.jti == j)) [
        | inl same ↦ ground (
          arith,
          register_if_unused_lem c.jti j settings.dpop_proof_ttl_seconds now m.replay_store,
          h,
          later,
          same,
          eq_iff c.jti j,
        )
        | inr other ↦ ground (
          arith,
          register_if_unused_lem c.jti j settings.dpop_proof_ttl_seconds now m.replay_store,
          h,
          later,
          other,
        )
      ]

  -- and it refuses its id.
  register-refuses :
      (now : ℕ) (m : SessionManager) (r : Result DPoPProofClaims) (c : DPoPProofClaims) {until : ℕ}
      → get m.replay_store c.jti ≡ some until
      → now < until
      → (register settings now m r).1 ≢ returned c
  unfolding register registered
  register-refuses now m (raised err) c h later same = cc (same)
  register-refuses now m (returned b) c h later same =
      let (same_claims, fresh) =
        outcome-returned b m
          (register_if_unused b.jti settings.dpop_proof_ttl_seconds now m.replay_store) same in
      let idle =
        (register_if_unused_lem b.jti b.jti settings.dpop_proof_ttl_seconds now m.replay_store).0.0
          fresh in
      ground
        (arith, h, later, idle, ap (λ (a : DPoPProofClaims). get m.replay_store a.jti) same_claims)

  -- What a registration that succeeds leaves.
  register-enters :
      (now : ℕ) (m : SessionManager) (r : Result DPoPProofClaims) {c : DPoPProofClaims}
      → (register settings now m r).1 ≡ returned c
      → (r ≡ returned c)
        × (get (register settings now m r).0.replay_store c.jti
            ≡ some (now + micros settings.dpop_proof_ttl_seconds))
  unfolding register registered
  register-enters now m (raised err) {c} same = cc (same)
  register-enters now m (returned b) {c} same =
      let (same_claims, fresh) =
        outcome-returned b m
          (register_if_unused b.jti settings.dpop_proof_ttl_seconds now m.replay_store) same in
      (
        ap (λ a. returned a) same_claims,
        ap (λ (x : Entries). get x c.jti)
              (fresh-outcome b m
                (register_if_unused b.jti settings.dpop_proof_ttl_seconds now m.replay_store)).0
            ∙ ground (
              arith,
              register_if_unused_lem b.jti c.jti settings.dpop_proof_ttl_seconds now m.replay_store,
              fresh,
              ap (λ (a : DPoPProofClaims). a.jti) same_claims,
              ==_refl c.jti,
            ),
      )

  present-enters :
      (p : Presentation Token) (m : SessionManager) {c : DPoPProofClaims}
      → (present p m).1 ≡ returned c
      → get (present p m).0.replay_store c.jti
        ≡ some (p.registered_at + micros settings.dpop_proof_ttl_seconds)
  unfolding validate_dpop_proof
  present-enters p m h =
      (register-enters p.registered_at m
        (bind (decoded_proof proofs p.proof p.decoded_at)
          (check_claims proofs settings p.request p.now))
        h).1

  present-keeps :
      (p : Presentation Token) (m : SessionManager) (j : String) {until : ℕ}
      → get m.replay_store j ≡ some until
      → p.registered_at < until
      → get (present p m).0.replay_store j ≡ some until
  unfolding validate_dpop_proof
  present-keeps p m = register-keeps p.registered_at m (
      bind (decoded_proof proofs p.proof p.decoded_at)
        (check_claims proofs settings p.request p.now))

  present-refuses :
      (p : Presentation Token) (m : SessionManager) (c : DPoPProofClaims) {until : ℕ}
      → get m.replay_store c.jti ≡ some until
      → p.registered_at < until
      → (present p m).1 ≢ returned c
  unfolding validate_dpop_proof
  present-refuses p m = register-refuses p.registered_at m (
      bind (decoded_proof proofs p.proof p.decoded_at)
        (check_claims proofs settings p.request p.now))

  -- Each was registered before the time.
  abbrev pub AllBefore : ℕ → List (Presentation Token) → Type 0
  AllBefore t [] = Unit {0}
  AllBefore t (p ∷ ps) = (p.registered_at < t) × AllBefore t ps

  before_mono :
      {s t : ℕ} → s < t → (ps : List (Presentation Token)) → AllBefore (s + 1) ps → AllBefore t ps
  before_mono h [] before = tt
  before_mono {s} {t} h (p ∷ ps) (first, rest) = (omega (arith, h, first), before_mono h ps rest)

  present_all-keeps :
      (ps : List (Presentation Token)) (m : SessionManager) (j : String) {until : ℕ}
      → get m.replay_store j ≡ some until
      → AllBefore until ps
      → get (present_all ps m).replay_store j ≡ some until
  unfolding present_all
  present_all-keeps [] m j h before = h
  present_all-keeps (p ∷ ps) m j h (first, rest) =
      present_all-keeps ps (present p m).0 j (present-keeps p m j h first) rest

  -- Once a proof has been taken, no proof with its id is taken in the lifetime that begins with its
  -- registration, whatever was presented in between.
  pub validate_dpop_proof-once :
      (p q : Presentation Token) (ps : List (Presentation Token)) (m : SessionManager)
      {c c' : DPoPProofClaims}
      → (present p m).1 ≡ returned c
      → let until = p.registered_at + micros settings.dpop_proof_ttl_seconds in
        AllBefore until ps
        → q.registered_at < until
        → c'.jti ≡ c.jti
        → (present q (present_all ps (present p m).0)).1 ≢ returned c'
  validate_dpop_proof-once p q ps m {c} {c'} taken before last same =
      present-refuses q (present_all ps (present p m).0) c'
        (ap (λ j. get (present_all ps (present p m).0).replay_store j) same
          ∙ present_all-keeps ps (present p m).0 c.jti (present-enters p m taken) before)
        last

  accepted :
      (now : ℕ) (r : Request Token) (b : DPoPProofClaims) {c : DPoPProofClaims}
      → check_claims proofs settings r now b ≡ returned c
      → (outside_window settings b.iat now ≡ false) × (b ≡ c)
  unfolding check_claims NoneStands
  accepted now r b h =
      let (none_stands, same) = first_failed-returned (claim_tests proofs settings r now b) b h in
      (none_stands.1.1.0, same)

  bind-window :
      (p : Presentation Token) (r : Result DPoPProofClaims) {c : DPoPProofClaims}
      → bind r (check_claims proofs settings p.request p.now) ≡ returned c
      → outside_window settings c.iat p.now ≡ false
  bind-window p (raised err) h = cc (h)
  bind-window p (returned b) h =
      let (inside, same) = accepted p.now p.request b h in
      subst (λ (a : DPoPProofClaims). outside_window settings a.iat p.now ≡ false) same inside

  present-window :
      (p : Presentation Token) (m : SessionManager) {c : DPoPProofClaims}
      → (present p m).1 ≡ returned c
      → outside_window settings c.iat p.now ≡ false
  unfolding validate_dpop_proof
  present-window p m h =
      let decoded =
        bind (decoded_proof proofs p.proof p.decoded_at)
          (check_claims proofs settings p.request p.now) in
      bind-window p (decoded_proof proofs p.proof p.decoded_at)
        (register-enters p.registered_at m decoded h).0

  in_window :
      (iat now : ℕ)
      → outside_window settings iat now ≡ false
      → now ≤ micros iat + micros settings.dpop_proof_ttl_seconds
  in_window iat now h = ground (arith, h)

  -- A proof that was older, when it was first taken, than a presentation takes between its two
  -- readings of the clock, is never taken again, at whatever time and whatever was presented before
  -- then: the same claims are refused.
  pub validate_dpop_proof-single_use :
      (p q : Presentation Token) (ps : List (Presentation Token)) (m : SessionManager)
      {c : DPoPProofClaims}
      → (present p m).1 ≡ returned c
      → AllBefore (q.registered_at + 1) ps
      → micros c.iat + q.registered_at < q.now + p.registered_at
      → (present q (present_all ps (present p m).0)).1 ≢ returned c
  validate_dpop_proof-single_use p q ps m {c} taken before aged again =
      let late = in_window c.iat q.now (present-window q (present_all ps (present p m).0) again) in
      let last : q.registered_at < p.registered_at + micros settings.dpop_proof_ttl_seconds =
        omega (arith, late, aged) in
      validate_dpop_proof-once p q ps m taken (before_mono last ps before) last refl again
