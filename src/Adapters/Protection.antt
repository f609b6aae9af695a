-- ===== src/Adapters/Protection.antt =====
-- src/adapters/base.py: when a request may be sent.
use mathlib.Core.Option.{some-injective}
use aegis_os.Prelude.{
  eq_iff, String, string_eq, ◌==◌, ◌≡◌, ◌≢◌, ◌⊎◌, inl, inr, refl, sym, ap, Bool, Bool-cases, true,
  false, ◌||◌, Option, none, some,
}
use aegis_os.Dict.{holds}
use aegis_os.Governance.Session
use aegis_os.Governance.Session.{Jose, Settings, SessionManager, TokenClaims, Call}
use aegis_os.Governance.Dpop.{Proofs}
use aegis_os.Adapters.{
  AegisMetadata, returned, Times, is_protected, guarded, checked, with_both,
  require_sender_constrained_request,
}

unprotected :
    (label : Option String) (require_all : Bool)
    → (holds (λ v. v == "true") label || require_all) ≡ false
    → (label ≢ some "true") × (require_all ≡ false)
unprotected none require_all h = (λ e. cc (e), h)
unprotected (some v) require_all h = elim (Bool-cases (v == "true")) [
  | inl asked ↦ cc (rw asked at h)
  | inr other ↦ (λ e. cc ((eq_iff v "true").1 (some-injective _ _ e), other), rw other at h)
]

module _ {Token : Type 0} (jose : Jose Token) (proofs : Proofs Token) (settings : Settings) where
  -- The metadata has a token and a proof, which the session manager accepts for that token and this
  -- request, with the claims.
  abbrev pub Constrained :
      AegisMetadata Token
      → String
      → String
      → Times
      → SessionManager
      → SessionManager
      → Option TokenClaims
      → Type 0
  Constrained metadata http_method http_url x m m' o =
      (token : Token) × (proof : String) × (claims : TokenClaims) × (metadata.aegis_token
        ≡ some token)
      × (metadata.aegis_dpop_proof ≡ some proof)
      × (checked jose proofs settings token proof http_method http_url x m
          ≡ (m', Session.returned claims))
      × (o ≡ some claims)

  guarded-returned :
      (c : Call TokenClaims) {m' : SessionManager} {o : Option TokenClaims}
      → guarded jose proofs settings c ≡ (m', returned o)
      → (claims : TokenClaims) × (c ≡ (m', Session.returned claims)) × (o ≡ some claims)
  unfolding guarded
  guarded-returned (m1, Session.returned claims) h =
      (claims, ap (λ m. (m, Session.returned claims)) (ap (λ y. y.0) h), cc (ap (λ y. y.1) h))
  guarded-returned (m1, Session.raised err) h = cc (ap (λ y. y.1) h)

  with_both-returned :
      (metadata : AegisMetadata Token) (http_method http_url : String) (x : Times)
      (m : SessionManager) (t : Option Token) (p : Option String) {m' : SessionManager}
      {o : Option TokenClaims}
      → metadata.aegis_token ≡ t
      → metadata.aegis_dpop_proof ≡ p
      → with_both jose proofs settings t p http_method http_url x m ≡ (m', returned o)
      → Constrained metadata http_method http_url x m m' o
  unfolding with_both
  with_both-returned metadata http_method http_url x m none p at_t at_p h = cc (ap (λ y. y.1) h)
  with_both-returned metadata http_method http_url x m (some token) none at_t at_p h =
      cc (ap (λ y. y.1) h)
  with_both-returned metadata http_method http_url x m (some token) (some proof) at_t at_p h =
      let (claims, ok, same) = guarded-returned _ h in (token, proof, claims, at_t, at_p, ok, same)

  -- A request passes the check only with a token and a proof that the session manager accepts for its
  -- method and address, or if neither it nor the configuration asks for protection.
  pub require_sender_constrained_request-returned :
      (require_all : Bool) (metadata : AegisMetadata Token) (http_method http_url : String)
      (x : Times) (m : SessionManager) {m' : SessionManager} {o : Option TokenClaims}
      → require_sender_constrained_request jose proofs settings require_all metadata http_method
          http_url x m
        ≡ (m', returned o)
      → ((is_protected jose proofs settings require_all metadata ≡ true)
          × Constrained metadata http_method http_url x m m' o)
        ⊎ ((metadata.aegis_protected ≢ some "true") × (require_all ≡ false) × (o ≡ none) × (m' ≡ m))
  unfolding require_sender_constrained_request
  require_sender_constrained_request-returned require_all metadata http_method http_url x m h =
      elim (Bool-cases (is_protected jose proofs settings require_all metadata)) [
        | inl asked ↦ inl (
          asked,
          with_both-returned metadata http_method http_url x m _ _ refl refl (rw asked at h),
        )
        | inr free ↦
            let (unasked, optional) = unprotected metadata.aegis_protected require_all free in
            let same = rw free at h in
            inr (unasked, optional, cc (ap (λ y. y.1) same), sym (ap (λ y. y.0) same))
      ]
