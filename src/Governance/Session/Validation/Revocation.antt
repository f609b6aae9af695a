-- ===== src/Governance/Session/Validation/Revocation.antt =====
-- src/governance/session_mgr.py: what a token is worth after it is issued, revoked or rotated out.
use aegis_os.Prelude.{
  ℕ, ◌+◌, ◌≤◌, String, ◌≡◌, refl, ap, ◌∙◌, Bool-cases, inl, inr, true, false, ◌||◌, Option, some,
  arith, ◌==◌, ==_refl, [], if◌then◌else◌, string_eq,
}
use aegis_os.Dict.{get, get-put, is_some}
use aegis_os.Governance.ReplayStore.{micros, Entries, live, get-live, is_live}
use aegis_os.Governance.Session.{
  Settings, Payload, TokenClaims, token_expired, token_revoked, Result, returned, raised, Jose,
  SessionManager, Call, expired_at, signing_key, verification_key, purge_expired_revocations,
  revoke_jti, required, claims_of, option_or, TokenRequest, payload_of, issue_token, rotate_out,
  revoke_found, index_token, signed,
}
use aegis_os.Governance.Session.Validation.{
  validate_token, decode_with, check_payload, check_jti, refuse_revoked, is_revoked, revoke_token,
  revoke_claims, revoke_id,
}

-- Two readings of the clock, the later one last.
twice_live :
    (t c : ℕ) (entries : Entries) (jti : String)
    → t ≤ c
    → is_some (get (live c (live t entries)) jti) ≡ is_live c (get entries jti)
twice_live t c entries jti h =
    ground (arith, h, get-live c (live t entries) jti, get-live t entries jti)

indexed :
    (key jti : String) (m : SessionManager)
    → get (index_token (some key) jti m).rotation_index key ≡ some jti
unfolding index_token
indexed key jti m = rw (get-put, ==_refl)

rotated :
    (settings : Settings) (key jti : String) (at : ℕ) (m : SessionManager) {old : String}
    → get m.rotation_index key ≡ some old
    → get (index_token (some key) jti (rotate_out settings (some key) at m)).revoked_jtis old
      ≡ some (at + micros settings.token_expiry_seconds)
unfolding index_token rotate_out revoke_found revoke_jti
rotated settings key jti at m h = rw (h, get-put, ==_refl)

-- The keys that the settings give, where the one verifies what the other signs.
pub record Keys {Token : Type 0} (jose : Jose Token) (settings : Settings) : Type 0 where
  pub key : String
  pub verification : String
  pub signs : signing_key jose settings ≡ returned key
  pub verifies : verification_key jose settings ≡ returned verification
  pub fits : jose.matches settings.token_algorithm key verification ≡ true

module _ {Token : Type 0} {jose : Jose Token} {settings : Settings}
    (keys : Keys jose settings) where
  abbrev pub sign : Payload → Token
  sign p = jose.encode p keys.key settings.token_algorithm

  refused :
      (jti : String) (p : Payload) (t c : ℕ) (m : SessionManager)
      → t ≤ c
      → (refuse_revoked jti p (is_revoked jti c (purge_expired_revocations t m))).1 ≡ (
          if is_live c (get m.revoked_jtis jti)
          then raised (token_revoked jti)
          else claims_of jti p)
  unfolding refuse_revoked is_revoked
  refused jti p t c m h =
      rw (twice_live t c m.revoked_jtis jti h)
        (elim (Bool-cases (is_live c (get m.revoked_jtis jti))) [
          | inl stands ↦ rw stands
          | inr gone ↦ rw gone
        ])

  validate_signed :
      (p : Payload) {jti : String} (d t c : ℕ) (m : SessionManager)
      → p.jti ≡ some jti
      → t ≤ c
      → (validate_token jose settings (sign p) d t c m).1 ≡ (
          if expired_at p d
          then raised token_expired
          else if is_live c (get m.revoked_jtis jti)
          then raised (token_revoked jti)
          else claims_of jti p)
  unfolding validate_token check_jti
  validate_signed p {jti} d t c m named h =
      rw
        (
          keys.verifies,
          decode_with,
          jose.decode-encode p keys.key keys.verification settings.token_algorithm d keys.fits,
        )
        (elim (Bool-cases (expired_at p d)) [
          | inl late ↦ rw (late, check_payload)
          | inr early ↦
              rw (early, check_payload)
                (ap (λ (o : Option String). (check_jti (required "jti" o) p t c m).1) named
                  ∙ refused jti p t c m h)
        ])

  issue_signed :
      (r : TokenRequest) (jti : String) (now at : ℕ) (m : SessionManager)
      → ((r.agent_type == "") || (r.requester_id == "")) ≡ false
      → issue_token jose settings r jti now at m ≡ (
        index_token r.rotation_key jti
            (rotate_out settings r.rotation_key at (purge_expired_revocations now m)),
        returned (sign (payload_of settings r jti now)),
      )
  unfolding issue_token
  issue_signed r jti now at m named = rw (named, keys.signs, signed)

  -- What a validation gives for a token that was issued at `now` as `jti` for the request `r`, where
  -- the revocation of the id, if there is one, ends at `until`.
  abbrev pub worth : TokenRequest → String → ℕ → ℕ → ℕ → Option ℕ → Result TokenClaims
  worth r jti now d c until =
      if expired_at (payload_of settings r jti now) d
      then raised token_expired
      else if is_live c until
      then raised (token_revoked jti)
      else returned (record {
        jti = jti;
        sub = r.requester_id;
        agent_type = r.agent_type;
        session_id = r.session_id;
        task_id = r.task_id;
        allowed_actions = option_or [] r.allowed_actions;
        role = r.role;
        issued_at = now;
        expires_at = now + micros (option_or settings.token_expiry_seconds r.expires_in_seconds);
        metadata = option_or [] r.metadata;
        cnf = r.confirmation_jkt;
      })

  index-issued :
      (r : TokenRequest) (jti : String) (now at : ℕ) (m : SessionManager)
      → ((r.agent_type == "") || (r.requester_id == "")) ≡ false
      → (key : String) → r.rotation_key ≡ some key
      → get (issue_token jose settings r jti now at m).0.rotation_index key ≡ some jti
  index-issued r jti now at m named key k = rw (issue_signed r jti now at m named) (
      ap
        (λ o.
          get
            (index_token o jti (
              rotate_out settings r.rotation_key at
                (purge_expired_revocations now m))).rotation_index
            key)
        k
      ∙ indexed key jti (rotate_out settings r.rotation_key at (purge_expired_revocations now m)))

  get-rotated :
      (r : TokenRequest) (jti key : String) (now at : ℕ) (m : SessionManager) {old : String}
      → ((r.agent_type == "") || (r.requester_id == "")) ≡ false
      → r.rotation_key ≡ some key
      → get m.rotation_index key ≡ some old
      → get (issue_token jose settings r jti now at m).0.revoked_jtis old
        ≡ some (at + micros settings.token_expiry_seconds)
  get-rotated r jti key now at m {old} named k h = rw (issue_signed r jti now at m named) (
      ap
        (λ o.
          get
            (index_token o jti
              (rotate_out settings o at (purge_expired_revocations now m))).revoked_jtis
            old)
        k
      ∙ rotated settings key jti at (purge_expired_revocations now m) h)

  -- The token that is issued at `now`.
  abbrev pub token : TokenRequest → String → ℕ → Token
  token r jti now = sign (payload_of settings r jti now)

  module _ (r : TokenRequest) (jti : String) (now at : ℕ) (m : SessionManager)
      (named : ((r.agent_type == "") || (r.requester_id == "")) ≡ false) (d t c : ℕ)
      (later : t ≤ c) where
    token_worth :
        (n : SessionManager) (until : Option ℕ)
        → get n.revoked_jtis jti ≡ until
        → (validate_token jose settings (token r jti now) d t c n).1 ≡ worth r jti now d c until
    unfolding claims_of
    token_worth n until h =
        validate_signed (payload_of settings r jti now) d t c n refl later
        ∙ ap (worth r jti now d c) h

    -- With keys that fit, a request that names an agent type and a requester gets a token. Any
    -- manager with the same keys, in a validation that reads its clock in order, returns the claims
    -- that were asked for, until the second of the expiry has passed, unless the id stands in that
    -- manager's revocation list with a time still to come.
    pub validate_token-issue_token :
        (n : SessionManager)
        → ((issue_token jose settings r jti now at m).1 ≡ returned (token r jti now))
          × ((validate_token jose settings (token r jti now) d t c n).1
              ≡ worth r jti now d c (get n.revoked_jtis jti))
    validate_token-issue_token n = (
      ap (λ (x : Call Token). x.1) (issue_signed r jti now at m named),
      token_worth n (get n.revoked_jtis jti) refl,
    )

    -- With keys that fit, a token of such a request, after `revoke_token` on any manager, is refused
    -- in a validation that reads its clock in order: as expired once the second of its `exp` has
    -- passed, before that as revoked until the instant of its `exp`. In the rest of that second the
    -- claims are returned again.
    pub validate_token-revoke_token :
        (revoked_at : ℕ) (n : SessionManager)
        → (validate_token jose settings
            (token r jti now)
            d
            t
            c
            (revoke_token jose settings (token r jti now) revoked_at n).0).1
          ≡ worth r jti now d c
              (some (now + micros (option_or settings.token_expiry_seconds r.expires_in_seconds)))
    unfolding revoke_token revoke_jti
    validate_token-revoke_token revoked_at n =
        let revoked =
          jose.unverified-encode (payload_of settings r jti now) keys.key keys.verification
            settings.token_algorithm keys.fits in
        token_worth (revoke_token jose settings (token r jti now) revoked_at n).0
          (some (now + micros (option_or settings.token_expiry_seconds r.expires_in_seconds)))
          (rw (revoked, revoke_claims, revoke_id, get-put, ==_refl))

    -- With keys that fit, when a second such request is made under the rotation key of the first, the
    -- first token, in a validation that reads its clock in order, is refused as expired once the second
    -- of its `exp` has passed, and before that as revoked until the default lifetime has passed since
    -- the rotation. Where it lives longer than that, its claims are returned again.
    pub validate_token-rotation :
        (r' : TokenRequest) (jti' key : String) (now' at' : ℕ)
        → ((r'.agent_type == "") || (r'.requester_id == "")) ≡ false
        → r.rotation_key ≡ some key
        → r'.rotation_key ≡ some key
        → let m1 = (issue_token jose settings r jti now at m).0 in
          let m2 = (issue_token jose settings r' jti' now' at' m1).0 in
          (validate_token jose settings (token r jti now) d t c m2).1
          ≡ worth r jti now d c (some (at' + micros settings.token_expiry_seconds))
    validate_token-rotation r' jti' key now' at' named' k k' =
        let m1 = (issue_token jose settings r jti now at m).0 in
        token_worth (issue_token jose settings r' jti' now' at' m1).0
          (some (at' + micros settings.token_expiry_seconds))
          (get-rotated r' jti' key now' at' m1 named' k' (index-issued r jti now at m named key k))
