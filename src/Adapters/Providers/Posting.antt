-- ===== src/Adapters/Providers/Posting.antt =====
-- src/adapters/: what the adapters of the providers post, and when.
use aegis_os.Prelude.{
  ℕ, suc, sym, subst, String, ◌≡◌, ◌≢◌, refl, ap, ◌∙◌, ◌⊎◌, inl, inr, true, false, Option, none,
  some, List, [], ◌∷◌, ◌++◌,
}
use aegis_os.Audit.{AuditLogger, Outcome, Kwargs}
use aegis_os.Governance.Policy.{is_success}
use aegis_os.Governance.Session
use aegis_os.Governance.Session.{SessionManager, TokenClaims}
use aegis_os.ControlPlane.Steps.{
  Result, returned, raised, Returned, continue, recover, handle, ◌>>=◌, ◌>>◌, Keeps, Keeps-pure,
  Keeps-raise, Keeps->>=, Keeps->>, Keeps-handle, Keeps-if, Ensures, Ensures-pure, Ensures-if,
  Ensures-raise, Ensures-then, Ensures->>, Ensures->>=, Ensures-map,
}
use aegis_os.ControlPlane.Orchestrator.{LlmResponse}
use aegis_os.Adapters
use aegis_os.Adapters.{AegisMetadata, Times, adapter_security, is_protected}
use aegis_os.Adapters.Protection.{Constrained, require_sender_constrained_request-returned}
use aegis_os.Adapters.Providers.{
  Request, Message, Post, Document, Answer, transport_error, response, Error, guard_error,
  http_error, bad_body, missing_key, State, M, Env, Provider, reading, after_audit, in_audit,
  after_guard, after_lookup, answered, read_or_raise, log, times, lookup, refuse,
  require_constrained, log_validated, guard, post, complete,
}
use aegis_os.Adapters.Providers.Vendors.{
  Vendor, provider_of, openai, anthropic, local_llama, complete_of, user_message, openai_with,
  anthropic_with, local_with,
}

abbrev pub posts_of : State → List Post
posts_of st = st.posts

-- What neither the clock nor the audit log touches.
abbrev pub view_of : State → List Post × SessionManager
view_of st = (st.posts, st.sessions)

Keeps-posts : {A : Type 0} {m : M A} → Keeps view_of m → Keeps posts_of m
Keeps-posts h = record { kept = λ st. ap (λ v. v.0) (h.kept st) }

Keeps-reading : Keeps view_of reading
unfolding reading
Keeps-reading = record { kept = λ st. refl }

after_audit-view : (st : State) (o : Option AuditLogger) → view_of (after_audit st o).0 ≡ view_of st
unfolding after_audit
after_audit-view st none = refl
after_audit-view st (some a) = refl

Keeps-in_audit : (f : AuditLogger → Option AuditLogger) → Keeps view_of (in_audit f)
unfolding in_audit
Keeps-in_audit f = record { kept = λ st. after_audit-view st (f st.audit) }

after_guard-posts :
    (st : State) (c : SessionManager × Adapters.Result (Option TokenClaims))
    → (after_guard st c).0.posts ≡ st.posts
unfolding after_guard
after_guard-posts st (m, Adapters.returned o) = refl
after_guard-posts st (m, Adapters.raised err) = refl

after_lookup-posts :
    (st : State) (c : Session.Call TokenClaims) → (after_lookup st c).0.posts ≡ st.posts
unfolding after_lookup
after_lookup-posts st (m, Session.returned c) = refl
after_lookup-posts st (m, Session.raised err) = refl

ruleset keeping = (
  Keeps-pure, Keeps-raise, Keeps->>=, Keeps->>, Keeps-handle, Keeps-if, Keeps-reading,
  Keeps-in_audit,
)

Keeps-answered : (a : Answer) → Keeps view_of (answered a)
unfolding answered
Keeps-answered transport_error = Keeps-raise http_error
Keeps-answered (response status none) =
    Keeps-if (is_success status) (Keeps-raise bad_body) (Keeps-raise http_error)
Keeps-answered (response status (some d)) =
    Keeps-if (is_success status) (Keeps-pure d) (Keeps-raise http_error)

module _ {Token : Type 0} (env : Env Token) (p : Provider Token) where
  Keeps-log :
      (outcome : Outcome) (event : String) (who : String × String) (kwargs : Kwargs)
      → Keeps view_of (log env p outcome event who kwargs)
  unfolding log
  Keeps-log outcome event (task_id, agent_type) kwargs = search keeping

  Keeps-times : Keeps view_of (times env p)
  unfolding times
  Keeps-times = search keeping depth 16

  Keeps-lookup : (token : Option Token) → Keeps posts_of (lookup env p token)
  unfolding lookup
  Keeps-lookup none = Keeps-pure none
  Keeps-lookup (some token) = Keeps->>= (Keeps-posts Keeps-reading) λ t.
      Keeps->>= (Keeps-posts Keeps-reading) λ purged.
        Keeps->>= (Keeps-posts Keeps-reading)
          λ checked. record { kept = λ st. after_lookup-posts st _ }

  Keeps-refuse : (r : Request Token) (err : Error) → Keeps posts_of (refuse env p r err)
  unfolding refuse
  Keeps-refuse r (guard_error (adapter_security cause)) =
      Keeps->>= (Keeps-lookup r.metadata.aegis_token)
        λ claims. Keeps->> (Keeps-posts (Keeps-log _ _ _ _)) (Keeps-raise _)
  Keeps-refuse r err = Keeps-raise err

  Keeps-require_constrained :
      (r : Request Token) (x : Times) → Keeps posts_of (require_constrained env p r x)
  unfolding require_constrained
  Keeps-require_constrained r x = record { kept = λ st. after_guard-posts st _ }

  Keeps-log_validated : (o : Option TokenClaims) → Keeps view_of (log_validated env p o)
  unfolding log_validated
  Keeps-log_validated none = Keeps-pure tt
  Keeps-log_validated (some c) = Keeps-log _ _ _ _

  Keeps-guard : (r : Request Token) → Keeps posts_of (guard env p r)
  unfolding guard
  Keeps-guard r = Keeps->>= (Keeps-posts Keeps-times) λ x.
      Keeps->>= (Keeps-handle (Keeps-require_constrained r x) (Keeps-refuse r))
        λ claims. Keeps-posts (Keeps-log_validated claims)

  module _ (r : Request Token) where
    -- The readings of the clock that follow the state.
    abbrev pub times_at : State → Times
    times_at st = record {
      t = env.clock st.readings;
      purged_at = env.clock (suc st.readings);
      checked_at = env.clock (suc (suc st.readings));
      now = env.clock (suc (suc (suc st.readings)));
      decoded_at = env.clock (suc (suc (suc (suc st.readings))));
      registered_at = env.clock (suc (suc (suc (suc (suc st.readings)))));
    }

    -- The session manager of the state has accepted, at the time of the call, the proof for the provider's
    -- method and address and for the token, and is left as that leaves it; or nothing asks for protection, and
    -- the session manager is as it was.
    abbrev pub Guarded : State → SessionManager → Type 0
    Guarded st m' =
        ((is_protected env.jose env.proofs env.settings env.require_sender_constrained_tokens
              r.metadata
            ≡ true)
          × ((o : Option TokenClaims) × Constrained env.jose env.proofs env.settings r.metadata
                p.http_method p.http_url (times_at st) st.sessions m' o))
        ⊎ ((r.metadata.aegis_protected ≢ some "true")
            × (env.require_sender_constrained_tokens ≡ false)
            × (m' ≡ st.sessions))

    -- A call that returns has left the session manager as the check of the state has.
    abbrev Leaves : {A : Type 0} → State → State × Result Error A → Type 0
    Leaves st (st', returned a) = Guarded st st'.sessions
    Leaves st (st', raised err) = Unit {0}

    Leaves-after_guard :
        (st st' : State) (c : SessionManager × Adapters.Result (Option TokenClaims))
        → Adapters.require_sender_constrained_request env.jose env.proofs env.settings
            env.require_sender_constrained_tokens r.metadata p.http_method p.http_url
            (times_at st)
            st.sessions
          ≡ c
        → Leaves st (after_guard st' c)
    unfolding after_guard
    Leaves-after_guard st st' (m', Adapters.raised err) h = tt
    Leaves-after_guard st st' (m', Adapters.returned o) h = guarded_of (
        require_sender_constrained_request-returned env.jose env.proofs env.settings
          env.require_sender_constrained_tokens r.metadata p.http_method p.http_url (times_at st)
          st.sessions h)
      where
        guarded_of :
            ((is_protected env.jose env.proofs env.settings env.require_sender_constrained_tokens
                    r.metadata
                  ≡ true)
                × Constrained env.jose env.proofs env.settings r.metadata p.http_method p.http_url
                    (times_at st)
                    st.sessions
                    m'
                    o)
              ⊎ ((r.metadata.aegis_protected ≢ some "true")
                  × (env.require_sender_constrained_tokens ≡ false)
                  × (o ≡ none)
                  × (m' ≡ st.sessions))
            → Guarded st m'
        guarded_of (inl (asked, constrained)) = inl (asked, (o, constrained))
        guarded_of (inr (free, off, nothing, same)) = inr (free, off, same)

    Ensures-refuse : (err : Error) → Ensures (λ o. ⊥) (refuse env p r err)
    unfolding refuse
    Ensures-refuse (guard_error (adapter_security cause)) =
        Ensures-then _ λ claims. Ensures->> _ (Ensures-raise (guard_error (adapter_security cause)))
    Ensures-refuse err = Ensures-raise err

    Leaves-raised :
        {A : Type 0} (st : State) (c : State × Result Error A) → Returned (λ a. ⊥) c → Leaves st c
    Leaves-raised st (st', returned a) h = absurd h
    Leaves-raised st (st', raised err) h = tt

    Leaves-recover :
        (st : State) (c : State × Result Error (Option TokenClaims))
        → Leaves st c
        → Leaves st (recover (refuse env p r) c)
    unfolding recover
    Leaves-recover st (st', returned o) h = h
    Leaves-recover st (st', raised err) h =
        Leaves-raised st (refuse env p r err st') ((Ensures-refuse err).at st')

    Leaves-kept :
        {A : Type 0} (st : State) {m : SessionManager} (c : State × Result Error A)
        → c.0.sessions ≡ m
        → Guarded st m
        → Leaves st c
    Leaves-kept st (st', returned a) same h = subst (Guarded st) (sym same) h
    Leaves-kept st (st', raised err) same h = tt

    Leaves-log_validated :
        (st : State) (c : State × Result Error (Option TokenClaims))
        → Leaves st c
        → Leaves st (continue (log_validated env p) c)
    unfolding continue
    Leaves-log_validated st (st', returned o) h =
        Leaves-kept st (log_validated env p o st')
          (ap (λ v. v.1) ((Keeps-log_validated o).kept st')) h
    Leaves-log_validated st (st', raised err) h = tt

    Leaves-guard : (st : State) → Leaves st (guard env p r st)
    unfolding guard times require_constrained reading ◌>>=◌ handle
    Leaves-guard st =
        Leaves-log_validated st _ (Leaves-recover st _ (Leaves-after_guard st _ _ refl))

    -- The result is read from the document of a successful answer to the post.
    abbrev pub ReadFrom : Post → LlmResponse → Type 0
    ReadFrom q result =
        (status : ℕ) × (d : Document) × (env.client q ≡ response status (some d))
        × (is_success status ≡ true)
        × (p.read r d ≡ some result)

    Ensures-answered :
        (a : Answer)
        → Ensures
            (λ d. (status : ℕ) × (a ≡ response status (some d)) × (is_success status ≡ true))
            (answered a)
    unfolding answered
    Ensures-answered transport_error = Ensures-raise http_error
    Ensures-answered (response status none) =
        Ensures-if (is_success status) (λ h. Ensures-raise bad_body) (λ h. Ensures-raise http_error)
    Ensures-answered (response status (some d)) =
        Ensures-if (is_success status) (λ h. Ensures-pure (status, refl, h))
          (λ h. Ensures-raise http_error)

    Ensures-read_or_raise :
        (o : Option LlmResponse) → Ensures (λ result. o ≡ some result) (read_or_raise o)
    unfolding read_or_raise
    Ensures-read_or_raise none = Ensures-raise missing_key
    Ensures-read_or_raise (some result) = Ensures-pure refl

    Keeps-read_or_raise : (o : Option LlmResponse) → Keeps view_of (read_or_raise o)
    unfolding read_or_raise
    Keeps-read_or_raise none = Keeps-raise missing_key
    Keeps-read_or_raise (some result) = Keeps-pure result

    -- What follows the post, in the state that has it.
    abbrev finish : M LlmResponse
    finish = answered (env.client (p.payload r)) >>= λ d. read_or_raise (p.read r d)

    Keeps-finish : Keeps view_of finish
    Keeps-finish =
        Keeps->>= (Keeps-answered (env.client (p.payload r))) λ d. Keeps-read_or_raise (p.read r d)

    Ensures-finish : Ensures (ReadFrom (p.payload r)) finish
    Ensures-finish = Ensures->>= (Ensures-answered (env.client (p.payload r))) λ d h.
        Ensures-map (Ensures-read_or_raise (p.read r d)) λ result read. (h.0, d, h.1, h.2, read)

    -- One post more, of a guarded request, and a result only if it was read from the answer; or none, and
    -- an error.
    unfoldable pub Posted : State → State × Result Error LlmResponse → Type 0
    Posted before (st, returned result) =
        (st.posts ≡ before.posts ++ p.payload r ∷ [])
        × Guarded before st.sessions
        × ReadFrom (p.payload r) result
    Posted before (st, raised err) =
        (st.posts ≡ before.posts)
        ⊎ ((st.posts ≡ before.posts ++ p.payload r ∷ []) × Guarded before st.sessions)

    Posted-finish :
        (before : State) (c : State × Result Error LlmResponse)
        → c.0.posts ≡ before.posts ++ p.payload r ∷ []
        → Guarded before c.0.sessions
        → Returned (λ result. ReadFrom (p.payload r) result) c
        → Posted before c
    unfolding Posted
    Posted-finish before (st, returned result) there guarded read = (there, guarded, read)
    Posted-finish before (st, raised err) there guarded read = inr (there, guarded)

    Posted-guard :
        (before : State) (c : State × Result Error (Unit {0}))
        → c.0.posts ≡ before.posts
        → Leaves before c
        → Posted before
            (continue (λ done. post env p (p.payload r) >>= λ d. read_or_raise (p.read r d)) c)
    unfolding Posted continue post ◌>>=◌
    Posted-guard before (st, raised err) same guarded = inl same
    Posted-guard before (st, returned done) same guarded =
        let st' : State = record st { posts = st.posts ++ p.payload r ∷ [] } in
        Posted-finish before (finish st')
          (ap (λ v. v.0) (Keeps-finish.kept st') ∙ ap (λ posts. posts ++ p.payload r ∷ []) same)
          (subst (Guarded before) (sym (ap (λ v. v.1) (Keeps-finish.kept st'))) guarded)
          (Ensures-finish.at st')

    complete-Posted : (st : State) → Posted st (complete env p r st)
    unfolding complete ◌>>◌ ◌>>=◌
    complete-Posted st =
        Posted-guard st (guard env p r st) ((Keeps-guard r).kept st) (Leaves-guard st)

-- What is posted goes to the address that the proof is for, its last message is the prompt of the user, and
-- it is the same whatever the metadata is.
pub record Carries {Token : Type 0} (p : Provider Token) (r : Request Token) : Type 0 where
  pub addressed : (p.payload r).url ≡ p.http_url
  pub before : List Message
  pub messages : (p.payload r).json.messages ≡ before ++ user_message r ∷ []
  pub blind :
      (metadata : AegisMetadata Token) → p.payload (record r { metadata = metadata }) ≡ p.payload r

module _ {Token : Type 0} (r : Request Token) where
  vendor-Carries : (v : Vendor) → Carries (provider_of v) r
  unfolding provider_of
  vendor-Carries (openai_with api_key default_model) = record {
    addressed = refl;
    before = _;
    messages = refl;
    blind = λ metadata. refl;
  }
  vendor-Carries (anthropic_with api_key default_model) = record {
    addressed = refl;
    before = [];
    messages = refl;
    blind = λ metadata. refl;
  }
  vendor-Carries (local_with base_url default_model) = record {
    addressed = refl;
    before = _;
    messages = refl;
    blind = λ metadata. refl;
  }

-- A call of any of the three adapters posts at most once, and only after the check: the session manager that
-- the adapter had before the call accepted, at the readings of the clock that begin it, the proof for the
-- method and the address of the provider and for the token, and is left as that acceptance leaves it; or nothing
-- asks for protection, and it is left as it was. A call that returns has posted, and its result is read from the
-- document of a successful answer. What is posted goes to that address, has the prompt as its last message, and
-- does not depend on the token or the proof.
pub complete_of-Posted :
    {Token : Type 0} (env : Env Token) (v : Vendor) (r : Request Token) (st : State)
    → Posted env (provider_of v) r st (complete_of env v r st) × Carries (provider_of v) r
unfolding complete_of provider_of
complete_of-Posted env (openai_with api_key default_model) r st = (
  complete-Posted env (openai api_key default_model) r st,
  vendor-Carries r (openai_with api_key default_model),
)
complete_of-Posted env (anthropic_with api_key default_model) r st = (
  complete-Posted env (anthropic api_key default_model) r st,
  vendor-Carries r (anthropic_with api_key default_model),
)
complete_of-Posted env (local_with base_url default_model) r st = (
  complete-Posted env (local_llama base_url default_model) r st,
  vendor-Carries r (local_with base_url default_model),
)
