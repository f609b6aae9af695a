-- ===== src/ControlPlane/Router/Hitl/Authority.antt =====
-- src/control_plane/router.py: who may decide on a task, and what a refusal leaves behind.
use mathlib.Core.Option.{map as map_option}
use Prim.Native.String.{◌++◌ as str_append}
use aegis_os.Prelude.{
  ℕ, String, string_eq, ◌≡◌, ◌≢◌, ◌⊎◌, inl, inr, refl, sym, ap, ◌∙◌, Bool-cases, true, false,
  Option, none, some,
}
use aegis_os.Governance.Policy
use aegis_os.Governance.Policy.{PolicyResult, evaluate}
use aegis_os.Governance.Session
use aegis_os.Governance.Session.{SessionManager, TokenClaims}
use aegis_os.Governance.Session.Validation.{validate_token, ensure_action_allowed}
use aegis_os.ControlPlane.Approval
use aegis_os.ControlPlane.Approval.{WorkflowState, Signal, deliver}
use aegis_os.ControlPlane.ApprovalService
use aegis_os.ControlPlane.ApprovalService.{
  Temporal, ApprovalStatusSnapshot, approval_status, ApprovalDecisionResult, get_snapshot,
  approve_pending, deny_pending,
}
use aegis_os.ControlPlane.ApprovalService.Decisions.{
  Awaiting, approve_pending-deliver, deny_pending-deliver, approve_pending-raised,
  deny_pending-raised,
}
use aegis_os.ControlPlane.Router.{http_error, Reply, replied, failed}
use aegis_os.ControlPlane.Router.Hitl.{
  Controls, ApprovalDecisionRequest, ApprovalDecisionResponse, Times, and_then, claims_reply,
  service_reply, is_cross_session, extract_bearer_token, allow_action, check_session, hitl_input,
  check_policy, authorize_claims, authorize_token, authorize_hitl_action, decided,
  decide_authorized, decide_task, approve_task, deny_task,
}

and_then-replied :
    {A B : Type 0} (c : Reply A) (f : A → Reply B) {b : B}
    → and_then c f ≡ replied b
    → (a : A) × (c ≡ replied a) × (f a ≡ replied b)
unfolding and_then
and_then-replied (failed err) f h = cc (h)
and_then-replied (replied a) f h = (a, refl, h)

claims_reply-replied :
    {A : Type 0} (c : Session.Result A) {a : A}
    → claims_reply c ≡ replied a
    → c ≡ Session.returned a
unfolding claims_reply
claims_reply-replied (Session.returned a) h = ap (λ x. Session.returned x) (cc (h))
claims_reply-replied (Session.raised Session.token_expired) h = cc (h)
claims_reply-replied (Session.raised (Session.token_revoked jti)) h = cc (h)
claims_reply-replied (Session.raised (Session.token_action jti action)) h = cc (h)
claims_reply-replied (Session.raised Session.jwt_error) h = cc (h)
claims_reply-replied (Session.raised err) h = cc (h)

service_reply-replied :
    {A : Type 0} (c : ApprovalService.Result A) {a : A}
    → service_reply c ≡ replied a
    → c ≡ ApprovalService.returned a
unfolding service_reply
service_reply-replied (ApprovalService.returned a) h = ap (λ x. ApprovalService.returned x) (cc (h))
service_reply-replied (ApprovalService.raised ApprovalService.not_found) h = cc (h)
service_reply-replied
      (ApprovalService.raised (ApprovalService.conflict task_id approval_state workflow_status)) h =
    cc (h)
service_reply-replied (ApprovalService.raised ApprovalService.rpc_error) h = cc (h)

module _ {Token S : Type 0} (c : Controls Token S) (task_id action : String) where
  -- The claims let their holder take the action on the task, and the policy engine agrees.
  abbrev pub MayAct : TokenClaims → S → Type 0
  MayAct claims s =
      (ensure_action_allowed claims (str_append "hitl:" action) ≡ Session.returned tt)
      × ((snapshot : ApprovalStatusSnapshot) × (get_snapshot c.temporal task_id s
            ≡ ApprovalService.returned snapshot)
          × (is_cross_session claims.session_id snapshot.session_id ≡ false)
          × ((p : PolicyResult) × (evaluate (c.opa (hitl_input c task_id action claims snapshot))
                ≡ Policy.returned p)
              × (p.allowed ≡ true)))

  allow_action-replied :
      (claims : TokenClaims) {k : TokenClaims}
      → allow_action c task_id action claims ≡ replied k
      → ensure_action_allowed claims (str_append "hitl:" action) ≡ Session.returned tt
  unfolding allow_action
  allow_action-replied claims h =
      let (done, ok, rest) = and_then-replied _ _ h in claims_reply-replied _ ok

  check_session-replied :
      (claims : TokenClaims) (snapshot : ApprovalStatusSnapshot) {k : ApprovalStatusSnapshot}
      → check_session c task_id action claims snapshot ≡ replied k
      → (is_cross_session claims.session_id snapshot.session_id ≡ false) × (k ≡ snapshot)
  unfolding check_session
  check_session-replied claims snapshot h =
      elim (Bool-cases (is_cross_session claims.session_id snapshot.session_id)) [
        | inl other ↦ cc (rw other at h)
        | inr same ↦ (same, cc (rw same at h))
      ]

  check_policy-replied :
      (claims : TokenClaims) (r : Policy.Result PolicyResult) {sub : String}
      → check_policy c task_id action claims r ≡ replied sub
      → (p : PolicyResult) × (r ≡ Policy.returned p) × (p.allowed ≡ true)
  unfolding check_policy
  check_policy-replied claims (Policy.raised err) h = cc (h)
  check_policy-replied claims (Policy.returned p) h = elim (Bool-cases p.allowed) [
    | inl allowed ↦ (p, refl, allowed)
    | inr denied ↦ cc (rw denied at h)
  ]

  authorize_claims-replied :
      (s : S) (claims : TokenClaims) {sub : String}
      → authorize_claims c task_id action s claims ≡ replied sub
      → MayAct claims s
  unfolding authorize_claims
  authorize_claims-replied s claims h =
      let (k, allowed, h1) = and_then-replied _ _ h in
      let (snapshot, found, h2) = and_then-replied _ _ h1 in
      let (again, same, h3) = and_then-replied _ _ h2 in
      (
        allow_action-replied claims allowed,
        (
          snapshot,
          service_reply-replied _ found,
          (check_session-replied claims snapshot same).0,
          check_policy-replied claims _ h3,
        ),
      )

  -- The header has a token that the session manager accepts, whose holder may act.
  abbrev pub Authorizes : Option String → Times → SessionManager → S → Type 0
  Authorizes authorization t m s =
      (token : Token) × (extract_bearer_token c task_id action authorization ≡ replied token)
      × ((claims : TokenClaims) × ((validate_token c.jose c.settings token t.decoded_at t.purged_at
              t.checked_at m).1
            ≡ Session.returned claims)
          × MayAct claims s)

  authorize_token-replied :
      (authorization : Option String) (t : Times) (m : SessionManager) (s : S) (r : Reply Token)
      {m' : SessionManager} {sub : String}
      → extract_bearer_token c task_id action authorization ≡ r
      → authorize_token c task_id action t m s r ≡ (m', replied sub)
      → Authorizes authorization t m s
  unfolding authorize_token
  authorize_token-replied authorization t m s (failed err) at h = cc (ap (λ x. x.1) h)
  authorize_token-replied authorization t m s (replied token) at h =
      let (claims, accepted, rest) = and_then-replied _ _ (ap (λ x. x.1) h) in
      (token, at, (claims, claims_reply-replied _ accepted, authorize_claims-replied s claims rest))

  decided-replied :
      (t : Times) (s0 : S) (x : S × ApprovalService.Result ApprovalDecisionResult) {s' : S}
      {response : ApprovalDecisionResponse}
      → decided c task_id action t x ≡ (s', replied response)
      → (r : ApprovalDecisionResult) × (x ≡ (s', ApprovalService.returned r))
        × (response ≡ record {
          task_id = task_id;
          status = r.status;
          actor_id = r.actor_id;
          timestamp = t.replied_at;
        })
  unfolding decided
  decided-replied t s0 (s1, result) h =
      let (r, ok, same) = and_then-replied _ _ (ap (λ x. x.1) h) in
      (r, λ i. ((h i).0, service_reply-replied result ok i), cc (same))

  decide_authorized-replied :
      (authorization : Option String) (t : Times)
      (decide : S → S × ApprovalService.Result ApprovalDecisionResult) (m : SessionManager) (s : S)
      (x : SessionManager × Reply String) {m' : SessionManager} {s' : S}
      {response : ApprovalDecisionResponse}
      → authorize_hitl_action c task_id action authorization t m s ≡ x
      → decide_authorized c task_id action t decide s x ≡ (m', s', replied response)
      → Authorizes authorization t m s
        × ((r : ApprovalDecisionResult) × (decide (c.temporal.elapse s)
              ≡ (s', ApprovalService.returned r))
            × (response ≡ record {
              task_id = task_id;
              status = r.status;
              actor_id = r.actor_id;
              timestamp = t.replied_at;
            }))
  unfolding decide_authorized authorize_hitl_action
  decide_authorized-replied authorization t decide m s (m1, failed err) at h = cc (ap (λ x. x.2) h)
  decide_authorized-replied authorization t decide m s (m1, replied sub) at h = (
    authorize_token-replied authorization t m s _ refl at,
    decided-replied t s _ (ap (λ x. (x.1, x.2)) h),
  )

abbrev response_of : String → Times → ApprovalDecisionResult → ApprovalDecisionResponse
response_of task_id t r = record {
  task_id = task_id;
  status = r.status;
  actor_id = r.actor_id;
  timestamp = t.replied_at;
}

module _ {Token S : Type 0} (c : Controls Token S) (task_id : String)
    (body : ApprovalDecisionRequest) (authorization : Option String) (t : Times) where
  -- A decision is answered only if the bearer's token is valid and allows it, belongs to no other
  -- session than the task, and the policy engine allows it; the task's workflow then awaited approval
  -- and has got the decision. The approver is whom the body of the request names.
  pub approve_task-Authorizes :
      (m : SessionManager) (s : S) {m' : SessionManager} {s' : S}
      {response : ApprovalDecisionResponse}
      → approve_task (some c) task_id (some body) authorization t m s ≡ (m', s', replied response)
      → Authorizes c task_id "approve" authorization t m s
        × Awaiting c.temporal task_id (c.temporal.elapse s)
        × (c.temporal.workflow s' task_id
            ≡ map_option
                (deliver (
                  Approval.approve (record {
                    approver_id = body.approver_id;
                    reason = body.reason;
                    approved = true;
                  })))
                (c.temporal.workflow (c.temporal.elapse (c.temporal.elapse s)) task_id))
        × (response ≡ record {
          task_id = task_id;
          status = "approved";
          actor_id = body.approver_id;
          timestamp = t.replied_at;
        })
  unfolding approve_task decide_task
  approve_task-Authorizes m s h =
      let (who, (r, accepted, same)) =
        decide_authorized-replied c task_id "approve" authorization t _ m s _ refl h in
      let (awaiting, sent, result) =
        approve_pending-deliver c.temporal task_id body.approver_id body.reason _ accepted in
      (who, awaiting, sent, same ∙ ap (response_of task_id t) result)

  -- The same of a denial.
  pub deny_task-Authorizes :
      (m : SessionManager) (s : S) {m' : SessionManager} {s' : S}
      {response : ApprovalDecisionResponse}
      → deny_task (some c) task_id (some body) authorization t m s ≡ (m', s', replied response)
      → Authorizes c task_id "deny" authorization t m s
        × Awaiting c.temporal task_id (c.temporal.elapse s)
        × (c.temporal.workflow s' task_id
            ≡ map_option
                (deliver (
                  Approval.deny (record {
                    approver_id = body.approver_id;
                    reason = body.reason;
                    approved = false;
                  })))
                (c.temporal.workflow (c.temporal.elapse (c.temporal.elapse s)) task_id))
        × (response ≡ record {
          task_id = task_id;
          status = "denied";
          actor_id = body.approver_id;
          timestamp = t.replied_at;
        })
  unfolding deny_task decide_task
  deny_task-Authorizes m s h =
      let (who, (r, accepted, same)) =
        decide_authorized-replied c task_id "deny" authorization t _ m s _ refl h in
      let (awaiting, sent, result) =
        deny_pending-deliver c.temporal task_id body.approver_id body.reason _ accepted in
      (who, awaiting, sent, same ∙ ap (response_of task_id t) result)

-- The state as it was, up to what else happened.
abbrev pub Untouched : {Token S : Type 0} → Controls Token S → S → S → Type 0
Untouched c s s' = (s' ≡ s) ⊎ (s' ≡ c.temporal.elapse s)

module _ {Token S : Type 0} (c : Controls Token S) (task_id action : String) where
  service_reply-failed :
      {A B : Type 0} (r : ApprovalService.Result A) (f : A → B) {status : ℕ}
      → and_then (service_reply r) (λ a. replied (f a)) ≡ failed (http_error status)
      → (err : ApprovalService.Error) × (r ≡ ApprovalService.raised err)
        × (err ≢ ApprovalService.rpc_error)
  unfolding service_reply and_then
  service_reply-failed (ApprovalService.returned a) f h = cc (h)
  service_reply-failed (ApprovalService.raised ApprovalService.not_found) f h =
      (ApprovalService.not_found, refl, λ e. cc (e))
  service_reply-failed (ApprovalService.raised (ApprovalService.conflict task state status)) f h =
      (ApprovalService.conflict task state status, refl, λ e. cc (e))
  service_reply-failed (ApprovalService.raised ApprovalService.rpc_error) f h = cc (h)

  decided-failed :
      (t : Times) (s : S) (x : S × ApprovalService.Result ApprovalDecisionResult) {s' : S}
      {status : ℕ}
      → ((s'' : S) (err : ApprovalService.Error)
          → x ≡ (s'', ApprovalService.raised err)
          → (s'' ≡ s) ⊎ (err ≡ ApprovalService.rpc_error))
      → decided c task_id action t x ≡ (s', failed (http_error status))
      → s' ≡ s
  unfolding decided
  decided-failed t s (s1, result) k h =
      let (err, is, not_rpc) = service_reply-failed result _ (ap (λ x. x.1) h) in
      elim (k s1 err (λ i. (s1, is i))) [
        | inl same ↦ sym (ap (λ x. x.0) h) ∙ same
        | inr rpc ↦ absurd (not_rpc rpc)
      ]

  decide_authorized-failed :
      (t : Times) (decide : S → S × ApprovalService.Result ApprovalDecisionResult) (s : S)
      (x : SessionManager × Reply String) {m' : SessionManager} {s' : S} {status : ℕ}
      → ((s'' : S) (err : ApprovalService.Error)
          → decide (c.temporal.elapse s) ≡ (s'', ApprovalService.raised err)
          → (s'' ≡ c.temporal.elapse s) ⊎ (err ≡ ApprovalService.rpc_error))
      → decide_authorized c task_id action t decide s x ≡ (m', s', failed (http_error status))
      → Untouched c s s'
  unfolding decide_authorized
  decide_authorized-failed t decide s (m1, failed err) k h = inl (sym (ap (λ x. x.1) h))
  decide_authorized-failed t decide s (m1, replied sub) k h =
      inr (decided-failed t _ _ k (ap (λ x. (x.1, x.2)) h))

-- Where either route answers with an error status, no workflow has been signalled: the server is as it
-- was, but for what else has happened since the token was checked.
pub approve_task-Untouched :
    {Token S : Type 0} (c : Controls Token S) (task_id : String)
    (body : Option ApprovalDecisionRequest) (authorization : Option String) (t : Times)
    (m : SessionManager) (s : S) {m' : SessionManager} {s' : S} {status : ℕ}
    → (approve_task (some c) task_id body authorization t m s
        ≡ (m', s', failed (http_error status)))
      ⊎ (deny_task (some c) task_id body authorization t m s ≡ (m', s', failed (http_error status)))
    → Untouched c s s'
unfolding approve_task deny_task decide_task
approve_task-Untouched c task_id none authorization t m s (inl h) = inl (sym (ap (λ x. x.1) h))
approve_task-Untouched c task_id none authorization t m s (inr h) = inl (sym (ap (λ x. x.1) h))
approve_task-Untouched c task_id (some body) authorization t m s (inl h) =
    decide_authorized-failed c task_id "approve" t _ s _
      (λ s1 err k. approve_pending-raised c.temporal task_id body.approver_id body.reason _ k) h
approve_task-Untouched c task_id (some body) authorization t m s (inr h) =
    decide_authorized-failed c task_id "deny" t _ s _
      (λ s1 err k. deny_pending-raised c.temporal task_id body.approver_id body.reason _ k) h
