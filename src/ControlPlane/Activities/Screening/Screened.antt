-- ===== src/ControlPlane/Activities/Screening/Screened.antt =====
-- src/control_plane/scheduler.py: what it takes for "PrePIIScrub" and "PolicyEval" to return.
use aegis_os.Prelude.{
  ◌==◌, string_eq, ◌≡◌, refl, ap, ◌≢◌, true, false, Option, none, some, [], if◌then◌else◌, arith,
}
use aegis_os.Governance.Guardrails.{MaskResult, Pattern, mask_pii, check_prompt_injection}
use aegis_os.Governance.Policy
use aegis_os.Governance.Policy.{PolicyResult, evaluate}
use aegis_os.ControlPlane.Records.{
  WorkflowInput, PrePiiScrubResult, PolicyEvalInput, PolicyEvalResult, PostSanitizeInput,
  PostSanitizeResult,
}
use aegis_os.ControlPlane.Steps.{
  Ensures, Ensures-Unit, Ensures-pure, Ensures-raise, Ensures->>, Ensures->>=, Ensures-after,
  Ensures-if, Ensures-handle, Ensures-map,
}
use aegis_os.ControlPlane.Orchestrator.Stages.{is_denied}
use aegis_os.ControlPlane.Activities.{
  Env, Error, application_error, policy_error, prompt_injection, unavailable, denied,
}
use aegis_os.ControlPlane.Activities.Screening.{
  mask_fields, opa_input, refuse_injection, pre_pii_scrub, evaluated, deny_unavailable, judge,
  apply_mask, policy_eval, post_sanitize,
}
use aegis_os.ControlPlane.Activities.Rules.{Ensures-require_task_id}

module _ (env : Env) where
  -- There is no injection in the prompt, and its personal data is masked.
  abbrev pub Scrubbed : WorkflowInput → PrePiiScrubResult → Type 0
  Scrubbed inp s =
      (check_prompt_injection env.tools inp.prompt ≡ none)
      × (s.sanitized_prompt ≡ MaskResult.text (mask_pii env.tools inp.prompt))
      × (s.pii_types ≡ MaskResult.found_types (mask_pii env.tools inp.prompt))

  Ensures-refuse_injection :
      (o : Option Pattern) → Ensures (λ done. o ≡ none) (refuse_injection env o)
  unfolding refuse_injection
  Ensures-refuse_injection none = Ensures-pure refl
  Ensures-refuse_injection (some p) = Ensures-raise (prompt_injection p)

  pub Ensures-pre_pii_scrub :
      (inp : WorkflowInput)
      → Ensures (λ s. (inp.task_id ≢ "") × Scrubbed inp s) (pre_pii_scrub env inp)
  unfolding pre_pii_scrub
  Ensures-pre_pii_scrub inp = Ensures-after (Ensures-require_task_id env _ _ _) λ named.
      Ensures->> _ (
        Ensures-after (Ensures-refuse_injection _)
          λ clean. Ensures->> _ (Ensures-pure (named, (clean, refl, refl))))

  -- The text as the policy has it masked.
  abbrev pub policy_masked : PolicyEvalInput → PolicyResult → MaskResult
  policy_masked inp p =
      let unmasked : MaskResult = record { text = inp.sanitized_prompt; found_types = [] } in
      if p.action == "mask" then mask_fields env p.fields unmasked else unmasked

  -- The policy engine allows the request and does not reject it, and the result is as it says.
  abbrev pub Allowed : PolicyEvalInput → PolicyEvalResult → Type 0
  Allowed inp r =
      (p : PolicyResult) × (evaluate (env.opa (opa_input inp)) ≡ Policy.returned p)
      × (p.allowed ≡ true)
      × ((p.action == "reject") ≡ false)
      × (r.sanitized_prompt ≡ MaskResult.text (policy_masked inp p))
      × (r.extra_pii_types ≡ MaskResult.found_types (policy_masked inp p))

  Ensures-evaluated :
      (c : Policy.Result PolicyResult) → Ensures (λ p. c ≡ Policy.returned p) (evaluated env c)
  unfolding evaluated
  Ensures-evaluated (Policy.returned p) = Ensures-pure refl
  Ensures-evaluated (Policy.raised err) = Ensures-raise (policy_error err)

  Ensures-deny_unavailable :
      {P : PolicyResult → Type 0} (inp : PolicyEvalInput) (err : Error)
      → Ensures P (deny_unavailable env inp err)
  unfolding deny_unavailable
  Ensures-deny_unavailable inp (policy_error Policy.opa_unavailable) =
      Ensures->> _ (Ensures-raise (application_error "PolicyDeniedError" unavailable))
  Ensures-deny_unavailable inp err = Ensures-raise err

  Ensures-judge :
      (inp : PolicyEvalInput) (p : PolicyResult)
      → Ensures (λ done. is_denied p ≡ false) (judge env inp p)
  unfolding judge
  Ensures-judge inp p =
      Ensures-if (is_denied p)
        (λ h.
          Ensures->> _ (
            Ensures-raise
              (application_error "PolicyDeniedError" (denied inp.agent_type p.reasons))))
        (λ h. Ensures-map (Ensures-Unit _) λ done nothing. h)

  Ensures-apply_mask :
      (inp : PolicyEvalInput) (p : PolicyResult)
      → Ensures (λ m. m ≡ policy_masked inp p) (apply_mask env inp p)
  unfolding apply_mask
  Ensures-apply_mask inp p =
      Ensures-if (p.action == "mask") (λ h. Ensures->> _ (Ensures-pure (rw (h) refl)))
        (λ h. Ensures-pure (rw (h) refl))

  is_denied-false :
      (p : PolicyResult)
      → is_denied p ≡ false
      → (p.allowed ≡ true) × ((p.action == "reject") ≡ false)
  is_denied-false p h = ground (arith, h)

  pub Ensures-policy_eval :
      (inp : PolicyEvalInput) → Ensures (λ r. Allowed inp r) (policy_eval env inp)
  unfolding policy_eval
  Ensures-policy_eval inp = Ensures->> _ (
      Ensures->>= (Ensures-handle (Ensures-evaluated _) (Ensures-deny_unavailable inp)) λ p allowed.
        Ensures-after (Ensures-judge inp p) λ accepted.
          Ensures->>= (Ensures-apply_mask inp p) λ m masked. Ensures-pure (
            p,
            allowed,
            (is_denied-false p accepted).0,
            (is_denied-false p accepted).1,
            ap (λ (k : MaskResult). k.text) masked,
            ap (λ (k : MaskResult). k.found_types) masked,
          ))

  -- The content of a result is the masked one.
  pub Ensures-post_sanitize :
      (inp : PostSanitizeInput)
      → Ensures
          (λ (r : PostSanitizeResult).
            r.sanitized_content ≡ MaskResult.text (mask_pii env.tools inp.content))
          (post_sanitize env inp)
  unfolding post_sanitize
  Ensures-post_sanitize inp = Ensures->> _ (Ensures->> _ (Ensures->> _ (Ensures-pure refl)))
