-- ===== src/ControlPlane/Activities/Screening.antt =====
-- src/control_plane/scheduler.py: the activities "PrePIIScrub", "PolicyEval", "PostSanitize" and
-- "WorkflowAudit".
pub mod Screened
use Prim.Native.String.{◌++◌ as str_append}
use aegis_os.Prelude.{
  String, ◌==◌, string_eq, Bool, true, false, Option, none, some, List, [], ◌∷◌, ◌++◌, map,
  if◌then◌else◌,
}
use aegis_os.Dict.{Dict}
use aegis_os.Audit.{Kwargs, Level, Outcome, LifecycleEvent, lifecycle_text, text, texts, num, plain}
use aegis_os.Governance.Guardrails.{MaskResult, Pattern, mask_pii, scrub, check_prompt_injection}
use aegis_os.Governance.Policy
use aegis_os.Governance.Policy.{PolicyInput, PolicyResult, evaluate}
use aegis_os.ControlPlane.Records.{
  WorkflowStatus, status_value, WorkflowInput, PrePiiScrubResult, PolicyEvalInput, PolicyEvalResult,
  PostSanitizeInput, PostSanitizeResult, WorkflowAuditInput,
}
use aegis_os.ControlPlane.Steps.{Result, returned, raised, ◌>>=◌, ◌>>◌, pure, raise, handle}
use aegis_os.ControlPlane.Orchestrator.Stages.{found_outcome, is_denied}
use aegis_os.ControlPlane.Activities.{
  Env, M, Call, Error, application_error, policy_error, prompt_injection, unavailable, denied,
  require_task_id, log, log_lifecycle, in_audit,
}

-- The loop over the fields that the policy names: the prompt, and the types that were found.
pub mask_fields : Env → List String → MaskResult → MaskResult
mask_fields env [] m = m
mask_fields env (field ∷ fields) m =
    let again = scrub env.tools m.text in
    mask_fields env fields (
      if field == "prompt"
      then record { text = again.text; found_types = m.found_types ++ again.found_types }
      else m)

abbrev pub opa_input : PolicyEvalInput → PolicyInput
opa_input inp = record {
  agent_type = inp.agent_type;
  requester_id = inp.requester_id;
  action = "llm.complete";
  resource = str_append "model:" inp.model;
  metadata = [];
  principal_role = none;
  token_expired = false;
}

module _ (env : Env) where
  pub refuse_injection : Option Pattern → M (Unit {0})
  refuse_injection none = pure tt
  refuse_injection (some pattern) = raise (prompt_injection pattern)

  abbrev pub scrub_call : WorkflowInput → Call
  scrub_call inp = record {
    task_id = inp.task_id;
    agent_type = inp.agent_type;
    span = "pre-pii-scrub";
    traceparent = inp.traceparent;
  }

  -- `pre_pii_scrub`
  unfoldable pub pre_pii_scrub : WorkflowInput → M PrePiiScrubResult
  pre_pii_scrub inp = do
    require_task_id env inp.task_id "pre-pii-scrub" inp.agent_type
    log_lifecycle env (scrub_call inp) "workflow.started" (lifecycle_text LifecycleEvent.started)
        inp.session_id (status_value WorkflowStatus.running) "workflow-lifecycle" []
    refuse_injection (check_prompt_injection env.tools inp.prompt)
    let m = mask_pii env.tools inp.prompt
    log env (scrub_call inp) (found_outcome m.found_types) "guardrails.pre_sanitize" "pre-pii-scrub"
        (("pii_types", texts m.found_types) ∷ [])
    pure (record { sanitized_prompt = m.text; pii_types = m.found_types })

  abbrev pub policy_call : PolicyEvalInput → Call
  policy_call inp = record {
    task_id = inp.task_id;
    agent_type = inp.agent_type;
    span = "policy-eval";
    traceparent = inp.traceparent;
  }

  pub evaluated : Policy.Result PolicyResult → M PolicyResult
  evaluated (Policy.returned p) = pure p
  evaluated (Policy.raised err) = raise (policy_error err)

  -- `except OpaUnavailableError`
  pub deny_unavailable : PolicyEvalInput → Error → M PolicyResult
  deny_unavailable inp (policy_error Policy.opa_unavailable) = do
    log env (policy_call inp) Outcome.failure "policy.opa_unavailable" "policy-eval"
        (("error_message", text (env.message (policy_error Policy.opa_unavailable))) ∷ [])
    raise (application_error "PolicyDeniedError" unavailable)
  deny_unavailable inp err = raise err

  pub judge : PolicyEvalInput → PolicyResult → M (Unit {0})
  judge inp p =
      if is_denied p
      then (do
        log env (policy_call inp) Outcome.deny "policy.denied" "policy-eval"
            (("reasons", texts p.reasons) ∷ [])
        raise (application_error "PolicyDeniedError" (denied inp.agent_type p.reasons)))
      else log env (policy_call inp) Outcome.allow "policy.allowed" "policy-eval" []

  pub apply_mask : PolicyEvalInput → PolicyResult → M MaskResult
  apply_mask inp p =
      let unmasked : MaskResult = record { text = inp.sanitized_prompt; found_types = [] } in
      if p.action == "mask"
      then (do
        let masked = mask_fields env p.fields unmasked
        log env (policy_call inp) Outcome.redact "policy.mask_applied" "policy-eval"
            (("fields", texts p.fields) ∷ [])
        pure masked)
      else pure unmasked

  -- `policy_eval`
  unfoldable pub policy_eval : PolicyEvalInput → M PolicyEvalResult
  policy_eval inp = do
    require_task_id env inp.task_id "policy-eval" inp.agent_type
    p ← handle (evaluated (evaluate (env.opa (opa_input inp)))) (deny_unavailable inp)
    judge inp p
    masked ← apply_mask inp p
    pure (record {
      allowed = p.allowed;
      action = p.action;
      fields = p.fields;
      sanitized_prompt = masked.text;
      extra_pii_types = masked.found_types;
    })

  abbrev pub post_call : PostSanitizeInput → Call
  post_call inp = record {
    task_id = inp.task_id;
    agent_type = inp.agent_type;
    span = "post-sanitize";
    traceparent = inp.traceparent;
  }

  -- `post_sanitize`
  unfoldable pub post_sanitize : PostSanitizeInput → M PostSanitizeResult
  post_sanitize inp = do
    require_task_id env inp.task_id "post-sanitize" inp.agent_type
    let m = mask_pii env.tools inp.content
    log env (post_call inp) (found_outcome m.found_types) "guardrails.post_sanitize" "post-sanitize"
        (("pii_types", texts m.found_types) ∷ [])
    log_lifecycle env (post_call inp) "workflow.completed" (lifecycle_text LifecycleEvent.completed)
        inp.session_id (status_value WorkflowStatus.completed) "workflow-lifecycle"
        (("total_retries", num inp.total_retries) ∷ [])
    pure (record { sanitized_content = m.text; pii_types = m.found_types })

  -- The event is emitted outside any span.
  abbrev pub audit_call : WorkflowAuditInput → Call
  audit_call inp = record {
    task_id = inp.task_id;
    agent_type = inp.agent_type;
    span = "";
    traceparent = none;
  }

  abbrev pub details_of : WorkflowAuditInput → Kwargs
  details_of inp = map (λ (d : String × String). (d.0, text d.1)) inp.details

  -- An event of an outcome, with no sequence number.
  abbrev pub outcome_event : WorkflowAuditInput → M (Unit {0})
  outcome_event inp =
      let level =
        if inp.outcome == "deny"
        then Level.warning
        else if inp.outcome == "error"
        then Level.error
        else Level.info in
      in_audit (λ a. some (
        plain level inp.event
          (("task_id", text inp.task_id) ∷ ("agent_type", text inp.agent_type) ∷ details_of inp) a))

  lifecycle_or_outcome : Option String → WorkflowAuditInput → M (Unit {0})
  lifecycle_or_outcome none inp = outcome_event inp
  lifecycle_or_outcome (some event_type) inp =
      log_lifecycle env (audit_call inp) inp.event event_type inp.session_id inp.workflow_status
        inp.stage (details_of inp)

  -- `WorkflowAuditActivities.record_event`
  unfoldable pub record_event : WorkflowAuditInput → M (Unit {0})
  unfolding lifecycle_or_outcome
  record_event inp = lifecycle_or_outcome inp.event_type inp
