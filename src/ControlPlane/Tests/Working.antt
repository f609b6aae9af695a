-- ===== src/ControlPlane/Tests/Working.antt =====
-- Runs of the activities of src/control_plane/scheduler.py, and of the workflow on a worker.
use mathlib.Core.Option.{map as map_option, some-injective}
use aegis_os.Prelude.{
  contains, ℕ, String, ◌≡◌, ◌==◌, ◌⊎◌, string_eq, if◌then◌else◌, refl, ap, true, some, none, [],
  ◌∷◌, List, Option,
}
use aegis_os.Prelude.Int.{pos}
use aegis_os.Audit.{new_logger, stage_event}
use aegis_os.Samples.{text_jose, settings, text_proofs, tools, opa, jwk}
use aegis_os.Decimal.{add, sub, mul, less, max, div_ℕ}
use aegis_os.Governance.ReplayStore.{micros}
use aegis_os.Governance.Session.{new_manager}
use aegis_os.Watchdog.Budget.{
  BudgetSession, HistoryEntry, restore_from_history, record_tokens, settle, resolve_cost_per_token,
}
use aegis_os.Watchdog.Budget.Ledger.{firsts, total_tokens}
use aegis_os.Dict.{get, put}
use aegis_os.Watchdog.Loop.{LoopDetector, LoopSignal, create_context}
use aegis_os.Watchdog.Loop.Runs.{StepCall}
use aegis_os.ControlPlane.Records.{
  LlmInvokeInput, LlmInvokeResult, BudgetRecordInput, BudgetRecordResult, LoopRecordInput,
}
use aegis_os.ControlPlane.Steps.{Result, returned, raised, handle, ◌>>=◌, ◌>>◌, continue, recover}
use aegis_os.ControlPlane.Orchestrator.{LlmResponse, completed}
use aegis_os.ControlPlane.Activities.{
  Env, Error, Info, Worker, require_task_id, uuid_or_raise, in_budget, from_budget, log, reading,
  in_audit, after_audit,
}
use aegis_os.ControlPlane.Activities.Screening.{
  pre_pii_scrub, policy_eval, post_sanitize, record_event,
}
use aegis_os.ControlPlane.Activities.Invocation.{jit_token_issue, llm_invoke}
use aegis_os.ControlPlane.Activities.Invocation.Sending.{Sent, llm_invoke-Sent}
use aegis_os.ControlPlane.Activities.Spending.{
  budget_pre_check, budget_record_spend, operation_id, spend_restored, spend_charged,
  spend_recorded,
}
use aegis_os.ControlPlane.Activities.Spending.History.{
  Recorded, ids_of, budget_record_spend-Recorded, budget_record_spend-again,
}
use aegis_os.ControlPlane.Activities.Looping.Sequence.{resumed, lived, resumed-create_context}
use aegis_os.ControlPlane.Inputs.{Activities, LlmOutcome, answered, failed}
use aegis_os.ControlPlane.Workflow.{run}
use aegis_os.ControlPlane.Workflow.Outcome.{Returns, Refused}
use aegis_os.ControlPlane.Workflow.Requests.{requests}
use aegis_os.ControlPlane.Hosting.{Hosted, RunShielded, Delivered, run-RunShielded, run-Delivered}
use aegis_os.ControlPlane.Tests.{task, outside, cents}

abbrev response : LlmResponse
response = record {
  content = "anna@example.org";
  tokens_used = 12;
  model = "gpt-4o-mini";
  provider = "openai";
  finish_reason = "stop";
}

-- The n-th reading of the clock is n seconds, and a session has the text "b-1" or "l-1".
abbrev uuid_of : String → Option ℕ
uuid_of t = if t == "b-1" then some 1 else if t == "l-1" then some 2 else none

abbrev env : Env
env = record {
  jose = text_jose;
  settings = settings;
  proofs = text_proofs;
  tools = tools;
  opa = opa;
  complete = λ q m. (m, completed response);
  outbound_request_binding = λ q. some ("POST", "/run");
  clock = micros;
  uuid4 = λ n. "jti-1";
  key_pair = λ n. ("pem", jwk);
  uuid = uuid_of;
  traceparent = λ span parent. "";
  message = λ err. "";
  max_agent_steps = 10;
  max_token_velocity = 1000;
}

abbrev start : Worker
start = record {
  sessions = new_manager;
  audit = new_logger;
  budget = record {
    sessions = [];
    budget_remaining = [];
    tokens_consumed = [];
    audit = new_logger;
  };
  sent = [];
  readings = 1;
}

abbrev value_of : {A : Type 0} → Result Error A → Option A
value_of (returned a) = some a
value_of (raised err) = none

abbrev outcome_of : Result Error LlmInvokeResult → LlmOutcome
outcome_of (returned r) = answered r
outcome_of (raised err) = failed none "MAXIMUM_ATTEMPTS_REACHED"

abbrev first_try : Info
first_try = record { workflow_id = some "task-1"; activity_id = "4"; retries = 0 }

-- Each activity runs once, on a worker in its first state.
abbrev on_worker : Activities
on_worker = record {
  pre_pii_scrub = λ i. value_of (pre_pii_scrub env i start).1;
  policy_eval = λ i. value_of (policy_eval env i start).1;
  jit_token_issue = λ i. value_of (jit_token_issue env i start).1;
  budget_pre_check =
      λ i. map_option (λ r. r.snapshot.cost_usd) (value_of (budget_pre_check env i start).1);
  llm_invoke = λ i. outcome_of (llm_invoke env first_try i start).1;
  budget_record_spend = λ i.
      map_option (λ r. r.snapshot.cost_usd)
        (value_of (budget_record_spend env first_try i start).1);
  post_sanitize = λ i. value_of (post_sanitize env i start).1;
  workflow_audit = λ i. value_of (record_event env i start).1;
}

attempt :
    {A : Type 0} (c : Worker × Result Error A) (a : A)
    → value_of c.1 ≡ some a
    → c ≡ (c.0, returned a)
attempt (st', returned b) a h = ap (λ x. (st', returned x)) (some-injective _ _ h)
attempt (st', raised err) a h = cc (h)

answered-injective : (l r : LlmInvokeResult) → answered l ≡ answered r → l ≡ r
answered-injective l r h = cc (h)

reply :
    (c : Worker × Result Error LlmInvokeResult) (l : LlmInvokeResult)
    → outcome_of c.1 ≡ answered l
    → c ≡ (c.0, returned l)
reply (st', returned r) l h = ap (λ x. (st', returned x)) (answered-injective r l h)
reply (st', raised err) l h = cc (h)

hosted : Hosted env on_worker
hosted = record {
  scrubs = λ i s h. (start, (pre_pii_scrub env i start).0, attempt (pre_pii_scrub env i start) s h);
  evaluates = λ i p h. (start, (policy_eval env i start).0, attempt (policy_eval env i start) p h);
  issues =
      λ i t h. (start, (jit_token_issue env i start).0, attempt (jit_token_issue env i start) t h);
  invokes = λ i l h. (
    first_try,
    start,
    (llm_invoke env first_try i start).0,
    reply (llm_invoke env first_try i start) l h,
  );
  sanitizes =
      λ i r h. (start, (post_sanitize env i start).0, attempt (post_sanitize env i start) r h);
}

run-RunShielded_example :
    RunShielded env on_worker outside task (requests (run on_worker outside task).0.executed)
run-RunShielded_example = run-RunShielded env on_worker outside task hosted

abbrev question : LlmInvokeInput
question = record {
  task_id = "task-1";
  token = "jti-1";
  sanitized_prompt = "pay 10";
  agent_type = "finance";
  requester_id = "tim";
  model = "gpt-4o-mini";
  max_tokens = 1024;
  temperature = record { coefficient = pos 7; scale = 1 };
  system_prompt = "";
  protect_outbound_request = true;
  session_id = none;
  allowed_actions = "llm:complete" ∷ [];
  role = none;
  rotation_key = none;
  protected_private_key_pem = some "pem";
  protected_public_jwk = some jwk;
  traceparent = none;
}

-- The second attempt, of a request that is to be protected.
llm_invoke-Sent_example :
    Sent env
      (record first_try { retries = 1 })
      question
      []
      (llm_invoke env (record first_try { retries = 1 }) question start)
llm_invoke-Sent_example = llm_invoke-Sent env (record first_try { retries = 1 }) question start

abbrev spend : BudgetRecordInput
spend = record {
  task_id = "task-1";
  agent_type = "finance";
  budget_session_id = "b-1";
  budget_limit_usd = cents 100;
  tokens_used = 12;
  cost_per_token_usd = cents 1;
  history = [];
  traceparent = none;
}

abbrev entry : HistoryEntry
entry = record { operation_id = "task-1:4"; amount_usd = cents 12; tokens_used = 12 }

abbrev snapshot : BudgetSession
snapshot = record {
  session_id = 1;
  agent_type = "finance";
  budget_limit_usd = cents 100;
  tokens_used = 12;
  cost_usd = cents 12;
  alerts = [];
  applied_operation_ids = "task-1:4" ∷ [];
}

abbrev spent : BudgetRecordResult
spent = record { snapshot = snapshot; history = entry ∷ [] }

first_spend :
    budget_record_spend env first_try spend start
    ≡ ((budget_record_spend env first_try spend start).0, returned spent)
unfolding budget_record_spend require_task_id handle uuid_or_raise spend_restored spend_charged
    spend_recorded in_budget from_budget log reading in_audit after_audit ◌>>=◌ ◌>>◌ continue
    recover restore_from_history record_tokens settle get put contains add sub mul less max
    stage_event
first_spend = refl

-- The cost is of the same value: it is replayed from the entry.
abbrev respent : BudgetRecordResult
respent = record {
  snapshot = record snapshot {
    cost_usd = record { coefficient = pos 1200000000000000000000000000; scale = 28 };
  };
  history = entry ∷ [];
}

second_spend : budget_record_spend env first_try (record spend { history = entry ∷ [] }) start ≡ (
  (budget_record_spend env first_try (record spend { history = entry ∷ [] }) start).0,
  returned respent,
)
unfolding budget_record_spend require_task_id handle uuid_or_raise spend_restored spend_charged
    spend_recorded in_budget from_budget log reading in_audit after_audit ◌>>=◌ ◌>>◌ continue
    recover restore_from_history record_tokens settle get put contains add sub mul less max
    stage_event div_ℕ resolve_cost_per_token
second_spend = refl

budget_record_spend-again_example :
    (respent.history ≡ spent.history) × (respent.snapshot.tokens_used ≡ spent.snapshot.tokens_used)
budget_record_spend-again_example =
    budget_record_spend-again env first_try spend start _ start _ first_spend second_spend

budget_record_spend-Recorded_example :
    Recorded env first_try spend spent
    × (spent.snapshot.tokens_used ≡ total_tokens (firsts [] spent.history))
    × (contains (ids_of (firsts [] spent.history)) (operation_id first_try) ≡ true)
budget_record_spend-Recorded_example =
    budget_record_spend-Recorded env first_try spend start _ first_spend

abbrev loop_input : LoopRecordInput
loop_input = record {
  task_id = "task-1";
  agent_type = "finance";
  loop_session_id = "l-1";
  token_delta = 0;
  signal = LoopSignal.progress;
  description = "";
  checkpoint = none;
  max_agent_steps = some 2;
  max_token_velocity = none;
  traceparent = none;
}

abbrev detector : LoopDetector
detector = record {
  max_agent_steps = 2;
  max_token_velocity = 1000;
  contexts = [];
  audit = new_logger;
}

abbrev idle : StepCall
idle = record { token_delta = 5; signal = LoopSignal.no_progress; description = "" }

-- Two steps without progress, of which the second is halted.
abbrev calls : List (StepCall × Worker)
calls = (idle, start) ∷ (idle, record start { readings = 9 }) ∷ (idle, start) ∷ []

resumed-create_context_example :
    resumed env loop_input calls none ≡ lived env 2 calls (create_context 2 "finance" detector).0
resumed-create_context_example =
    resumed-create_context env loop_input 2 (λ empty. cc (empty)) refl calls detector refl refl

run-Delivered_example :
    Returns
      (λ out. Refused on_worker outside task out ⊎ Delivered env on_worker outside task out)
      (run on_worker outside task)
run-Delivered_example = run-Delivered env on_worker outside task hosted
