-- ===== src/ControlPlane/Tests/Pipeline.antt =====
-- Runs of the pipeline of src/control_plane/orchestrator.py and of its route.
use aegis_os.Prelude.{true, some, none, refl, []}
use aegis_os.Prelude.Int.{pos}
use aegis_os.Audit.{new_logger}
use aegis_os.Samples.{jose, settings, proofs, tools, opa, jwk}
use aegis_os.Governance.ReplayStore.{micros}
use aegis_os.Governance.Session.{Payload, new_manager}
use aegis_os.ControlPlane.Orchestrator.{OrchestratorRequest, LlmResponse, completed, State, Env}
use aegis_os.ControlPlane.Orchestrator.Stages.Run.{run}
use aegis_os.ControlPlane.Orchestrator.Stages.Counting.{Tally, run-Tally}
use aegis_os.ControlPlane.Orchestrator.Stages.Sends.{Sent}
use aegis_os.ControlPlane.Orchestrator.Stages.Dispatch.{Sanctioned, Reported, run-Sent}
use aegis_os.ControlPlane.Router.{TaskRequest, finance, pipeline_request, execution_of}

abbrev answer : LlmResponse
answer = record {
  content = "anna@example.org";
  tokens_used = 12;
  model = "gpt-4o-mini";
  provider = "openai";
  finish_reason = "stop";
}

-- The n-th reading of the clock is n seconds.
abbrev env : Env Payload
env = record {
  jose = jose;
  settings = settings;
  proofs = proofs;
  tools = tools;
  opa = opa;
  complete = λ q m. (m, completed answer);
  outbound_request_binding = λ q. some ("POST", "/run");
  clock = micros;
  uuid4 = λ n. "jti-1";
  key_pair = λ n. ("pem", jwk);
  traceparent = λ span. "";
  message = λ err. "";
}

abbrev task : TaskRequest
task = record {
  task_id = "task-1";
  prompt = "pay 10";
  description = "";
  agent_type = finance;
  requester_id = "tim";
  model = "gpt-4o-mini";
  max_tokens = 1024;
  temperature = record { coefficient = pos 7; scale = 1 };
  system_prompt = "";
  metadata = [];
  protect_outbound_request = true;
}

abbrev start : State Payload
start = record {
  sessions = new_manager;
  audit = new_logger;
  budget = none;
  loop = none;
  errors = [];
  sent = [];
  readings = 0;
}

abbrev request : OrchestratorRequest Payload
request = pipeline_request (record { coefficient = pos 2; scale = 6 }) (execution_of task)

run-Sent_example : Sent (Sanctioned env request) (Reported env request) [] (run env request start)
run-Sent_example = run-Sent env request start

run-Tally_example : Tally "finance" [] (run env request start)
run-Tally_example = run-Tally env request start refl
