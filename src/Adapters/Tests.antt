-- ===== src/Adapters/Tests.antt =====
-- Runs of the check of src/adapters/base.py, and of an adapter.
use aegis_os.Prelude.Int.{pos}
use aegis_os.Audit.{new_logger}
use aegis_os.Adapters.Providers
use aegis_os.Adapters.Providers.{Document, Env, State, response}
use aegis_os.Adapters.Providers.Vendors.{Vendor, local_with, provider_of, complete_of}
use aegis_os.Adapters.Providers.Posting.{Posted, Carries, complete_of-Posted}
use aegis_os.Prelude.{Option, ◌≡◌, Bool, true, false, some, none, refl, [], ◌∷◌}
use aegis_os.Dict.{get, put, purge, remove}
use aegis_os.Samples.{jose, proofs, settings, reviewer, reviewer_claims}
use aegis_os.Governance.ReplayStore.{micros, register_if_unused}
use aegis_os.Governance.Session.{
  Payload, SessionManager, TokenClaims, new_manager, verification_key, claims_of,
}
use aegis_os.Governance.Session.Validation.{validate_token, is_revoked}
use aegis_os.Governance.Dpop.{validate_dpop_proof, validate_sender_constrained_token}
use aegis_os.Adapters.{
  AegisMetadata, Times, returned, with_both, guarded, require_sender_constrained_request,
}

abbrev metadata : AegisMetadata Payload
metadata = record {
  aegis_protected = some "true";
  aegis_token = some reviewer;
  aegis_dpop_proof = some "proof";
}

abbrev times : Times
times = record {
  t = micros 101;
  purged_at = micros 101;
  checked_at = micros 101;
  now = micros 101;
  decoded_at = micros 101;
  registered_at = micros 101;
}

abbrev none_or : TokenClaims → Option TokenClaims
none_or c = some c

abbrev unset : Bool
unset = false

abbrev spent : SessionManager
spent = record new_manager { replay_store = ("proof-1", micros 401) ∷ [] }

passes :
    require_sender_constrained_request jose proofs settings false metadata "POST" "/run" times
      new_manager
    ≡ (spent, returned (some reviewer_claims))
unfolding require_sender_constrained_request with_both guarded validate_sender_constrained_token
    validate_token validate_dpop_proof get put register_if_unused purge remove verification_key
    is_revoked claims_of
passes = refl

-- The server answers every post with a text and with no count of tokens.
abbrev document : Document
document = record {
  choices = some (record { content = some "done"; finish_reason = none } ∷ []);
  content = none;
  usage = none;
  stop_reason = none;
}

abbrev env : Env Payload
env = record {
  jose = jose;
  proofs = proofs;
  settings = settings;
  require_sender_constrained_tokens = true;
  client = λ q. response 200 (some document);
  clock = λ n. micros 101;
  traceparent = "";
  message = λ err. "";
}

abbrev question : Providers.Request Payload
question = record {
  prompt = "pay 10";
  model = "";
  max_tokens = 1024;
  temperature = record { coefficient = pos 7; scale = 1 };
  system_prompt = "be brief";
  metadata = metadata;
}

abbrev idle : State
idle = record { sessions = new_manager; audit = new_logger; posts = []; readings = 0 }

abbrev llama : Vendor
llama = local_with "http://localhost:11434/v1" "llama3"

complete_of-Posted_example :
    Posted env (provider_of llama) question idle (complete_of env llama question idle)
    × Carries (provider_of llama) question
complete_of-Posted_example = complete_of-Posted env llama question idle
