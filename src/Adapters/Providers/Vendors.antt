-- ===== src/Adapters/Providers/Vendors.antt =====
-- src/adapters/openai_adapter.py, src/adapters/anthropic_adapter.py, src/adapters/local_llama.py: what their adapters post, and what they read of an answer.
use Prim.Native.String.{◌++◌ as str_append}
use mathlib.Core.Option.{map as map_option}
use aegis_os.Prelude.{
  ℕ, ◌+◌, String, ◌==◌, string_eq, Option, none, some, List, [], ◌∷◌, ◌++◌, if◌then◌else◌,
}
use aegis_os.ControlPlane.Orchestrator.{LlmResponse}
use aegis_os.Adapters.Providers.{
  Request, Message, Payload, Post, Choice, Usage, Document, Provider, Env, M, complete,
}

-- `a or b` of texts, and `d.get(key, default)`
abbrev pub or_default : String → String → String
or_default t default = if t == "" then default else t

abbrev pub get_or {ℓ} : {A : Type ℓ} → A → Option A → A
get_or default none = default
get_or default (some a) = a

abbrev pub user_message : {Token : Type 0} → Request Token → Message
user_message r = record { role = "user"; content = r.prompt }

-- The messages of a chat: the system's, if there is one, and the user's.
abbrev pub chat_messages : {Token : Type 0} → Request Token → List Message
chat_messages r =
    (if r.system_prompt == ""
      then []
      else record { role = "system"; content = r.system_prompt } ∷ [])
    ++ user_message r ∷ []

abbrev pub chat_payload : {Token : Type 0} → String → Request Token → Payload
chat_payload default_model r = record {
  model = or_default r.model default_model;
  max_tokens = r.max_tokens;
  messages = chat_messages r;
  temperature = some r.temperature;
  system = none;
}

abbrev chat_response : String → String → Option ℕ → Option (List Choice) → Option LlmResponse
chat_response name model none choices = none
chat_response name model (some tokens) none = none
chat_response name model (some tokens) (some []) = none
chat_response name model (some tokens) (some (choice ∷ rest)) =
    map_option
      (λ content. record {
        content = content;
        tokens_used = tokens;
        model = model;
        provider = name;
        finish_reason = get_or "stop" choice.finish_reason;
      })
      choice.content

-- `body["usage"]["total_tokens"]`
abbrev usage_total : Option Usage → Option ℕ
usage_total none = none
usage_total (some u) = u.total_tokens

abbrev pub openai_post : {Token : Type 0} → String → String → Request Token → Post
openai_post api_key default_model r = record {
  url = "https://api.openai.com/v1/chat/completions";
  json = chat_payload default_model r;
  headers = ("Authorization", str_append "Bearer " api_key) ∷ [];
}

-- `OpenAIAdapter`
unfoldable pub openai : {Token : Type 0} → String → String → Provider Token
openai api_key default_model = record {
  provider_name = "openai";
  http_method = "POST";
  http_url = "https://api.openai.com/v1/chat/completions";
  payload = openai_post api_key default_model;
  read = λ r d.
      chat_response "openai" (or_default r.model default_model) (usage_total d.usage) d.choices;
}

abbrev pub local_post : {Token : Type 0} → String → String → Request Token → Post
local_post base_url default_model r = record {
  url = str_append base_url "/chat/completions";
  json = chat_payload default_model r;
  headers = [];
}

-- `LocalLlamaAdapter`; the address of its server has no slash at its end.
unfoldable pub local_llama : {Token : Type 0} → String → String → Provider Token
local_llama base_url default_model = record {
  provider_name = "local_llama";
  http_method = "POST";
  http_url = str_append base_url "/chat/completions";
  payload = local_post base_url default_model;
  read = λ r d.
      chat_response "local_llama" (or_default r.model default_model)
        (some (get_or 0 (usage_total d.usage))) d.choices;
}

abbrev input_total : Option Usage → ℕ
input_total none = 0
input_total (some u) = get_or 0 u.input_tokens + get_or 0 u.output_tokens

abbrev block_response : String → Document → Option (List (Option String)) → Option LlmResponse
block_response model d none = none
block_response model d (some []) = none
block_response model d (some (block ∷ rest)) =
    map_option
      (λ content. record {
        content = content;
        tokens_used = input_total d.usage;
        model = model;
        provider = "anthropic";
        finish_reason = get_or "stop" d.stop_reason;
      })
      block

abbrev pub anthropic_post : {Token : Type 0} → String → String → Request Token → Post
anthropic_post api_key default_model r = record {
  url = "https://api.anthropic.com/v1/messages";
  json = record {
    model = or_default r.model default_model;
    max_tokens = r.max_tokens;
    messages = user_message r ∷ [];
    temperature = none;
    system = if r.system_prompt == "" then none else some r.system_prompt;
  };
  headers = ("x-api-key", api_key) ∷ ("anthropic-version", "2023-06-01") ∷ [];
}

-- `AnthropicAdapter`
unfoldable pub anthropic : {Token : Type 0} → String → String → Provider Token
anthropic api_key default_model = record {
  provider_name = "anthropic";
  http_method = "POST";
  http_url = "https://api.anthropic.com/v1/messages";
  payload = anthropic_post api_key default_model;
  read = λ r d. block_response (or_default r.model default_model) d d.content;
}

-- The adapters, as they are configured.
pub data Vendor : Type 0 where
  openai_with anthropic_with : (api_key default_model : String) → Vendor
  local_with : (base_url default_model : String) → Vendor

unfoldable pub provider_of : {Token : Type 0} → Vendor → Provider Token
unfolding openai anthropic local_llama
provider_of (openai_with api_key default_model) = openai api_key default_model
provider_of (anthropic_with api_key default_model) = anthropic api_key default_model
provider_of (local_with base_url default_model) = local_llama base_url default_model

module _ {Token : Type 0} (env : Env Token) where
  -- `OpenAIAdapter.complete`, `AnthropicAdapter.complete` and `LocalLlamaAdapter.complete`
  unfoldable pub openai_complete : String → String → Request Token → M LlmResponse
  unfolding openai
  openai_complete api_key default_model = complete env (openai api_key default_model)

  unfoldable pub anthropic_complete : String → String → Request Token → M LlmResponse
  unfolding anthropic
  anthropic_complete api_key default_model = complete env (anthropic api_key default_model)

  unfoldable pub local_complete : String → String → Request Token → M LlmResponse
  unfolding local_llama
  local_complete base_url default_model = complete env (local_llama base_url default_model)

  unfoldable pub complete_of : Vendor → Request Token → M LlmResponse
  unfolding openai_complete anthropic_complete local_complete
  complete_of (openai_with api_key default_model) = openai_complete api_key default_model
  complete_of (anthropic_with api_key default_model) = anthropic_complete api_key default_model
  complete_of (local_with base_url default_model) = local_complete base_url default_model
