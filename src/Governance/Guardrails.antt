-- ===== src/Governance/Guardrails.antt =====
-- src/governance/guardrails.py: masking of personal data and the check for prompt injections. A
-- regular expression is named for its line in the source; matching and Unicode are a parameter.
pub mod Masking
mod Tests
use Prim.Native.String.{◌++◌ as str_append}
use aegis_os.Prelude.{
  String, Bool, true, false, Option, none, some, List, [], ◌∷◌, ◌++◌, if◌then◌else◌,
}

pub data Pattern : Type 0 where
  invisible at_whitespace : Pattern
  email ssn credit_card phone_us ip_address : Pattern
  ignore_previous disregard_prior you_are_now act_as jailbreak dan_mode : Pattern

-- `re`, `unicodedata` and `urllib.parse`.
pub record TextTools : Type 0 where
  pub search : Pattern → String → Bool
  -- the pattern, the replacement and the text
  pub sub : Pattern → String → String → String
  pub nfkc : String → String
  pub unquote : String → String
  pub upper : String → String

-- `_normalize`
pub normalize : TextTools → String → String
normalize tools text =
    tools.sub at_whitespace "@" (tools.unquote (tools.nfkc (tools.sub invisible "" text)))

-- `_PII_PATTERNS`
abbrev pub pii_patterns : List (String × Pattern)
pii_patterns =
    ("email", email)
    ∷ ("ssn", ssn)
    ∷ ("credit_card", credit_card)
    ∷ ("phone_us", phone_us)
    ∷ ("ip_address", ip_address)
    ∷ []

-- `_INJECTION_PATTERNS`
abbrev pub injection_patterns : List Pattern
injection_patterns =
    ignore_previous ∷ disregard_prior ∷ you_are_now ∷ act_as ∷ jailbreak ∷ dan_mode ∷ []

pub record MaskResult : Type 0 where
  pub text : String
  pub found_types : List String

abbrev pub redaction : TextTools → String → String
redaction tools label = str_append "[REDACTED-" (str_append (tools.upper label) "]")

-- The loop of `mask_pii`.
pub mask_all : TextTools → List (String × Pattern) → MaskResult → MaskResult
mask_all tools [] m = m
mask_all tools ((label, pattern) ∷ patterns) m = mask_all tools patterns (
    if tools.search pattern m.text
    then record {
      text = tools.sub pattern (redaction tools label) m.text;
      found_types = m.found_types ++ label ∷ [];
    }
    else m)

-- `mask_pii`
unfoldable pub mask_pii : TextTools → String → MaskResult
unfolding mask_all normalize
mask_pii tools text =
    mask_all tools pii_patterns (record { text = normalize tools text; found_types = [] })

-- `scrub`
unfoldable pub scrub : TextTools → String → MaskResult
unfolding mask_pii
scrub = mask_pii

-- The first pattern that is found.
pub first_match : TextTools → List Pattern → String → Option Pattern
first_match tools [] text = none
first_match tools (pattern ∷ patterns) text =
    let rest = first_match tools patterns text in
    if tools.search pattern text then some pattern else rest

-- `check_prompt_injection`: the pattern of the `PromptInjectionError`, or none.
unfoldable pub check_prompt_injection : TextTools → String → Option Pattern
unfolding first_match
check_prompt_injection tools text = first_match tools injection_patterns text

-- What a check for injections and the masking give together.
pub data Checked (A : Type 0) : Type 0 where
  clean : A → Checked A
  injection : Pattern → Checked A

abbrev after_check : {A : Type 0} → Option Pattern → A → Checked A
after_check none a = clean a
after_check (some pattern) a = injection pattern

-- `sanitize`
unfoldable pub sanitize : TextTools → String → Checked String
unfolding check_prompt_injection mask_pii
sanitize tools text =
    after_check (check_prompt_injection tools text) (MaskResult.text (mask_pii tools text))

pub record AgentInput : Type 0 where
  pub raw_prompt : String
  pub sanitized_prompt : String
  pub pii_found : List String

-- `build_agent_input`
unfoldable pub build_agent_input : TextTools → String → Checked AgentInput
unfolding check_prompt_injection mask_pii
build_agent_input tools raw_prompt =
    let m = mask_pii tools raw_prompt in
    after_check (check_prompt_injection tools raw_prompt)
      (record { raw_prompt = raw_prompt; sanitized_prompt = m.text; pii_found = m.found_types })
