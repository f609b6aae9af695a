-- ===== src/Governance/Guardrails/Tests.antt =====
-- Runs of src/governance/guardrails.py with patterns that match one text each.
use aegis_os.Prelude.{String, string_eq, ◌≡◌, ◌↔◌, refl, if_false, false, [], ◌∷◌}
use aegis_os.Governance.Guardrails.{
  Pattern, ignore_previous, disregard_prior, you_are_now, act_as, jailbreak, dan_mode, clean,
  sanitize,
}
use aegis_os.Samples.{tools}
use aegis_os.Governance.Guardrails.Masking.{NoneMatches, redacted, sanitize-clean}

unmatched :
    (p : Pattern) (new text : String) → tools.search p text ≡ false → tools.sub p new text ≡ text
unmatched p new text h = if_false new text h

sanitize-clean_example : (sanitize tools "anna@example.org" ≡ clean "[REDACTED-email]") ↔ (
    NoneMatches tools
      (ignore_previous ∷ disregard_prior ∷ you_are_now ∷ act_as ∷ jailbreak ∷ dan_mode ∷ [])
      "anna@example.org"
    × ("[REDACTED-email]" ≡ redacted tools "anna@example.org"))
sanitize-clean_example = sanitize-clean tools unmatched "anna@example.org" "[REDACTED-email]"

masked : sanitize tools "anna@example.org" ≡ clean "[REDACTED-email]"
unfolding sanitize
masked = refl
