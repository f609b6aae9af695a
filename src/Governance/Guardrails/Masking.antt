-- ===== src/Governance/Guardrails/Masking.antt =====
-- src/governance/guardrails.py: what is masked, and what is refused.
use Prim.Native.String.{◌++◌ as str_append}
use mathlib.Core.List.{append-nil, append_assoc}
use aegis_os.Prelude.{
  sym, ap, ◌∙◌, String, ◌≡◌, refl, ◌↔◌, Bool-cases, inl, inr, true, false, Option, none, some, List,
  [], ◌∷◌, ◌++◌,
}
use aegis_os.Governance.Guardrails.{
  Pattern, invisible, at_whitespace, email, ssn, credit_card, phone_us, ip_address, ignore_previous,
  disregard_prior, you_are_now, act_as, jailbreak, dan_mode, TextTools, normalize, pii_patterns,
  injection_patterns, MaskResult, mask_all, mask_pii, first_match, check_prompt_injection,
  redaction, sanitize, after_check, clean,
}

-- No pattern of a list is found in a text.
abbrev pub NoneMatches : TextTools → List Pattern → String → Type 0
NoneMatches tools [] text = Unit {0}
NoneMatches tools (p ∷ ps) text = (tools.search p text ≡ false) × NoneMatches tools ps text

abbrev pub NonePersonal : TextTools → List (String × Pattern) → String → Type 0
NonePersonal tools [] text = Unit {0}
NonePersonal tools ((label, p) ∷ ps) text =
    (tools.search p text ≡ false) × NonePersonal tools ps text

module _ (tools : TextTools) where
  -- The labels that the loop finds, without what it carries.
  detected : List (String × Pattern) → String → List String
  detected [] text = []
  detected ((label, p) ∷ ps) text = elim (tools.search p text) [
    | true ↦ label ∷ detected ps (tools.sub p (redaction tools label) text)
    | false ↦ detected ps text
  ]

  mask_all-found_types :
      (ps : List (String × Pattern)) (m : MaskResult)
      → (mask_all tools ps m).found_types ≡ m.found_types ++ detected ps m.text
  unfolding mask_all detected
  mask_all-found_types [] m = sym (append-nil m.found_types)
  mask_all-found_types ((label, p) ∷ ps) m = elim (Bool-cases (tools.search p m.text)) [
    | inl there ↦
        let masked : MaskResult = record {
          text = tools.sub p (redaction tools label) m.text;
          found_types = m.found_types ++ label ∷ [];
        } in
        rw (there, mask_all, detected)
          (mask_all-found_types ps masked
            ∙ append_assoc m.found_types (label ∷ []) (detected ps masked.text))
    | inr gone ↦ rw (gone, mask_all, detected) (mask_all-found_types ps m)
  ]

  detected-eq-nil :
      (ps : List (String × Pattern)) (text : String)
      → (detected ps text ≡ []) ↔ NonePersonal tools ps text
  unfolding detected
  detected-eq-nil [] text = (λ h. tt, λ h. refl)
  detected-eq-nil ((label, p) ∷ ps) text = elim (Bool-cases (tools.search p text)) [
    | inl there ↦ (λ h. cc (rw (there, detected) at h), λ h. cc (there, h.0))
    | inr gone ↦
        let rest = detected-eq-nil ps text in
        (λ h. (gone, rest.0 (rw (gone, detected) at h)), λ h. rw (gone, detected) (rest.1 h.1))
  ]

  mask_all-none :
      (ps : List (String × Pattern)) (m : MaskResult)
      → NonePersonal tools ps m.text
      → mask_all tools ps m ≡ m
  unfolding mask_all
  mask_all-none [] m h = refl
  mask_all-none ((label, p) ∷ ps) m h = rw h.0 (mask_all-none ps m h.1)

  -- A text is reported as free of personal data exactly if, once normalized, no pattern is found in
  -- it; then it is only normalized.
  pub mask_pii-eq-nil :
      (text : String)
      → ((MaskResult.found_types (mask_pii tools text) ≡ [])
          ↔ NonePersonal tools pii_patterns (normalize tools text))
        × (MaskResult.found_types (mask_pii tools text) ≡ []
            → MaskResult.text (mask_pii tools text) ≡ normalize tools text)
  unfolding mask_pii
  mask_pii-eq-nil text =
      let start : MaskResult = record { text = normalize tools text; found_types = [] } in
      let found = mask_all-found_types pii_patterns start in
      let none_there = detected-eq-nil pii_patterns (normalize tools text) in
      (
        (λ h. none_there.0 (sym found ∙ h), λ h. found ∙ none_there.1 h),
        λ h.
            ap (λ (m : MaskResult). m.text)
              (mask_all-none pii_patterns start (none_there.0 (sym found ∙ h))),
      )

  first_match-eq-none :
      (ps : List Pattern) (text : String)
      → (first_match tools ps text ≡ none) ↔ NoneMatches tools ps text
  unfolding first_match
  first_match-eq-none [] text = (λ h. tt, λ h. refl)
  first_match-eq-none (p ∷ ps) text = elim (Bool-cases (tools.search p text)) [
    | inl there ↦ (λ h. cc (rw there at h), λ h. cc (there, h.0))
    | inr gone ↦
        let rest = first_match-eq-none ps text in
        (λ h. (gone, rest.0 (rw gone at h)), λ h. rw gone (rest.1 h.1))
  ]

  after_check-clean :
      {A : Type 0} (o : Option Pattern) (a : A) {b : A}
      → after_check o a ≡ clean b
      → (o ≡ none) × (a ≡ b)
  after_check-clean none a h = (refl, cc (h))
  after_check-clean (some p) a h = cc (h)

  -- What `sanitize` gives of a text, as the calls of `re.sub` and the other tools.
  abbrev pub redacted : String → String
  redacted text =
      let hide : Pattern → String → String → String =
        λ p label. tools.sub p (str_append "[REDACTED-" (str_append (tools.upper label) "]")) in
      let plain : String =
        tools.sub at_whitespace "@" (tools.unquote (tools.nfkc (tools.sub invisible "" text))) in
      hide ip_address "ip_address" (
        hide phone_us "phone_us"
          (hide credit_card "credit_card" (hide ssn "ssn" (hide email "email" plain))))

  -- `re.sub` gives back a text in which the pattern is not found.
  module _
      (unmatched : (p : Pattern) (new text : String)
        → tools.search p text ≡ false
        → tools.sub p new text ≡ text) where
    masked_by :
        (label : String) (p : Pattern) (ps : List (String × Pattern)) (m : MaskResult)
        → (n : MaskResult) × (mask_all tools ((label, p) ∷ ps) m ≡ mask_all tools ps n)
          × (n.text ≡ tools.sub p (redaction tools label) m.text)
    unfolding mask_all
    masked_by label p ps m = elim (Bool-cases (tools.search p m.text)) [
      | inl there ↦ (
        record {
          text = tools.sub p (redaction tools label) m.text;
          found_types = m.found_types ++ label ∷ [];
        },
        rw there refl,
        refl,
      )
      | inr gone ↦ (m, rw gone refl, sym (unmatched p (redaction tools label) m.text gone))
    ]

    -- Every pattern replaced, one after the other.
    replace_all : List (String × Pattern) → String → String
    replace_all [] text = text
    replace_all ((label, p) ∷ ps) text = replace_all ps (tools.sub p (redaction tools label) text)

    mask_all-replace_all :
        (ps : List (String × Pattern)) (m : MaskResult)
        → (mask_all tools ps m).text ≡ replace_all ps m.text
    unfolding replace_all mask_all
    mask_all-replace_all [] m = refl
    mask_all-replace_all ((label, p) ∷ ps) m =
        let (n, same, text) = masked_by label p ps m in
        ap (λ (r : MaskResult). r.text) same ∙ mask_all-replace_all ps n ∙ ap (replace_all ps) text

    -- `sanitize` gives a text exactly if none of the six patterns of an injection is found in the raw one.
    -- What it gives is the raw text without invisible characters, in its compatibility form, unquoted and
    -- with no blanks around the at sign, in which then every email address, SSN, card number, phone number
    -- and IP address, in this order, is replaced by its label.
    pub sanitize-clean :
        (text s : String)
        → (sanitize tools text ≡ clean s) ↔ (
            NoneMatches tools
              (ignore_previous ∷ disregard_prior ∷ you_are_now ∷ act_as ∷ jailbreak ∷ dan_mode ∷ [])
              text
            × (s ≡ redacted text))
    unfolding sanitize check_prompt_injection mask_pii normalize replace_all
    sanitize-clean text s =
        let whole =
          mask_all-replace_all pii_patterns
            (record { text = normalize tools text; found_types = [] }) in
        let none_there = first_match-eq-none injection_patterns text in
        (
          λ h.
              let (nothing, same) =
                after_check-clean (check_prompt_injection tools text)
                  (MaskResult.text (mask_pii tools text)) h in
              (none_there.0 nothing, sym same ∙ whole),
          λ h. rw (none_there.1 h.0) (ap (λ t. clean t) (whole ∙ sym h.1)),
        )
