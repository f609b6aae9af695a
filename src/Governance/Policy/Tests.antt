-- ===== src/Governance/Policy/Tests.antt =====
-- Runs of src/governance/policy_engine/opa_client.py.
use aegis_os.Prelude.{ℕ, ◌≡◌, ◌↔◌, true, false, some, none, refl, []}
use aegis_os.Governance.Policy.{OpaDocument, PolicyResult, response, returned, is_success, evaluate}
use aegis_os.Governance.Policy.Decision.{evaluate-returned}

-- A document that names no action.
abbrev document : OpaDocument
document = record { allow = some false; reasons = none; action = none; fields = none }

abbrev denial : PolicyResult
denial = record { allowed = false; reasons = []; action = "reject"; fields = [] }

denied : evaluate (response 200 (some document)) ≡ returned denial
unfolding evaluate
denied = refl

evaluate-returned_example :
    (status : ℕ) × (d : OpaDocument) × (response 200 (some document) ≡ response status (some d))
    × (is_success status ≡ true)
    × ((denial.allowed ≡ true) ↔ (d.allow ≡ some true))
    × (d.action ≡ none → denial.allowed ≡ false → denial.action ≡ "reject")
evaluate-returned_example = evaluate-returned (response 200 (some document)) denied
