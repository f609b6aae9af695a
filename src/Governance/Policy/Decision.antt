-- ===== src/Governance/Policy/Decision.antt =====
-- src/governance/policy_engine/opa_client.py: when a request is allowed.
use aegis_os.Prelude.{ℕ, ◌≡◌, refl, ◌↔◌, true, false, none, some, arith}
use aegis_os.Governance.Policy.{
  PolicyResult, OpaDocument, Posted, connect_error, timed_out, transport_error, response, returned,
  evaluate, is_success,
}

-- The engine returns a result only for an answer of success with a body; it allows the request
-- exactly if the document says so, and the action of a denial is "reject" unless the document names
-- another. Nothing else returns a result.
pub evaluate-returned :
    (posted : Posted) {r : PolicyResult}
    → evaluate posted ≡ returned r
    → (status : ℕ) × (d : OpaDocument) × (posted ≡ response status (some d))
      × (is_success status ≡ true)
      × ((r.allowed ≡ true) ↔ (d.allow ≡ some true))
      × (d.action ≡ none → r.allowed ≡ false → r.action ≡ "reject")
unfolding evaluate
evaluate-returned connect_error h = cc (h)
evaluate-returned timed_out h = cc (h)
evaluate-returned transport_error h = cc (h)
evaluate-returned (response status none) h = ground (arith, h)
evaluate-returned (response status (some d)) h =
    (status, d, refl, ground (arith, h), ground (arith, h), ground (arith, h))
