-- ===== src/Governance/Policy.antt =====
-- src/governance/policy_engine/opa_client.py: the evaluation of a policy by OPA. What the HTTP
-- client gets is a parameter.
pub mod Decision
mod Tests
use aegis_os.Prelude.{
  ℕ, String, Bool, true, false, not, ◌&&◌, Option, none, some, List, [], leb, ltb, if◌then◌else◌,
}
use aegis_os.Dict.{Dict}

pub record PolicyInput : Type 0 where
  pub agent_type : String
  pub requester_id : String
  pub action : String
  pub resource : String
  pub metadata : Dict String String
  pub principal_role : Option String
  pub token_expired : Bool

pub record PolicyResult : Type 0 where
  pub allowed : Bool
  pub reasons : List String
  pub action : String
  pub fields : List String

-- The object "result" of an answer, with the keys that it may lack; an answer without one is the
-- empty object. Of "allow" it is the truth value, as the source reads it.
pub record OpaDocument : Type 0 where
  pub allow : Option Bool
  pub reasons : Option (List String)
  pub action : Option String
  pub fields : Option (List String)

-- What posting the input does: no connection, no answer in time, another
-- error of the transport, or an answer with its status, whose
-- body may be no JSON.
pub data Posted : Type 0 where
  connect_error timed_out transport_error : Posted
  response : ℕ → Option OpaDocument → Posted

-- `OpaUnavailableError`, another error of the transport, `httpx.HTTPStatusError`, and the error of a body that is no JSON
pub data Error : Type 0 where
  opa_unavailable : Error
  transport : Error
  http_status : ℕ → Error
  bad_body : Error

pub data Result (A : Type 0) : Type 0 where
  returned : A → Result A
  raised : Error → Result A

abbrev or_else {ℓ} : {A : Type ℓ} → A → Option A → A
or_else default none = default
or_else default (some a) = a

-- `raise_for_status` lets the statuses of success pass.
abbrev pub is_success : ℕ → Bool
is_success status = leb 200 status && ltb status 300

-- `result.get("action", default_action)` and its like
pub result_of : OpaDocument → PolicyResult
result_of d =
    let allowed = or_else false d.allow in
    record {
      allowed = allowed;
      reasons = or_else [] d.reasons;
      action = or_else (if not allowed then "reject" else "allow") d.action;
      fields = or_else [] d.fields;
    }

read_body : Option OpaDocument → Result PolicyResult
unfolding result_of
read_body none = raised bad_body
read_body (some d) = returned (result_of d)

-- `evaluate`
unfoldable pub evaluate : Posted → Result PolicyResult
unfolding read_body
evaluate connect_error = raised opa_unavailable
evaluate timed_out = raised opa_unavailable
evaluate transport_error = raised transport
evaluate (response status body) =
    if leb 500 status
    then raised opa_unavailable
    else if is_success status
    then read_body body
    else raised (http_status status)

abbrev allowed_of : Result PolicyResult → Result Bool
allowed_of (returned r) = returned r.allowed
allowed_of (raised err) = raised err

-- `is_allowed`
unfoldable pub is_allowed : Posted → Result Bool
unfolding evaluate
is_allowed posted = allowed_of (evaluate posted)
