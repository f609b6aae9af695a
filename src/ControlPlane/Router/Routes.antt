-- ===== src/ControlPlane/Router/Routes.antt =====
-- src/control_plane/router.py: what a client is told of a task, and what the pipeline did for it.
use aegis_os.Prelude.{
  ℕ, String, string_eq, ◌≡◌, ◌⊎◌, inl, inr, refl, some, [], ◌∷◌, ◌++◌, contains, ◌||◌,
}
use aegis_os.Decimal.{Decimal}
use aegis_os.ControlPlane.Orchestrator.{
  OrchestratorRequest, LlmRequest, OrchestratorResult, Kind, permission, value, other, Error,
  budget_limit, State, Result, returned, raised, Env,
}
use aegis_os.ControlPlane.Orchestrator.Stages.Counting.{Tally, run-Tally}
use aegis_os.ControlPlane.Orchestrator.Stages.Sends.{Sent}
use aegis_os.ControlPlane.Orchestrator.Stages.Dispatch.{Sanctioned, Reported, run-Sent}
use aegis_os.ControlPlane.Router.{
  http_error, uncaught, Reply, replied, failed, TaskResponse, ExecuteRequest, kind_of,
  status_of_kind, status_of, pipeline_request, reply, execute_task,
}

-- The statuses of a task that failed.
abbrev pub IsFailure : ℕ → Type 0
IsFailure status = (status ≡ 403) ⊎ (status ≡ 400) ⊎ (status ≡ 500) ⊎ (status ≡ 429)

status_of_kind-IsFailure : (kind : Kind) → IsFailure (status_of_kind kind)
status_of_kind-IsFailure permission = inl refl
status_of_kind-IsFailure value = inr (inl refl)
status_of_kind-IsFailure other = inr (inr (inl refl))

status_of-IsFailure : (err : Error) → IsFailure (status_of err)
unfolding status_of
status_of-IsFailure (budget_limit a) = inr (inr (inr refl))
status_of-IsFailure err = status_of_kind-IsFailure (kind_of err)

module _ {Token : Type 0} (env : Env Token) (r : OrchestratorRequest Token) where
  -- A reply comes of the one request that was sent and of its answer, whose text is masked; a failure
  -- has been counted once. There is no other end.
  abbrev pub Routed :
      {B : Type 0}
      → (B → OrchestratorResult Token → Type 0)
      → State Token
      → State Token × Reply B
      → Type 0
  Routed P st (st', replied b) =
      (st'.errors ≡ st.errors)
      × ((result : OrchestratorResult Token) × P b result
          × ((q : LlmRequest Token) × (st'.sent ≡ st.sent ++ q ∷ [])
              × Sanctioned env r q
              × Reported env r result q))
  Routed P st (st', failed (http_error status)) =
      IsFailure status × ((key : String) × (st'.errors ≡ (key, r.agent_type) ∷ st.errors))
  Routed P st (st', failed uncaught) = ⊥

  reply-Routed :
      {B : Type 0} (f : OrchestratorResult Token → B) (P : B → OrchestratorResult Token → Type 0)
      (st : State Token) (c : State Token × Result (OrchestratorResult Token))
      → ((result : OrchestratorResult Token) → P (f result) result)
      → Tally r.agent_type st.errors c
      → Sent (Sanctioned env r) (Reported env r) st.sent c
      → Routed P st (reply f c)
  unfolding reply Tally Sent
  reply-Routed f P st (st', returned result) h tally sent = (tally, (result, h result, sent))
  reply-Routed f P st (st', raised err) h tally sent = (status_of-IsFailure err, tally)

module _ {Token : Type 0} (env : Env Token) (cost : Decimal) where
  -- The reply of `execute_task` is the result of the pipeline.
  pub execute_task-Routed :
      (r : ExecuteRequest Token) (st : State Token)
      → Routed env
          (pipeline_request cost r)
          (λ shown result. shown ≡ result)
          st
          (execute_task cost (some env) r st)
  unfolding execute_task
  execute_task-Routed r st =
      reply-Routed env (pipeline_request cost r) _ _ st _ (λ result. refl)
        (run-Tally env (pipeline_request cost r) st refl)
        (run-Sent env (pipeline_request cost r) st)

-- A response shows the result of the pipeline, and the kinds of personal data that were found in the
-- prompt or in the answer.
abbrev pub Shown : {Token : Type 0} → TaskResponse Token → OrchestratorResult Token → Type 0
Shown response result =
    (response.message ≡ result.response.content)
    × (response.session_token ≡ result.session_token)
    × ((label : String)
        → contains response.pii_found label ≡ (
            contains result.pii_found_in_prompt label
            || contains result.pii_found_in_response label))
