-- ===== src/ControlPlane/Orchestrator/Stages/Ensures.antt =====
-- src/control_plane/orchestrator.py: a stage returns what its body returns.
use aegis_os.Prelude.{String}
pub use aegis_os.ControlPlane.Steps.{
  Returned, Returned-Unit, Ensures, Ensures-Unit, Ensures-pure, Ensures-raise, Ensures->>=,
  Ensures-then, Ensures->>, Ensures-after, Ensures-map, Ensures-handle, Ensures-if,
}
use aegis_os.ControlPlane.Orchestrator.{
  OrchestratorRequest, Error, is_controlled, Env, M, report, on_error, stage,
}

module _ {Token A : Type 0} {P : A → Type 0} where
  module _ (env : Env Token) (task_id : String) (r : OrchestratorRequest Token) where
    pub Ensures-on_error :
        (span key : String) (err : Error) → Ensures P (on_error env task_id r span key err)
    unfolding on_error report
    Ensures-on_error span key err = Ensures->> _ (
        Ensures-if (is_controlled err) (λ h. Ensures-raise err)
          (λ h. Ensures->> _ (Ensures-raise err)))

    pub Ensures-stage :
        (span key : String) {m : M Token A}
        → Ensures P m
        → Ensures P (stage env task_id r span key m)
    unfolding stage
    Ensures-stage span key h = Ensures-handle h (Ensures-on_error span key)
