-- ===== src/Deployment/Monitor.antt =====
-- backend/src/kosmo/application/integrations/monitor_deployment_status.py: polling the provider until
-- a deployment is published or has failed. The provider answers the n-th call; the cipher, with the
-- base64 of its texts, is a parameter, and gives `none` when it raises. The deployment of the project
-- is written by nobody else in the meantime.
pub mod Ask
pub mod Loop
mod Attempts
pub mod Settled
use kosmo.Base.{
  ℕ, zero, suc, ◌*◌, Bool, true, false, not, ◌&&◌, ◌||◌, Option, none, some, List, [], ◌∷◌, ◌++◌,
  Result, ok, err, is_empty, if◌then◌else◌,
}
use kosmo.Base.Text.{Text, codes, text_eq, starts_with}
use kosmo.Base.Decimal.{decimal}
use kosmo.Deployment.Records.{
  DeploymentStatus, failed, status_eq, is_terminal, ProjectDeployment, UserDeploymentIntegration,
  Stores, or_else, or_text, opt_eq,
}
use kosmo.Base.Tables.{update}

-- What `get_service_status` gives: the triple, or one of its exceptions.
pub record Report : Type 0 where
  pub status : DeploymentStatus
  pub public_url : Option Text
  pub logs_or_error : Option Text

pub data Poll : Type 0 where
  reported : Report → Poll
  unauthorized : Text → Poll
  unavailable : Text → Poll

-- `DeploymentOAuthToken`, and what `refresh_access_token` may raise.
pub data Refresh : Type 0 where
  refreshed : Text → Option Text → Refresh
  refused : Text → Refresh
  broken : Text → Refresh

pub record Provider : Type 0 where
  pub get_service_status : ℕ → Text → Text → Poll
  pub refresh_access_token : Text → Refresh

pub record Cipher : Type 0 where
  pub decrypt : Text → Option Text
  pub encrypt : Text → Text

pub data DeploymentError : Type 0 where
  authentication_error : Text → DeploymentError
  api_error : Text → DeploymentError

-- The variables of the loop; `calls` counts the calls of `get_service_status`.
pub record Monitoring : Type 0 where
  pub store : Stores
  pub deployment : ProjectDeployment
  pub integration : UserDeploymentIntegration
  pub token : Text
  pub token_refreshed : Bool
  pub calls : ℕ

-- An answer of the provider, or the exception that leaves the loop.
pub data Asked : Type 0 where
  answered : Report → Monitoring → Asked
  raised : DeploymentError → Monitoring → Asked

-- How the use case ends: what it raises, the rows, and the calls of `get_service_status`.
pub record Ended : Type 0 where
  pub failure : Option DeploymentError
  pub stored : Stores
  pub made : ℕ

unfoldable pub ended : Option DeploymentError → Monitoring → Ended
ended e m = record { failure = e; stored = m.store; made = m.calls }

unfoldable pub has_changed : Report → ProjectDeployment → Bool
has_changed r d =
    not (status_eq r.status d.status)
    || (not (opt_eq r.public_url d.public_url)
        || (status_eq r.status failed && not (opt_eq r.logs_or_error d.error_message)))

-- The message of a failure: the report's, unless it is a link or nothing.
unfoldable pub error_of : Option Text → Option Text → Text
error_of none old = or_text old (codes "Fallo durante el despliegue en Railway.")
error_of (some []) old = or_text old (codes "Fallo durante el despliegue en Railway.")
error_of (some (c ∷ s)) old =
    if starts_with (c ∷ s) (codes "http://") || starts_with (c ∷ s) (codes "https://")
    then or_text old
        (codes "Fallo durante el despliegue en Railway. Revisa los registros de compilación.")
    else c ∷ s

unfoldable pub changed : Report → ProjectDeployment → ProjectDeployment
unfolding error_of
changed r d = record d {
  status = r.status;
  public_url = or_else r.public_url d.public_url;
  build_logs_url =
      if status_eq r.status failed
      then or_else r.logs_or_error d.build_logs_url
      else d.build_logs_url;
  error_message =
      if status_eq r.status failed then some (error_of r.logs_or_error d.error_message) else none;
}

unfoldable pub saved_deployment : ProjectDeployment → Monitoring → Monitoring
saved_deployment d m = record m {
  deployment = d;
  store = record m.store { deployments = update d.project_id (some d) m.store.deployments };
}

-- One answer: the row is written when something has changed.
unfoldable pub heard : Report → Monitoring → Monitoring
unfolding saved_deployment
heard r m = if has_changed r m.deployment then saved_deployment (changed r m.deployment) m else m

unfoldable pub timed_out : ℕ → ℕ → Monitoring → Monitoring
unfolding saved_deployment
timed_out max_attempts delay_seconds m =
    if is_terminal m.deployment.status
    then m
    else saved_deployment
        (record m.deployment {
          status = failed;
          error_message = some (
              codes "El despliegue supero el tiempo maximo de espera ("
              ++ (decimal (max_attempts * delay_seconds) ++ codes "s) sin completarse."));
        })
        m
