-- ===== src/Deployment/Monitor/Loop.antt =====
-- backend/src/kosmo/application/integrations/monitor_deployment_status.py: the loop and the use case;
-- backend/src/kosmo/infrastructure/integrations/deployment_worker.py: the task that runs it.
use kosmo.Base.{ℕ, zero, suc, true, false, Option, none, some, ◌++◌}
use kosmo.Base.Text.{Text, codes}
use kosmo.Base.Text.{filled}
use kosmo.Deployment.Records.{ProjectDeployment, UserDeploymentIntegration, Stores, is_terminal}
use kosmo.Deployment.Monitor.{
  Provider, Cipher, DeploymentError, authentication_error, api_error, Monitoring, Asked, answered,
  raised, Ended, ended, heard, timed_out,
}
use kosmo.Deployment.Monitor.Ask.{ask}
use kosmo.Deployment.Failure.{handle_deployment_failure}

-- The end of one attempt: the exception, a terminal status, or the rest of the loop.
unfoldable pub after_attempt : Asked → (Monitoring → Ended) → Ended
after_attempt (raised e m) rest = ended (some e) m
after_attempt (answered r m) rest = elim (is_terminal r.status) [
  | true ↦ ended none (heard r m)
  | false ↦ rest (heard r m)
]

unfoldable pub message_of : DeploymentError → Text
message_of (authentication_error t) = t
message_of (api_error t) = t

unfoldable pub nothing_to_do : Stores → Ended
nothing_to_do s = record { failure = none; stored = s; made = 0 }

-- What becomes of the record of a failure: the worker has no handler, the handler raises before it
-- has written, which the task swallows, or it writes.
pub data Recording : Type 0 where
  no_handler : Recording
  handler_raises : Recording
  handler_writes : Recording

-- The end of the task, an exception being handed to the handler of failures.
unfoldable pub reported_failure : Recording → Text → Stores → Option DeploymentError → Stores
unfolding message_of handle_deployment_failure
reported_failure recording project_id s none = s
reported_failure no_handler project_id s (some e) = s
reported_failure handler_raises project_id s (some e) = s
reported_failure handler_writes project_id s (some e) =
    handle_deployment_failure project_id
      (codes "Fallo durante el monitoreo del despliegue: " ++ message_of e) none s

module _ (provider : Provider) (cipher : Cipher) (now max_attempts delay_seconds : ℕ) where
  -- The loop, with the attempts that are left.
  unfoldable pub poll_loop : Text → ℕ → Monitoring → Ended
  poll_loop service_id zero m = ended none (timed_out max_attempts delay_seconds m)
  poll_loop service_id (suc left) m =
      after_attempt (ask provider cipher now service_id m) (poll_loop service_id left)

  -- `execute` from line 65 on.
  unfoldable pub with_token :
      Stores → ProjectDeployment → Text → UserDeploymentIntegration → Option Text → Ended
  with_token s d service_id i none = record {
    failure = some (authentication_error (codes "Error al descifrar el token de despliegue."));
    stored = s;
    made = 0;
  }
  with_token s d service_id i (some token) = poll_loop service_id max_attempts (record {
    store = s;
    deployment = d;
    integration = i;
    token = token;
    token_refreshed = false;
    calls = 0;
  })

  unfoldable pub with_integration :
      Stores → ProjectDeployment → Text → Option UserDeploymentIntegration → Ended
  unfolding with_token nothing_to_do
  with_integration s d service_id none = nothing_to_do s
  with_integration s d service_id (some i) = elim (filled (some i.encrypted_token)) [
    | none ↦ nothing_to_do s
    | some encrypted ↦ with_token s d service_id i (cipher.decrypt encrypted)
  ]

  unfoldable pub with_deployment : Text → Stores → Option ProjectDeployment → Ended
  unfolding with_integration nothing_to_do
  with_deployment user_id s none = nothing_to_do s
  with_deployment user_id s (some d) = elim (filled d.service_id) [
    | none ↦ nothing_to_do s
    | some service_id ↦ elim (is_terminal d.status) [
      | true ↦ nothing_to_do s
      | false ↦ with_integration s d service_id (s.integrations user_id)
    ]
  ]

  -- `MonitorDeploymentStatusUseCase.execute`.
  unfoldable pub monitor_deployment_status : Text → Text → Stores → Ended
  unfolding with_deployment
  monitor_deployment_status project_id user_id s =
      with_deployment user_id s (s.deployments project_id)

  -- `_run` of `DeploymentPollingWorker.start_monitoring`. A task that is cancelled leaves what it has
  -- stored by then, which is an argument.
  unfoldable pub run_monitoring : Recording → Option Stores → Text → Text → Stores → Stores
  unfolding monitor_deployment_status reported_failure
  run_monitoring recording (some by_then) project_id user_id s = by_then
  run_monitoring recording none project_id user_id s =
      let e = monitor_deployment_status project_id user_id s in
      reported_failure recording project_id e.stored e.failure
