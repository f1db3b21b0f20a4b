-- ===== src/Deployment/Tests.antt =====
-- Runs and instances of the monitoring of deployments.
use kosmo.Base.{
  ◌||◌, ℕ, ◌==◌, Bool-cases, inl, inr, ◌≤◌, true, false, not, Option, none, some, [], ◌≡◌, refl,
  is_some, ltb, if◌then◌else◌,
}
use kosmo.Base.Text.{Text, codes, text_eq}
use kosmo.Base.Tables.{update}
use kosmo.Base.Decimal.{decimal}
use kosmo.Deployment.Records.{
  building, published, failed, ProjectDeployment, UserDeploymentIntegration, Stores, is_settled,
  IsRowOf,
}
use kosmo.Deployment.Active.{
  Polling, idle_polling, start_monitoring, task_done, cleanup, with_task, active_runs,
  is_monitoring, PollsTo, here, later, launching, finishing, cleaning_up, is_monitoring-PollsTo,
}
use kosmo.Deployment.Monitor.{
  reported, unauthorized, refreshed, Provider, Cipher, ended, has_changed, changed,
  saved_deployment, heard, timed_out,
}
use kosmo.Deployment.Monitor.Ask.{
  kept_refresh, renewed, renew, last_answer, call, with_call, ask_again, refused_call, first_answer,
  ask,
}
use kosmo.Deployment.Monitor.Loop.{
  after_attempt, poll_loop, with_token, with_integration, with_deployment,
  monitor_deployment_status, run_monitoring, handler_writes,
}
use kosmo.Deployment.Monitor.Settled.{
  is_written, monitor_deployment_status-settles, run_monitoring-settled,
}

abbrev shop : ProjectDeployment
shop = record {
  project_id = codes "p1";
  service_id = some (codes "s1");
  public_url = none;
  status = building;
  build_logs_url = none;
  error_message = none;
}

abbrev ana : UserDeploymentIntegration
ana = record {
  user_id = codes "u1";
  encrypted_token = codes "old";
  encrypted_refresh_token = some (codes "refresh");
  updated_at = 1;
}

abbrev one_deployment : Stores
one_deployment = record {
  deployments = λ j. if text_eq (codes "p1") j then some shop else none;
  integrations = λ j. if text_eq (codes "u1") j then some ana else none;
}

abbrev plain : Cipher
plain = record { decrypt = λ t. some t; encrypt = λ t. t }

-- A provider that accepts a new token only.
abbrev strict : Provider
strict = record {
  get_service_status = λ n token service_id.
      if text_eq token (codes "new")
      then reported (record {
        status = if ltb n 3 then building else published;
        public_url = some (codes "https://shop");
        logs_or_error = none;
      })
      else unauthorized (codes "401");
  refresh_access_token = λ t. refreshed (codes "new") none;
}

-- A provider that never finishes a build.
abbrev slow : Provider
slow = record {
  get_service_status = λ n token service_id.
      reported (record { status = building; public_url = none; logs_or_error = none });
  refresh_access_token = λ t. refreshed [] none;
}

execute_publishes :
    (monitor_deployment_status strict plain 9 3 10
        (codes "p1")
        (codes "u1")
        one_deployment).stored.deployments
      (codes "p1")
    ≡ some (record shop { status = published; public_url = some (codes "https://shop") })
unfolding monitor_deployment_status with_deployment with_integration with_token poll_loop
    after_attempt ask first_answer call with_call refused_call ask_again renew renewed kept_refresh
    last_answer heard has_changed changed saved_deployment ended update timed_out
execute_publishes = refl

execute_gives_up :
    (monitor_deployment_status slow plain 9 2 10
        (codes "p1")
        (codes "u1")
        one_deployment).stored.deployments
      (codes "p1")
    ≡ some (record shop {
      status = failed;
      error_message =
          some (codes "El despliegue supero el tiempo maximo de espera (20s) sin completarse.");
    })
unfolding monitor_deployment_status with_deployment with_integration with_token poll_loop
    after_attempt ask first_answer call with_call heard has_changed changed saved_deployment ended
    update timed_out decimal
execute_gives_up = refl

monitor_deployment_status-settles_example :
    let e =
      monitor_deployment_status strict plain 9 60 10 (codes "p1") (codes "u1") one_deployment in
    (is_settled (e.stored.deployments (codes "p1")) ≡ not (is_some e.failure))
    × ((e.made ≤ 61)
        × (IsRowOf (codes "p1") (e.stored.deployments (codes "p1"))
            × ((j : Text)
                → text_eq (codes "p1") j ≡ false
                → e.stored.deployments j ≡ one_deployment.deployments j)))
monitor_deployment_status-settles_example =
    monitor_deployment_status-settles strict plain 9 60 10 (codes "p1") (codes "u1") one_deployment
      shop (codes "s1") ana (codes "old") (refl, (refl, (refl, (refl, (refl, refl)))))

run_monitoring-settled_example :
    is_settled (
      (run_monitoring strict plain 9 60 10 handler_writes none
          (codes "p1")
          (codes "u1")
          one_deployment).deployments
        (codes "p1"))
    ≡ (not (
          is_some
            (monitor_deployment_status strict plain 9 60 10
              (codes "p1")
              (codes "u1")
              one_deployment).failure)
        || is_written handler_writes)
run_monitoring-settled_example =
    run_monitoring-settled strict plain 9 60 10 handler_writes (codes "p1") (codes "u1")
      one_deployment shop (codes "s1") ana (codes "old")
      (refl, (refl, (refl, (refl, (refl, refl)))))

abbrev owner : Text → Option Text
owner t = if text_eq t (codes "p1") then some (codes "u1") else none

-- A task that ends, its callback, and a second task.
abbrev second_poll : Polling
second_poll = start_monitoring (cleanup 0 (task_done 0 (start_monitoring idle_polling)))

second_poll_reached : PollsTo idle_polling second_poll
unfolding start_monitoring task_done cleanup
second_poll_reached =
    later (later (later (later here (launching (λ k. refl))) (finishing 0)) (cleaning_up 0))
      (launching quiet)
  where
    quiet : (k : ℕ) → (cleanup 0 (task_done 0 (start_monitoring idle_polling))).ending k ≡ false
    quiet k = elim (Bool-cases (k == 0)) [
      | inl e ↦ rw (e, with_task) refl
      | inr e ↦ rw (e, with_task) refl
    ]

is_monitoring-PollsTo_example : ◌≡◌ {A = ℕ} 1 1 × (is_monitoring second_poll ≡ true)
unfolding start_monitoring task_done cleanup with_task
is_monitoring-PollsTo_example = is_monitoring-PollsTo second_poll 1 1 second_poll_reached refl refl

-- A second task that is started before the callback of the first one: its entry is taken away.
abbrev raced_poll : Polling
raced_poll = cleanup 0 (start_monitoring (task_done 0 (start_monitoring idle_polling)))

raced_poll_runs : raced_poll.running 1 ≡ true
unfolding start_monitoring task_done cleanup is_monitoring active_runs
raced_poll_runs = refl

raced_poll_forgotten : is_monitoring raced_poll ≡ false
unfolding start_monitoring task_done cleanup is_monitoring active_runs
raced_poll_forgotten = refl
