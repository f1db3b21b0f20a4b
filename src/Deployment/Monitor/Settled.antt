-- ===== src/Deployment/Monitor/Settled.antt =====
-- The polling of a deployment ends: after how many calls, in which status, and what it leaves alone.
use kosmo.Base.{
  Bool, ◌||◌, ℕ, zero, suc, ◌+◌, ◌≤◌, true, false, not, Option, none, some, ◌≡◌, refl, sym, subst,
  ap, ◌∙◌, inl, inr, is_some, Option-cases, Bool-cases, ◌++◌, arith,
}
use kosmo.Base.Text.{Text, text_eq, codes}
use kosmo.Base.Text.{filled}
use kosmo.Deployment.Records.{
  is_terminal, ProjectDeployment, UserDeploymentIntegration, Stores, is_settled, IsRowOf,
}
use kosmo.Deployment.Monitor.{
  Provider, Cipher, DeploymentError, Monitoring, Asked, answered, raised, Ended, ended, heard,
  timed_out,
}
use kosmo.Deployment.Failure.{handle_deployment_failure, handle_deployment_failure-settled}
use kosmo.Deployment.Monitor.Ask.{ask}
use kosmo.Deployment.Monitor.Attempts.{
  IsStored, spent, KeepsAsked, ask-Keeps, heard-IsHeard, timed_out_lem,
}
use kosmo.Deployment.Monitor.Loop.{
  after_attempt, message_of, poll_loop, with_token, nothing_to_do, with_integration,
  with_deployment, monitor_deployment_status, reported_failure, run_monitoring, Recording,
  no_handler, handler_raises, handler_writes,
}

-- How the loop ends for the project: settled exactly if nothing is raised, within the number of
-- calls, the rows of the other projects as they were.
abbrev IsEnded : Text → ℕ → Monitoring → Ended → Type 0
IsEnded p left m e =
    (is_settled (e.stored.deployments p) ≡ not (is_some e.failure))
    × ((e.made ≤ spent m + left)
        × (IsRowOf p (e.stored.deployments p)
            × ((j : Text) → text_eq p j ≡ false → e.stored.deployments j ≡ m.store.deployments j)))

IsStored-settled :
    (p : Text) (m : Monitoring)
    → IsStored p m
    → is_settled (m.store.deployments p) ≡ is_terminal m.deployment.status
IsStored-settled p m (row, key) = ap is_settled row

IsStored-row : (p : Text) (m : Monitoring) → IsStored p m → IsRowOf p (m.store.deployments p)
IsStored-row p m (row, key) = subst (IsRowOf p) (sym row) key

after_attempt-IsEnded :
    (p : Text) (left : ℕ) (rest : Monitoring → Ended) (m : Monitoring) (a : Asked)
    → IsStored p m
    → is_terminal m.deployment.status ≡ false
    → KeepsAsked m a
    → ((m' : Monitoring)
        → IsStored p m'
        → is_terminal m'.deployment.status ≡ false
        → IsEnded p left m' (rest m'))
    → IsEnded p (suc left) m (after_attempt a rest)
unfolding after_attempt ended
after_attempt-IsEnded p left rest m (raised e m') (row, key) open_ (rows, (same, calls)) ih = (
  ap is_settled (ap (λ t. t p) rows ∙ row) ∙ open_,
  (
    omega (arith, calls),
    (subst (IsRowOf p) (sym (ap (λ t. t p) rows ∙ row)) key, λ j other. ap (λ t. t j) rows),
  ),
)
after_attempt-IsEnded p left rest m (answered r m') (row, key) open_ (rows, (same, calls)) ih =
    let stored' : IsStored p m' =
      (ap (λ t. t p) rows ∙ row ∙ ap some (sym same), ap (λ d. d.project_id) same ∙ key) in
    let (stored'', (status, (used, others))) = heard-IsHeard p r m' stored' in
    elim (Bool-cases (is_terminal r.status)) [
      | inl e ↦
          rw (e, after_attempt)
            (
              IsStored-settled p (heard r m') stored'' ∙ ap is_terminal status ∙ e,
              (
                omega (arith, calls, used),
                (
                  IsStored-row p (heard r m') stored'',
                  λ j other. others j other ∙ ap (λ t. t j) rows,
                ),
              ),
            )
      | inr e ↦
          let (settled, (made, (keyed, ne))) =
            ih (heard r m') stored'' (ap is_terminal status ∙ e) in
          rw (e, after_attempt)
            (
              settled,
              (
                omega (arith, calls, used, made),
                (keyed, λ j other. ne j other ∙ others j other ∙ ap (λ t. t j) rows),
              ),
            )
    ]

abbrev pub is_written : Recording → Bool
is_written handler_writes = true
is_written _ = false

reported_failure-settled :
    (recording : Recording) (p : Text) (s : Stores) (e : Option DeploymentError)
    → IsRowOf p (s.deployments p)
    → is_settled (s.deployments p) ≡ not (is_some e)
    → is_settled ((reported_failure recording p s e).deployments p)
      ≡ (not (is_some e) || is_written recording)
unfolding reported_failure
reported_failure-settled recording p s none key h = h
reported_failure-settled no_handler p s (some e) key h = h
reported_failure-settled handler_raises p s (some e) key h = h
reported_failure-settled handler_writes p s (some e) key h =
    handle_deployment_failure-settled p
      (codes "Fallo durante el monitoreo del despliegue: " ++ message_of e) none s key

module _ (provider : Provider) (cipher : Cipher) (now max_attempts delay_seconds : ℕ) where
  poll_loop-IsEnded :
      (p service_id : Text) (left : ℕ) (m : Monitoring)
      → IsStored p m
      → is_terminal m.deployment.status ≡ false
      → IsEnded p left m
          (poll_loop provider cipher now max_attempts delay_seconds service_id left m)
  unfolding poll_loop ended
  poll_loop-IsEnded p service_id zero m stored open_ =
      let (stored', (closed, (used, others))) =
        timed_out_lem p max_attempts delay_seconds m stored open_ in
      (
        IsStored-settled p (timed_out max_attempts delay_seconds m) stored' ∙ closed,
        (
          omega (arith, used),
          (IsStored-row p (timed_out max_attempts delay_seconds m) stored', others),
        ),
      )
  poll_loop-IsEnded p service_id (suc left) m stored open_ =
      after_attempt-IsEnded p left
        (poll_loop provider cipher now max_attempts delay_seconds service_id left) m
        (ask provider cipher now service_id m) stored open_
        (ask-Keeps provider cipher now service_id m)
        (λ m' h k. poll_loop-IsEnded p service_id left m' h k)

  with_token-IsEnded :
      (p : Text) (s : Stores) (d : ProjectDeployment) (service_id : Text)
      (i : UserDeploymentIntegration) (token : Option Text)
      → s.deployments p ≡ some d
      → d.project_id ≡ p
      → is_terminal d.status ≡ false
      → let e = with_token provider cipher now max_attempts delay_seconds s d service_id i token in
        (is_settled (e.stored.deployments p) ≡ not (is_some e.failure))
        × ((e.made ≤ max_attempts + 1)
            × (IsRowOf p (e.stored.deployments p)
                × ((j : Text) → text_eq p j ≡ false → e.stored.deployments j ≡ s.deployments j)))
  unfolding with_token
  with_token-IsEnded p s d service_id i none row key open_ =
      (ap is_settled row ∙ open_, (omega arith, (subst (IsRowOf p) (sym row) key, λ j other. refl)))
  with_token-IsEnded p s d service_id i (some token) row key open_ =
      let (settled, (made, others)) =
        poll_loop-IsEnded p service_id max_attempts
          (record {
            store = s;
            deployment = d;
            integration = i;
            token = token;
            token_refreshed = false;
            calls = 0;
          })
          (row, key) open_ in
      (settled, (omega (arith, made), others))

  -- What a monitoring needs: a deployment of the project in progress, and credentials of the user
  -- that can be read.
  abbrev pub IsWatched :
      Text → Text → Stores → ProjectDeployment → Text → UserDeploymentIntegration → Text → Type 0
  IsWatched p user_id s d service_id i token =
      (s.deployments p ≡ some d)
      × ((d.project_id ≡ p)
          × ((filled d.service_id ≡ some service_id)
              × ((is_terminal d.status ≡ false)
                  × ((s.integrations user_id ≡ some i)
                      × (filled (some i.encrypted_token) ≡ some token)))))

  -- The monitoring of a deployment in progress, with credentials, ends after at most one call of the
  -- provider more than `max_attempts`, whatever the provider answers: it raises nothing exactly if the
  -- stored deployment is then published or failed. The rows of the other projects stay.
  pub monitor_deployment_status-settles :
      (p user_id : Text) (s : Stores) (d : ProjectDeployment) (service_id : Text)
      (i : UserDeploymentIntegration) (encrypted : Text)
      → IsWatched p user_id s d service_id i encrypted
      → let e =
          monitor_deployment_status provider cipher now max_attempts delay_seconds p user_id s in
        (is_settled (e.stored.deployments p) ≡ not (is_some e.failure))
        × ((e.made ≤ max_attempts + 1)
            × (IsRowOf p (e.stored.deployments p)
                × ((j : Text) → text_eq p j ≡ false → e.stored.deployments j ≡ s.deployments j)))
  unfolding monitor_deployment_status with_deployment with_integration
  monitor_deployment_status-settles p user_id s d service_id i encrypted
        (row, (key, (service, (open_, (linked, token))))) =
      rw (row, with_deployment, service, open_, linked, with_integration, token)
        (with_token-IsEnded p s d service_id i (cipher.decrypt encrypted) row key open_)

  -- The task that monitors a deployment in progress, with credentials, and is not cancelled leaves it
  -- published or failed exactly if the monitoring raises nothing or the handler of failures writes its
  -- exception; it is left in progress where the worker has no handler or the handler raises.
  pub run_monitoring-settled :
      (recording : Recording) (p user_id : Text) (s : Stores) (d : ProjectDeployment)
      (service_id : Text) (i : UserDeploymentIntegration) (encrypted : Text)
      → IsWatched p user_id s d service_id i encrypted
      → is_settled (
          (run_monitoring provider cipher now max_attempts delay_seconds recording none p user_id
              s).deployments
            p)
        ≡ (not (
              is_some
                (monitor_deployment_status provider cipher now max_attempts delay_seconds p user_id
                  s).failure)
            || is_written recording)
  unfolding run_monitoring
  run_monitoring-settled recording p user_id s d service_id i encrypted h =
      let (settled, (made, (key, others))) =
        monitor_deployment_status-settles p user_id s d service_id i encrypted h in
      let e =
        monitor_deployment_status provider cipher now max_attempts delay_seconds p user_id s in
      reported_failure-settled recording p e.stored e.failure key settled

  settled-with_deployment :
      (user_id : Text) (s : Stores) (o : Option ProjectDeployment)
      → is_settled o ≡ true
      → with_deployment provider cipher now max_attempts delay_seconds user_id s o ≡ nothing_to_do s
  unfolding with_deployment
  settled-with_deployment user_id s none h = cc
  settled-with_deployment user_id s (some d) h = elim (Option-cases (filled d.service_id)) [
    | inl e ↦ rw (e, with_deployment) refl
    | inr (t, e) ↦ rw (e, with_deployment, h) refl
  ]

  -- Once the handler of failures has recorded the failure of a project, a monitoring of it asks the
  -- provider nothing, changes no row and raises nothing.
  pub monitor_deployment_status-handle_deployment_failure :
      (p user_id message : Text) (logs : Option Text) (s : Stores)
      → IsRowOf p (s.deployments p)
      → let s' = handle_deployment_failure p message logs s in
        let e =
          monitor_deployment_status provider cipher now max_attempts delay_seconds p user_id s' in
        (e.made ≡ 0) × ((e.stored ≡ s') × (e.failure ≡ none))
  unfolding monitor_deployment_status nothing_to_do
  monitor_deployment_status-handle_deployment_failure p user_id message logs s h =
      let s' = handle_deployment_failure p message logs s in
      let e =
        settled-with_deployment user_id s' (s'.deployments p)
          (handle_deployment_failure-settled p message logs s h) in
      (ap (λ x. x.made) e, (ap (λ x. x.stored) e, ap (λ x. x.failure) e))
