-- ===== src/Deployment/Monitor/Ask.antt =====
-- backend/src/kosmo/application/integrations/monitor_deployment_status.py: one attempt of the loop,
-- with the renewal of a token that the provider refuses.
use kosmo.Base.{ℕ, ◌+◌, true, Option, none, some, [], ◌∷◌, Result, ok, err, if◌then◌else◌}
use kosmo.Base.Text.{Text, codes}
use kosmo.Base.Tables.{update}
use kosmo.Base.Text.{filled}
use kosmo.Deployment.Monitor.{
  Poll, reported, unauthorized, unavailable, Refresh, refreshed, refused, broken, Provider, Cipher,
  DeploymentError, authentication_error, api_error, Monitoring, Asked, answered, raised,
}

unfoldable pub renewal_error : DeploymentError
renewal_error =
    authentication_error (codes "Error al renovar el token de despliegue durante el monitoreo.")

module _ (provider : Provider) (cipher : Cipher) (now : ℕ) where
  open provider use {get_service_status, refresh_access_token}
  open cipher use {decrypt, encrypt}

  -- The refresh token that is kept: the new one, if the provider gave one.
  unfoldable pub kept_refresh : Option Text → Option Text → Option Text
  kept_refresh old none = old
  kept_refresh old (some []) = old
  kept_refresh old (some (c ∷ t)) = some (encrypt (c ∷ t))

  -- The credentials with the new tokens, stored.
  unfoldable pub renewed : Monitoring → Refresh → Result DeploymentError Monitoring
  unfolding kept_refresh
  renewed m (refreshed [] new_refresh) =
      err (authentication_error (codes "Fallo al renovar el token de acceso con Railway."))
  renewed m (refreshed (c ∷ t) new_refresh) =
      let i = record m.integration {
        encrypted_token = encrypt (c ∷ t);
        encrypted_refresh_token = kept_refresh m.integration.encrypted_refresh_token new_refresh;
        updated_at = now;
      } in
      ok (record m {
        store = record m.store { integrations = update i.user_id (some i) m.store.integrations };
        integration = i;
        token = c ∷ t;
        token_refreshed = true;
      })
  renewed m (refused e) = err (authentication_error e)
  renewed m (broken e) = err renewal_error

  unfoldable pub renew : Monitoring → Option Text → Result DeploymentError Monitoring
  unfolding renewed
  renew m none = err renewal_error
  renew m (some refresh_token) = renewed m (refresh_access_token refresh_token)

  module _ (service_id : Text) where
    -- A call with renewed credentials, where a refusal is raised.
    unfoldable pub last_answer : Monitoring → Poll → Asked
    last_answer m (reported r) = answered r m
    last_answer m (unauthorized e) = raised (authentication_error e) m
    last_answer m (unavailable e) = raised (api_error e) m

    unfoldable pub call : Monitoring → Poll
    call m = get_service_status m.calls m.token service_id

    unfoldable pub with_call : Monitoring → Monitoring
    with_call m = record m { calls = m.calls + 1 }

    unfoldable pub ask_again : Monitoring → Result DeploymentError Monitoring → Asked
    unfolding last_answer call with_call
    ask_again m (err e) = raised e m
    ask_again m (ok m') = last_answer (with_call m') (call m')

    unfoldable pub refused_call : Monitoring → Text → Option Text → Asked
    unfolding ask_again renew
    refused_call m e none = raised (authentication_error e) m
    refused_call m e (some refresh_token) =
        if m.token_refreshed
        then raised (authentication_error e) m
        else ask_again m (renew m (decrypt refresh_token))

    unfoldable pub first_answer : Monitoring → Poll → Asked
    unfolding refused_call
    first_answer m (reported r) = answered r m
    first_answer m (unauthorized e) =
        refused_call m e (filled m.integration.encrypted_refresh_token)
    first_answer m (unavailable e) = raised (api_error e) m

    -- One attempt; a renewal of the token does not count as one.
    unfoldable pub ask : Monitoring → Asked
    unfolding first_answer call with_call
    ask m = first_answer (with_call m) (call m)
