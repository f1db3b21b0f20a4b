-- ===== src/Deployment/Monitor/Attempts.antt =====
-- What one attempt of the polling loop keeps of the rows, and how many calls it makes.
use kosmo.Base.{
  ℕ, ◌+◌, ◌≤◌, Bool, true, false, Option, none, some, [], ◌∷◌, Result, ok, err, ◌≡◌, refl, sym,
  subst, inl, inr, Bool-cases, if◌then◌else◌, arith,
}
use kosmo.Base.Text.{Text, text_eq}
use kosmo.Base.Tables.{update, update_self, update-ne}
use kosmo.Base.Text.{filled}
use kosmo.Deployment.Records.{
  DeploymentStatus, not_created, building, published, failed, status_eq, is_terminal,
  ProjectDeployment,
}
use kosmo.Deployment.Monitor.{
  Report, Poll, reported, unauthorized, unavailable, Refresh, refreshed, refused, broken, Provider,
  Cipher, DeploymentError, Monitoring, Asked, answered, raised, heard, has_changed, changed,
  saved_deployment, timed_out,
}
use kosmo.Deployment.Monitor.Ask.{
  renewed, renew, last_answer, call, with_call, ask_again, refused_call, first_answer, ask,
}

-- The calls made, and the one that a renewal may still add.
abbrev pub spent : Monitoring → ℕ
spent m = m.calls + (if m.token_refreshed then 0 else 1)

-- The rows of the deployments and the variable stay; at most one call more is spent.
abbrev pub Keeps : Monitoring → Monitoring → Type 0
Keeps m m' =
    (m'.store.deployments ≡ m.store.deployments)
    × ((m'.deployment ≡ m.deployment) × (spent m' ≤ spent m + 1))

abbrev pub KeepsAsked : Monitoring → Asked → Type 0
KeepsAsked m (answered r m') = Keeps m m'
KeepsAsked m (raised e m') = Keeps m m'

module _ (provider : Provider) (cipher : Cipher) (now : ℕ) where
  -- A renewal uses up the one renewal there is.
  abbrev RenewedFrom : Monitoring → Result DeploymentError Monitoring → Type 0
  RenewedFrom m (err e) = Unit
  RenewedFrom m (ok m') =
      (m'.store.deployments ≡ m.store.deployments)
      × ((m'.deployment ≡ m.deployment) × ((m'.calls ≡ m.calls) × (m'.token_refreshed ≡ true)))

  renewed_lem : (m : Monitoring) (r : Refresh) → RenewedFrom m (renewed provider cipher now m r)
  unfolding renewed
  renewed_lem m (refreshed [] t) = tt
  renewed_lem m (refreshed (c ∷ s) t) = (refl, (refl, (refl, refl)))
  renewed_lem m (refused e) = tt
  renewed_lem m (broken e) = tt

  renew_lem : (m : Monitoring) (t : Option Text) → RenewedFrom m (renew provider cipher now m t)
  unfolding renew
  renew_lem m none = tt
  renew_lem m (some t) = renewed_lem m (provider.refresh_access_token t)

  module _ (service_id : Text) where
    last_answer-Keeps :
        (m m' : Monitoring) (a : Poll)
        → Keeps m m'
        → KeepsAsked m (last_answer provider cipher now service_id m' a)
    unfolding last_answer
    last_answer-Keeps m m' (reported r) h = h
    last_answer-Keeps m m' (unauthorized e) h = h
    last_answer-Keeps m m' (unavailable e) h = h

    with_call-Keeps : (m : Monitoring) → Keeps m (with_call provider cipher now service_id m)
    unfolding with_call
    with_call-Keeps m = (refl, (refl, omega arith))

    ask_again-Keeps :
        (m : Monitoring) (r : Result DeploymentError Monitoring)
        → m.token_refreshed ≡ false
        → RenewedFrom (with_call provider cipher now service_id m) r
        → KeepsAsked m (
            ask_again provider cipher now service_id (with_call provider cipher now service_id m) r)
    unfolding ask_again with_call
    ask_again-Keeps m (err e) fresh h = (refl, (refl, omega arith))
    ask_again-Keeps m (ok m') fresh (rows, (row, (calls, used))) =
        last_answer-Keeps m (with_call provider cipher now service_id m')
          (call provider cipher now service_id m')
          (rows, (row, rw (calls, used, fresh) (omega arith)))

    KeepsAsked-if :
        (m : Monitoring) (b : Bool) (x y : Asked)
        → (b ≡ true → KeepsAsked m x)
        → (b ≡ false → KeepsAsked m y)
        → KeepsAsked m (if b then x else y)
    KeepsAsked-if m true x y hx hy = hx refl
    KeepsAsked-if m false x y hx hy = hy refl

    refused_call-Keeps :
        (m : Monitoring) (e : Text) (t : Option Text)
        → KeepsAsked m (
            refused_call provider cipher now service_id
              (with_call provider cipher now service_id m)
              e
              t)
    unfolding refused_call
    refused_call-Keeps m e none = with_call-Keeps m
    refused_call-Keeps m e (some t) =
        let m₁ = with_call provider cipher now service_id m in
        KeepsAsked-if m m₁.token_refreshed _ _ (λ used. with_call-Keeps m)
          (λ fresh.
            ask_again-Keeps m (renew provider cipher now m₁ (cipher.decrypt t))
              (unfold with_call in fresh) (renew_lem m₁ (cipher.decrypt t)))

    first_answer-Keeps :
        (m : Monitoring) (a : Poll)
        → KeepsAsked m (
            first_answer provider cipher now service_id
              (with_call provider cipher now service_id m)
              a)
    unfolding first_answer
    first_answer-Keeps m (reported r) = with_call-Keeps m
    first_answer-Keeps m (unauthorized e) =
        let m₁ = with_call provider cipher now service_id m in
        refused_call-Keeps m e (filled m₁.integration.encrypted_refresh_token)
    first_answer-Keeps m (unavailable e) = with_call-Keeps m

    pub ask-Keeps : (m : Monitoring) → KeepsAsked m (ask provider cipher now service_id m)
    unfolding ask
    ask-Keeps m = first_answer-Keeps m (call provider cipher now service_id m)

status_eq-true : (a b : DeploymentStatus) → status_eq a b ≡ true → a ≡ b
status_eq-true not_created not_created h = refl
status_eq-true building building h = refl
status_eq-true published published h = refl
status_eq-true failed failed h = refl
status_eq-true not_created building h = cc
status_eq-true not_created published h = cc
status_eq-true not_created failed h = cc
status_eq-true building not_created h = cc
status_eq-true building published h = cc
status_eq-true building failed h = cc
status_eq-true published not_created h = cc
status_eq-true published building h = cc
status_eq-true published failed h = cc
status_eq-true failed not_created h = cc
status_eq-true failed building h = cc
status_eq-true failed published h = cc

-- An answer that is no change has the status that the row has.
has_changed-status :
    (r : Report) (d : ProjectDeployment) → has_changed r d ≡ false → r.status ≡ d.status
unfolding has_changed
has_changed-status r d h = elim (Bool-cases (status_eq r.status d.status)) [
  | inl e ↦ status_eq-true r.status d.status e
  | inr e ↦ ground (arith, e, h)
]

-- After a write the row of the project is the variable, and the other rows stay.
abbrev pub IsStored : Text → Monitoring → Type 0
IsStored p m = (m.store.deployments p ≡ some m.deployment) × (m.deployment.project_id ≡ p)

saved_deployment-IsStored :
    (p : Text) (d : ProjectDeployment) (m : Monitoring)
    → d.project_id ≡ p
    → IsStored p (saved_deployment d m)
unfolding saved_deployment
saved_deployment-IsStored p d m e = (
  subst (λ q. update d.project_id (some d) m.store.deployments q ≡ some d) e
      (update_self d.project_id (some d) m.store.deployments),
  e,
)

saved_deployment-ne :
    (p j : Text) (d : ProjectDeployment) (m : Monitoring)
    → d.project_id ≡ p
    → text_eq p j ≡ false
    → (saved_deployment d m).store.deployments j ≡ m.store.deployments j
unfolding saved_deployment
saved_deployment-ne p j d m e other =
    update-ne d.project_id j (some d) m.store.deployments
      (subst (λ q. text_eq q j ≡ false) (sym e) other)

-- What an answer leaves: the row and the variable agree and have the status of the answer.
abbrev pub IsHeard : Text → Report → Monitoring → Monitoring → Type 0
IsHeard p r m m' =
    (IsStored p m')
    × ((m'.deployment.status ≡ r.status)
        × ((spent m' ≡ spent m)
            × ((j : Text) → text_eq p j ≡ false → m'.store.deployments j ≡ m.store.deployments j)))

IsHeard-if :
    (p : Text) (r : Report) (m x y : Monitoring) (b : Bool)
    → (b ≡ true → IsHeard p r m x)
    → (b ≡ false → IsHeard p r m y)
    → IsHeard p r m (if b then x else y)
IsHeard-if p r m x y true hx hy = hx refl
IsHeard-if p r m x y false hx hy = hy refl

pub heard-IsHeard :
    (p : Text) (r : Report) (m : Monitoring) → IsStored p m → IsHeard p r m (heard r m)
unfolding heard
heard-IsHeard p r m (row, key) =
    IsHeard-if p r m _ _ (has_changed r m.deployment)
      (λ e. (
        saved_deployment-IsStored p (changed r m.deployment) m (unfold changed in key),
        (
          unfold saved_deployment changed in refl,
          (
            unfold saved_deployment in refl,
            λ j other.
                saved_deployment-ne p j (changed r m.deployment) m (unfold changed in key) other,
          ),
        ),
      ))
      (λ e. ((row, key), (sym (has_changed-status r m.deployment e), (refl, λ j other. refl))))

-- Without a terminal status at the end of the attempts, the row fails.
pub timed_out_lem :
    (p : Text) (max_attempts delay_seconds : ℕ) (m : Monitoring)
    → IsStored p m
    → is_terminal m.deployment.status ≡ false
    → let m' = timed_out max_attempts delay_seconds m in
      (IsStored p m')
      × ((is_terminal m'.deployment.status ≡ true)
          × ((spent m' ≡ spent m)
              × ((j : Text)
                  → text_eq p j ≡ false
                  → m'.store.deployments j ≡ m.store.deployments j)))
unfolding timed_out
timed_out_lem p max_attempts delay_seconds m (row, key) e = rw e (
  saved_deployment-IsStored p _ m key,
  (
    unfold saved_deployment in refl,
    (unfold saved_deployment in refl, λ j other. saved_deployment-ne p j _ m key other),
  ),
)
