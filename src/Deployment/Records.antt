-- ===== src/Deployment/Records.antt =====
-- backend/src/kosmo/contracts/integrations/deployment.py: the deployment of a project and the
-- credentials of a user, less what the use cases of this directory neither read nor write.
use kosmo.Base.{ℕ, Bool, true, false, Option, none, some, [], ◌∷◌, ◌≡◌}
use kosmo.Base.Text.{Text, text_eq}
use kosmo.Base.Tables.{Table}

pub data DeploymentStatus : Type 0 where
  not_created building published failed : DeploymentStatus

abbrev pub status_eq : DeploymentStatus → DeploymentStatus → Bool
status_eq not_created not_created = true
status_eq building building = true
status_eq published published = true
status_eq failed failed = true
status_eq _ _ = false

-- `status in (DeploymentStatus.PUBLISHED, DeploymentStatus.FAILED)`.
abbrev pub is_terminal : DeploymentStatus → Bool
is_terminal published = true
is_terminal failed = true
is_terminal _ = false

-- There is one provider, Railway, so the rows of a user need no second key.
pub record ProjectDeployment : Type 0 where
  pub project_id : Text
  pub service_id : Option Text
  pub public_url : Option Text
  pub status : DeploymentStatus
  pub build_logs_url : Option Text
  pub error_message : Option Text

pub record UserDeploymentIntegration : Type 0 where
  pub user_id : Text
  pub encrypted_token : Text
  pub encrypted_refresh_token : Option Text
  pub updated_at : ℕ

-- The rows of the two repositories, by project and by user.
pub record Stores : Type 0 where
  pub deployments : Table ProjectDeployment
  pub integrations : Table UserDeploymentIntegration

-- `a or b` on optional texts, and with a text.
abbrev pub or_else : Option Text → Option Text → Option Text
or_else none b = b
or_else (some []) b = b
or_else (some (c ∷ s)) b = some (c ∷ s)

abbrev pub or_text : Option Text → Text → Text
or_text none t = t
or_text (some []) t = t
or_text (some (c ∷ s)) t = c ∷ s

abbrev pub opt_eq : Option Text → Option Text → Bool
opt_eq none none = true
opt_eq (some s) (some t) = text_eq s t
opt_eq _ _ = false

-- The deployment is stored, and has reached a terminal status.
abbrev pub is_settled : Option ProjectDeployment → Bool
is_settled none = false
is_settled (some d) = is_terminal d.status

-- The row of a project, if there is one, has the project's id.
abbrev pub IsRowOf : Text → Option ProjectDeployment → Type 0
IsRowOf p none = Unit
IsRowOf p (some d) = d.project_id ≡ p
