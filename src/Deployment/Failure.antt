-- ===== src/Deployment/Failure.antt =====
-- backend/src/kosmo/application/integrations/handle_deployment_failure.py and
-- recover_pending_deployments.py: what records the failure of a deployment, and what resumes the
-- polling of those that were building when the process stopped.
use kosmo.Base.{true, Option, none, some, List, [], ◌∷◌, keep, ◌≡◌, refl, subst, ap, ◌∙◌}
use kosmo.Base.Text.{Text}
use kosmo.Base.Tables.{update, update_self}
use kosmo.Base.Text.{filled}
use kosmo.Deployment.Records.{
  building, failed, status_eq, ProjectDeployment, Stores, or_else, is_terminal, is_settled, IsRowOf,
}

-- The row that is written, from the one that is stored.
unfoldable pub failed_row : Text → Text → Option Text → Option ProjectDeployment → ProjectDeployment
failed_row project_id error_message build_logs_url none = record {
  project_id = project_id;
  service_id = none;
  public_url = none;
  status = failed;
  build_logs_url = build_logs_url;
  error_message = some error_message;
}
failed_row project_id error_message build_logs_url (some d) = record d {
  status = failed;
  error_message = some error_message;
  build_logs_url = or_else build_logs_url d.build_logs_url;
}

-- `HandleDeploymentFailureUseCase.execute`.
unfoldable pub handle_deployment_failure : Text → Text → Option Text → Stores → Stores
unfolding failed_row
handle_deployment_failure project_id error_message build_logs_url s =
    let d = failed_row project_id error_message build_logs_url (s.deployments project_id) in
    record s { deployments = update d.project_id (some d) s.deployments }

failed_row-project_id :
    (p message : Text) (logs : Option Text) (o : Option ProjectDeployment)
    → IsRowOf p o
    → (failed_row p message logs o).project_id ≡ p
unfolding failed_row
failed_row-project_id p message logs none h = refl
failed_row-project_id p message logs (some d) h = h

failed_row-status :
    (p message : Text) (logs : Option Text) (o : Option ProjectDeployment)
    → (failed_row p message logs o).status ≡ failed
unfolding failed_row
failed_row-status p message logs none = refl
failed_row-status p message logs (some d) = refl

-- The row that the handler of failures leaves for the project.
pub handle_deployment_failure-failed_row :
    (p message : Text) (logs : Option Text) (s : Stores)
    → IsRowOf p (s.deployments p)
    → (handle_deployment_failure p message logs s).deployments p
      ≡ some (failed_row p message logs (s.deployments p))
unfolding handle_deployment_failure
handle_deployment_failure-failed_row p message logs s h =
    let d = failed_row p message logs (s.deployments p) in
    subst (λ q. update d.project_id (some d) s.deployments q ≡ some d)
      (failed_row-project_id p message logs (s.deployments p) h)
      (update_self d.project_id (some d) s.deployments)

pub handle_deployment_failure-settled :
    (p message : Text) (logs : Option Text) (s : Stores)
    → IsRowOf p (s.deployments p)
    → is_settled ((handle_deployment_failure p message logs s).deployments p) ≡ true
handle_deployment_failure-settled p message logs s h =
    ap is_settled (handle_deployment_failure-failed_row p message logs s h)
    ∙ ap is_terminal (failed_row-status p message logs (s.deployments p))

-- The projects and owners whose polling is started again, in order; `owner_of` reads the projects.
unfoldable pub resumed_of :
    ProjectDeployment → Option Text → Option Text → List (Text × Text) → List (Text × Text)
resumed_of d none owner rest = rest
resumed_of d (some service_id) none rest = rest
resumed_of d (some service_id) (some owner) rest = (d.project_id, owner) ∷ rest

unfoldable pub resume : (Text → Option Text) → List ProjectDeployment → List (Text × Text)
unfolding resumed_of
resume owner_of [] = []
resume owner_of (d ∷ ds) =
    resumed_of d (filled d.service_id) (owner_of d.project_id) (resume owner_of ds)

-- `recover_pending_deployments`, over the rows of the table.
unfoldable pub recover_pending_deployments :
    (Text → Option Text) → List ProjectDeployment → List (Text × Text)
unfolding resume
recover_pending_deployments owner_of rows =
    resume owner_of (keep (λ d. status_eq d.status building) rows)
