-- ===== src/Deployment/Recovery.antt =====
-- What backend/src/kosmo/application/integrations/recover_pending_deployments.py resumes.
use kosmo.Base.{
  Bool, ◌&&◌, ◌||◌, Option, none, some, List, [], ◌∷◌, ◌≡◌, refl, inl, inr, is_some, Bool-cases,
  any, keep, arith,
}
use kosmo.Base.Text.{Text, text_eq}
use kosmo.Base.Text.{filled}
use kosmo.Deployment.Records.{building, status_eq, ProjectDeployment, opt_eq}
use kosmo.Deployment.Failure.{resumed_of, resume, recover_pending_deployments}

module _ (owner_of : Text → Option Text) (p user_id : Text) where
  -- The polling of the project `p` for the user.
  abbrev pub is_polling : Text × Text → Bool
  is_polling q = text_eq q.0 p && text_eq q.1 user_id

  -- A row that calls for it: building, with a service, of a project that the user owns.
  abbrev pub calls_for : ProjectDeployment → Bool
  calls_for d =
      status_eq d.status building
      && (is_some (filled d.service_id)
          && (text_eq d.project_id p && opt_eq (owner_of d.project_id) (some user_id)))

  any-resumed_of :
      (d : ProjectDeployment) (service owner : Option Text) (rest : List (Text × Text)) (b : Bool)
      → any is_polling rest ≡ b
      → any is_polling (resumed_of d service owner rest)
        ≡ ((is_some service && (text_eq d.project_id p && opt_eq owner (some user_id))) || b)
  unfolding resumed_of
  any-resumed_of d none owner rest b h = h
  any-resumed_of d (some t) none rest b h = ground (arith, h)
  any-resumed_of d (some t) (some u) rest b h = rw h refl

  any-resume :
      (rows : List ProjectDeployment)
      → any is_polling (resume owner_of (keep (λ d. status_eq d.status building) rows))
        ≡ any calls_for rows
  unfolding resume
  any-resume [] = refl
  any-resume (d ∷ ds) = elim (Bool-cases (status_eq d.status building)) [
    | inl e ↦
        rw e (any-resumed_of d (filled d.service_id) (owner_of d.project_id) _ _ (any-resume ds))
    | inr e ↦ rw e (any-resume ds)
  ]

  -- After a restart the polling of a project is started for a user exactly if a stored deployment of
  -- the project is building, has a service, and the project exists and belongs to that user.
  pub any-recover_pending_deployments :
      (rows : List ProjectDeployment)
      → any is_polling (recover_pending_deployments owner_of rows) ≡ any calls_for rows
  unfolding recover_pending_deployments
  any-recover_pending_deployments rows = any-resume rows
