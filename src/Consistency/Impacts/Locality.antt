-- ===== src/Consistency/Impacts/Locality.antt =====
-- Which artifacts the impacts may change.
use kosmo.Base.{
  ℕ, ◌&&◌, ◌||◌, not, false, Option, none, some, List, [], ◌∷◌, ◌≡◌, refl, is_empty, All,
}
use kosmo.Base.Text.{Text, codes, text_eq}
use kosmo.Consistency.Artifacts.{Artifacts}
use kosmo.Consistency.Handlers.{Editing}
use kosmo.Consistency.Handlers.Frame.{
  IsSameAt, IsSameAt-trans, if-IsSameAt, update_discovery-IsSameAt, apply_requirement-IsSameAt,
  update_feature-IsSameAt, delete_feature-IsSameAt, update_diagram-IsSameAt,
  mark_implementation_for_review-IsSameAt, delete_implementation-IsSameAt,
}
use kosmo.Consistency.Impacts.{
  Impact, apply_impact, attempt_impact, process_impact, process_impacts,
}

module _ (edit : Editing) (now : ℕ) (project_id k : Text) where
  open edit use {Document}

  module _ (w : Artifacts Document) where
    apply_impact-IsSameAt :
        (impact : Impact)
        → text_eq impact.target_id k ≡ false
        → IsSameAt edit now k w (apply_impact edit now w project_id impact).0
    unfolding apply_impact
    apply_impact-IsSameAt impact other =
        let id = impact.target_id in
        let is_delete = text_eq impact.action (codes "delete") in
        if-IsSameAt edit now k id other w (text_eq impact.artifact_type (codes "EARSRequirement")) _
          _
          (if-IsSameAt edit now k id other w is_delete _ _ (refl, refl, refl, refl)
            (apply_requirement-IsSameAt edit now k id other w (w.requirements id) impact.before
              impact.after))
          (if-IsSameAt edit now k id other w (text_eq impact.artifact_type (codes "Feature")) _ _
            (if-IsSameAt edit now k id other w is_delete _ _
              (delete_feature-IsSameAt edit now k id other w (w.features id))
              (update_feature-IsSameAt edit now k id other w (w.features id) impact.field
                impact.before impact.after))
            (if-IsSameAt edit now k id other w
              (text_eq impact.artifact_type (codes "ActivityDiagram")) _ _
              (if-IsSameAt edit now k id other w is_delete _ _ (refl, refl, refl, refl)
                (update_diagram-IsSameAt edit now k id other w (w.diagrams id) impact.before
                  impact.after))
              (if-IsSameAt edit now k id other w
                (text_eq impact.artifact_type (codes "FeatureImplementation")) _ _
                (if-IsSameAt edit now k id other w is_delete _ _
                  (delete_implementation-IsSameAt edit now k id other w (w.implementations id))
                  (mark_implementation_for_review-IsSameAt edit now k id other w
                    (w.implementations id)))
                (if-IsSameAt edit now k id other w
                  (text_eq impact.artifact_type (codes "DiscoveryDocument")) _ _
                  (if-IsSameAt edit now k id other w is_delete _ _ (refl, refl, refl, refl)
                    (update_discovery-IsSameAt edit now k id other w project_id
                      (w.discovery project_id) impact.before impact.after))
                  (refl, refl, refl, refl)))))

    attempt_impact-IsSameAt :
        (raised : Option Text) (impact : Impact)
        → text_eq impact.target_id k ≡ false
        → IsSameAt edit now k w (attempt_impact edit now w project_id raised impact).0
    unfolding attempt_impact
    attempt_impact-IsSameAt none impact other = apply_impact-IsSameAt impact other
    attempt_impact-IsSameAt (some raised) impact other = (refl, refl, refl, refl)

    process_impact-IsSameAt :
        (raised : Option Text) (impact : Impact)
        → text_eq impact.target_id k ≡ false
        → IsSameAt edit now k w (process_impact edit now w project_id raised impact).0
    unfolding process_impact
    process_impact-IsSameAt raised impact other =
        if-IsSameAt edit now k impact.target_id other w
          (is_empty impact.artifact_type || is_empty impact.target_id) _ _ (refl, refl, refl, refl)
          (if-IsSameAt edit now k impact.target_id other w
            (text_eq impact.action (codes "update")
              && (is_empty impact.before
                  && (is_empty impact.after
                      && not (text_eq impact.artifact_type (codes "FeatureImplementation")))))
            _ _ (refl, refl, refl, refl) (attempt_impact-IsSameAt raised impact other))

  -- The impacts leave alone the feature, the requirements, the diagram and the implementation under
  -- a key that is the target of none of them, whatever their types and actions.
  pub process_impacts-IsSameAt :
      (w : Artifacts Document) (impacts : List (Impact × Option Text))
      → All (λ i. text_eq i.0.target_id k ≡ false) impacts
      → IsSameAt edit now k w (process_impacts edit now w project_id impacts).0
  unfolding process_impacts
  process_impacts-IsSameAt w [] others = (refl, refl, refl, refl)
  process_impacts-IsSameAt w ((impact, raised) ∷ rest) (other, others) =
      let w' = (process_impact edit now w project_id raised impact).0 in
      IsSameAt-trans edit now k w w' (process_impacts edit now w' project_id rest).0
        (process_impact-IsSameAt w raised impact other) (process_impacts-IsSameAt w' rest others)
