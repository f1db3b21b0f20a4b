-- ===== src/Consistency/Handlers/Frame.antt =====
-- A handler of apply_consistency_impacts.py changes the rows of its own target only.
use kosmo.Base.{
  ℕ, Bool, true, false, if◌then◌else◌, not, Option, none, some, List, [], ◌∷◌, ◌≡◌, refl, ◌∙◌,
}
use kosmo.Base.Text.{Text, codes, text_eq, member}
use kosmo.Trace.{Feature}
use kosmo.Base.Tables.{update, update-ne}
use kosmo.Consistency.Artifacts.{Artifacts, ActivityDiagram, Implementation}
use kosmo.Consistency.Handlers.{
  Editing, Outcome, saved_discovery, update_discovery, retraced, reparsed, saved_requirement,
  apply_requirement, saved_feature, update_feature, delete_feature, checked_diagram, saved_diagram,
  update_diagram, mark_implementation_for_review, delete_implementation,
}

module _ (edit : Editing) (now : ℕ) where
  open edit use {
    Document, document_to_markdown, apply_change_diff, diagram_errors, parse_requirements,
  }

  -- The two hold the same feature, requirements, diagram and implementation under a key.
  abbrev pub IsSameAt : Text → Artifacts Document → Artifacts Document → Type 0
  IsSameAt k w w' =
      (w'.features k ≡ w.features k)
      × (w'.requirements k ≡ w.requirements k)
      × (w'.diagrams k ≡ w.diagrams k)
      × (w'.implementations k ≡ w.implementations k)

  pub IsSameAt-trans :
      (k : Text) (u v w : Artifacts Document) → IsSameAt k u v → IsSameAt k v w → IsSameAt k u w
  IsSameAt-trans k u v w (a, b, c, d) (a', b', c', d') = (a' ∙ a, b' ∙ b, c' ∙ c, d' ∙ d)

  module _ (k id : Text) (other : text_eq id k ≡ false) (w : Artifacts Document) where
    pub if-IsSameAt :
        (b : Bool) (o o' : Outcome edit now)
        → IsSameAt k w o.0
        → IsSameAt k w o'.0
        → IsSameAt k w (if b then o else o').0
    if-IsSameAt true o o' h h' = h
    if-IsSameAt false o o' h h' = h'

    saved_discovery-IsSameAt :
        (p : Text) (r : Option Text) → IsSameAt k w (saved_discovery edit now w p r).0
    unfolding saved_discovery
    saved_discovery-IsSameAt p none = (refl, refl, refl, refl)
    saved_discovery-IsSameAt p (some r) = (refl, refl, refl, refl)

    pub update_discovery-IsSameAt :
        (p : Text) (d : Option Document) (before after : Text)
        → IsSameAt k w (update_discovery edit now w p d before after).0
    unfolding update_discovery
    update_discovery-IsSameAt p none before after = (refl, refl, refl, refl)
    update_discovery-IsSameAt p (some d) before after =
        saved_discovery-IsSameAt p (apply_change_diff (document_to_markdown d) before after)

    retraced-IsSameAt :
        (v : Artifacts Document) (ids : Option (List Text))
        → IsSameAt k w v
        → IsSameAt k w (retraced edit now v id ids)
    unfolding retraced
    retraced-IsSameAt v none h = h
    retraced-IsSameAt v (some ids) h = h

    reparsed-IsSameAt :
        (v : Artifacts Document) (r : Text) (f : Option Feature)
        → IsSameAt k w v
        → IsSameAt k w (reparsed edit now v id r f)
    unfolding reparsed
    reparsed-IsSameAt v r none h = h
    reparsed-IsSameAt v r (some f) h = retraced-IsSameAt v (parse_requirements r id f.number) h

    saved_requirement-IsSameAt :
        (r : Option Text) → IsSameAt k w (saved_requirement edit now w id r).0
    unfolding saved_requirement
    saved_requirement-IsSameAt none = (refl, refl, refl, refl)
    saved_requirement-IsSameAt (some r) =
        reparsed-IsSameAt (record w { requirements = update id (some r) w.requirements }) r
          (w.features id) (refl, update-ne id k (some r) w.requirements other, refl, refl)

    pub apply_requirement-IsSameAt :
        (m : Option Text) (before after : Text)
        → IsSameAt k w (apply_requirement edit now w id m before after).0
    unfolding apply_requirement
    apply_requirement-IsSameAt none before after = (refl, refl, refl, refl)
    apply_requirement-IsSameAt (some m) before after =
        saved_requirement-IsSameAt (apply_change_diff m before after)

    saved_feature-IsSameAt :
        (f : Feature) (field : Text) (r : Option Text)
        → IsSameAt k w (saved_feature edit now w id f field r).0
    unfolding saved_feature
    saved_feature-IsSameAt f field none = (refl, refl, refl, refl)
    saved_feature-IsSameAt f field (some r) = (update-ne id k _ w.features other, refl, refl, refl)

    pub update_feature-IsSameAt :
        (f : Option Feature) (field before after : Text)
        → IsSameAt k w (update_feature edit now w id f field before after).0
    unfolding update_feature
    update_feature-IsSameAt none field before after = (refl, refl, refl, refl)
    update_feature-IsSameAt (some f) field before after =
        if-IsSameAt (not (member field (codes "title" ∷ codes "description" ∷ codes "origin" ∷ [])))
          _ _ (refl, refl, refl, refl) (saved_feature-IsSameAt f field _)

    pub delete_feature-IsSameAt :
        (f : Option Feature) → IsSameAt k w (delete_feature edit now w id f).0
    unfolding delete_feature
    delete_feature-IsSameAt none = (refl, refl, refl, refl)
    delete_feature-IsSameAt (some f) = (
      update-ne id k none w.features other,
      update-ne id k none w.requirements other,
      update-ne id k none w.diagrams other,
      update-ne id k none w.implementations other,
    )

    checked_diagram-IsSameAt :
        (d : ActivityDiagram) (r : Text) (es : List Text)
        → IsSameAt k w (checked_diagram edit now w id d r es).0
    unfolding checked_diagram
    checked_diagram-IsSameAt d r [] = (refl, refl, update-ne id k _ w.diagrams other, refl)
    checked_diagram-IsSameAt d r (e ∷ es) = (refl, refl, refl, refl)

    saved_diagram-IsSameAt :
        (d : ActivityDiagram) (r : Option Text) → IsSameAt k w (saved_diagram edit now w id d r).0
    unfolding saved_diagram
    saved_diagram-IsSameAt d none = (refl, refl, refl, refl)
    saved_diagram-IsSameAt d (some r) = checked_diagram-IsSameAt d r (diagram_errors r)

    pub update_diagram-IsSameAt :
        (d : Option ActivityDiagram) (before after : Text)
        → IsSameAt k w (update_diagram edit now w id d before after).0
    unfolding update_diagram
    update_diagram-IsSameAt none before after = (refl, refl, refl, refl)
    update_diagram-IsSameAt (some d) before after =
        saved_diagram-IsSameAt d (apply_change_diff d.diagram_syntax before after)

    pub mark_implementation_for_review-IsSameAt :
        (i : Option Implementation)
        → IsSameAt k w (mark_implementation_for_review edit now w id i).0
    unfolding mark_implementation_for_review
    mark_implementation_for_review-IsSameAt none = (refl, refl, refl, refl)
    mark_implementation_for_review-IsSameAt (some i) =
        (refl, refl, refl, update-ne id k _ w.implementations other)

    pub delete_implementation-IsSameAt :
        (i : Option Implementation) → IsSameAt k w (delete_implementation edit now w id i).0
    unfolding delete_implementation
    delete_implementation-IsSameAt none = (refl, refl, refl, refl)
    delete_implementation-IsSameAt (some i) =
        (refl, refl, refl, update-ne id k none w.implementations other)
