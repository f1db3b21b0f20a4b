-- ===== src/Consistency/Handlers/Atomicity.antt =====
-- A handler of apply_consistency_impacts.py that reports a reason has changed nothing.
use kosmo.Base.{
  ℕ, Bool, true, false, if◌then◌else◌, not, Option, none, some, List, [], ◌∷◌, ◌≡◌, refl, ◌⊎◌, inl,
  inr,
}
use kosmo.Base.Text.{Text, codes, member}
use kosmo.Trace.{Feature}
use kosmo.Consistency.Artifacts.{Artifacts, ActivityDiagram, Implementation}
use kosmo.Consistency.Handlers.{
  Editing, Outcome, saved_discovery, update_discovery, saved_requirement, apply_requirement,
  saved_feature, update_feature, delete_feature, checked_diagram, saved_diagram, update_diagram,
  mark_implementation_for_review, delete_implementation,
}

module _ (edit : Editing) (now : ℕ) where
  open edit use {Document, document_to_markdown, apply_change_diff, diagram_errors}

  -- The handler succeeded, or it left the artifacts as they were.
  abbrev pub IsAtomic : Artifacts Document → Outcome edit now → Type 0
  IsAtomic w o = (o.1 ≡ none) ⊎ (o.0 ≡ w)

  module _ (w : Artifacts Document) where
    pub if-IsAtomic :
        {o o' : Outcome edit now} (b : Bool)
        → IsAtomic w o
        → IsAtomic w o'
        → IsAtomic w (if b then o else o')
    if-IsAtomic true h h' = h
    if-IsAtomic false h h' = h'

    saved_discovery-IsAtomic :
        (id : Text) (r : Option Text) → IsAtomic w (saved_discovery edit now w id r)
    unfolding saved_discovery
    saved_discovery-IsAtomic id none = inr refl
    saved_discovery-IsAtomic id (some r) = inl refl

    pub update_discovery-IsAtomic :
        (id : Text) (d : Option Document) (before after : Text)
        → IsAtomic w (update_discovery edit now w id d before after)
    unfolding update_discovery
    update_discovery-IsAtomic id none before after = inr refl
    update_discovery-IsAtomic id (some d) before after =
        saved_discovery-IsAtomic id (apply_change_diff (document_to_markdown d) before after)

    saved_requirement-IsAtomic :
        (id : Text) (r : Option Text) → IsAtomic w (saved_requirement edit now w id r)
    unfolding saved_requirement
    saved_requirement-IsAtomic id none = inr refl
    saved_requirement-IsAtomic id (some r) = inl refl

    pub apply_requirement-IsAtomic :
        (id : Text) (m : Option Text) (before after : Text)
        → IsAtomic w (apply_requirement edit now w id m before after)
    unfolding apply_requirement
    apply_requirement-IsAtomic id none before after = inr refl
    apply_requirement-IsAtomic id (some m) before after =
        saved_requirement-IsAtomic id (apply_change_diff m before after)

    saved_feature-IsAtomic :
        (id : Text) (f : Feature) (field : Text) (r : Option Text)
        → IsAtomic w (saved_feature edit now w id f field r)
    unfolding saved_feature
    saved_feature-IsAtomic id f field none = inr refl
    saved_feature-IsAtomic id f field (some r) = inl refl

    pub update_feature-IsAtomic :
        (id : Text) (f : Option Feature) (field before after : Text)
        → IsAtomic w (update_feature edit now w id f field before after)
    unfolding update_feature
    update_feature-IsAtomic id none field before after = inr refl
    update_feature-IsAtomic id (some f) field before after =
        if-IsAtomic (not (member field (codes "title" ∷ codes "description" ∷ codes "origin" ∷ [])))
          (inr refl) (saved_feature-IsAtomic id f field _)

    pub delete_feature-IsAtomic :
        (id : Text) (f : Option Feature) → IsAtomic w (delete_feature edit now w id f)
    unfolding delete_feature
    delete_feature-IsAtomic id none = inr refl
    delete_feature-IsAtomic id (some f) = inl refl

    checked_diagram-IsAtomic :
        (id : Text) (d : ActivityDiagram) (r : Text) (es : List Text)
        → IsAtomic w (checked_diagram edit now w id d r es)
    unfolding checked_diagram
    checked_diagram-IsAtomic id d r [] = inl refl
    checked_diagram-IsAtomic id d r (e ∷ es) = inr refl

    saved_diagram-IsAtomic :
        (id : Text) (d : ActivityDiagram) (r : Option Text)
        → IsAtomic w (saved_diagram edit now w id d r)
    unfolding saved_diagram
    saved_diagram-IsAtomic id d none = inr refl
    saved_diagram-IsAtomic id d (some r) = checked_diagram-IsAtomic id d r (diagram_errors r)

    pub update_diagram-IsAtomic :
        (id : Text) (d : Option ActivityDiagram) (before after : Text)
        → IsAtomic w (update_diagram edit now w id d before after)
    unfolding update_diagram
    update_diagram-IsAtomic id none before after = inr refl
    update_diagram-IsAtomic id (some d) before after =
        saved_diagram-IsAtomic id d (apply_change_diff d.diagram_syntax before after)

    pub mark_implementation_for_review-IsAtomic :
        (id : Text) (i : Option Implementation)
        → IsAtomic w (mark_implementation_for_review edit now w id i)
    unfolding mark_implementation_for_review
    mark_implementation_for_review-IsAtomic id none = inr refl
    mark_implementation_for_review-IsAtomic id (some i) = inl refl

    pub delete_implementation-IsAtomic :
        (id : Text) (i : Option Implementation) → IsAtomic w (delete_implementation edit now w id i)
    unfolding delete_implementation
    delete_implementation-IsAtomic id none = inl refl
    delete_implementation-IsAtomic id (some i) = inl refl
