-- ===== src/Consistency/Impacts/Accounting.antt =====
-- What the loop over the impacts reports, and what it leaves behind.
use kosmo.Base.{
  ℕ, ◌||◌, Option, none, some, List, [], ◌∷◌, ◌≡◌, refl, sym, ap, ◌∙◌, inl, inr, is_empty, length,
  suc, ◌+◌, arith,
}
use kosmo.Base.Text.{Text, codes, text_eq}
use kosmo.Consistency.Artifacts.{Artifacts}
use kosmo.Consistency.Handlers.{Editing, Outcome}
use kosmo.Consistency.Handlers.Atomicity.{
  IsAtomic, if-IsAtomic, update_discovery-IsAtomic, apply_requirement-IsAtomic,
  update_feature-IsAtomic, delete_feature-IsAtomic, update_diagram-IsAtomic,
  mark_implementation_for_review-IsAtomic, delete_implementation-IsAtomic,
}
use kosmo.Consistency.Impacts.{
  Impact, ApplyOutput, apply_impact, attempt_impact, process_impact, recorded, process_impacts,
}

module _ (edit : Editing) (now : ℕ) where
  open edit use {Document}

  module _ (w : Artifacts Document) (project_id : Text) where
    apply_impact-IsAtomic :
        (impact : Impact) → IsAtomic edit now w (apply_impact edit now w project_id impact)
    unfolding apply_impact
    apply_impact-IsAtomic impact =
        let id = impact.target_id in
        let is_delete = text_eq impact.action (codes "delete") in
        if-IsAtomic edit now w (text_eq impact.artifact_type (codes "EARSRequirement"))
          (if-IsAtomic edit now w is_delete (inl refl) (
            apply_requirement-IsAtomic edit now w id (w.requirements id) impact.before
              impact.after))
          (if-IsAtomic edit now w (text_eq impact.artifact_type (codes "Feature"))
            (if-IsAtomic edit now w is_delete
              (delete_feature-IsAtomic edit now w id (w.features id))
              (update_feature-IsAtomic edit now w id (w.features id) impact.field impact.before
                impact.after))
            (if-IsAtomic edit now w (text_eq impact.artifact_type (codes "ActivityDiagram"))
              (if-IsAtomic edit now w is_delete (inl refl)
                (update_diagram-IsAtomic edit now w id (w.diagrams id) impact.before impact.after))
              (if-IsAtomic edit now w (text_eq impact.artifact_type (codes "FeatureImplementation"))
                (if-IsAtomic edit now w is_delete
                  (delete_implementation-IsAtomic edit now w id (w.implementations id))
                  (mark_implementation_for_review-IsAtomic edit now w id (w.implementations id)))
                (if-IsAtomic edit now w (text_eq impact.artifact_type (codes "DiscoveryDocument"))
                  (if-IsAtomic edit now w is_delete (inr refl) (
                    update_discovery-IsAtomic edit now w project_id (w.discovery project_id)
                      impact.before impact.after))
                  (inr refl)))))

    attempt_impact-IsAtomic :
        (raised : Option Text) (impact : Impact)
        → IsAtomic edit now w (attempt_impact edit now w project_id raised impact)
    unfolding attempt_impact
    attempt_impact-IsAtomic none impact = apply_impact-IsAtomic impact
    attempt_impact-IsAtomic (some raised) impact = inr refl

    -- An impact is either applied, or it leaves every artifact as it was: whichever guard or check
    -- refuses it, and also when its transaction raises an exception.
    pub process_impact-IsAtomic :
        (raised : Option Text) (impact : Impact)
        → IsAtomic edit now w (process_impact edit now w project_id raised impact)
    unfolding process_impact
    process_impact-IsAtomic raised impact =
        if-IsAtomic edit now w (is_empty impact.artifact_type || is_empty impact.target_id)
          (inr refl) (if-IsAtomic edit now w _ (inr refl) (attempt_impact-IsAtomic raised impact))

  kept :
      Impact × Option Text → Option Text → List (Impact × Option Text) → List (Impact × Option Text)
  kept impact none rest = impact ∷ rest
  kept impact (some reason) rest = rest

  -- The impacts that are applied when the list is processed.
  pub succeeding :
      Artifacts Document → Text → List (Impact × Option Text) → List (Impact × Option Text)
  succeeding w project_id [] = []
  succeeding w project_id ((impact, raised) ∷ rest) =
      let (w', reason) = process_impact edit now w project_id raised impact in
      let rest' = succeeding w' project_id rest in kept (impact, raised) reason rest'

  abbrev pub without_failures : Artifacts Document × ApplyOutput → Artifacts Document × ApplyOutput
  without_failures (w, out) = (w, record out { failed = [] })

  module _ (project_id : Text) where
    succeeding-step :
        (w : Artifacts Document) (impact : Impact) (raised : Option Text)
        (rest : List (Impact × Option Text)) (o : Outcome edit now)
        → process_impact edit now w project_id raised impact ≡ o
        → IsAtomic edit now w o
        → process_impacts edit now o.0 project_id (succeeding o.0 project_id rest)
          ≡ without_failures (process_impacts edit now o.0 project_id rest)
        → process_impacts edit now w project_id (succeeding w project_id ((impact, raised) ∷ rest))
          ≡ without_failures (process_impacts edit now w project_id ((impact, raised) ∷ rest))
    unfolding succeeding kept process_impacts recorded
    succeeding-step w impact raised rest (w', none) e atomic ih =
        rw (e, e) (ap (λ r. (r.0, recorded edit now impact none r.1)) ih)
    succeeding-step w impact raised rest (w', some reason) e (inl absurd) ih = cc
    succeeding-step w impact raised rest (w', some reason) e (inr same) ih = rw e (
        ap (λ v. process_impacts edit now v project_id (succeeding w' project_id rest)) (sym same)
        ∙ ih)

    -- Failures do not touch the rest of the list: processing only the impacts that are applied
    -- leaves the same artifacts and reports the same applied impacts, and no failure.
    pub process_impacts-succeeding :
        (w : Artifacts Document) (impacts : List (Impact × Option Text))
        → process_impacts edit now w project_id (succeeding w project_id impacts)
          ≡ without_failures (process_impacts edit now w project_id impacts)
    unfolding succeeding process_impacts
    process_impacts-succeeding w [] = refl
    process_impacts-succeeding w ((impact, raised) ∷ rest) =
        let o = process_impact edit now w project_id raised impact in
        succeeding-step w impact raised rest o refl
          (process_impact-IsAtomic w project_id raised impact) (process_impacts-succeeding o.0 rest)

    length-recorded :
        (impact : Impact) (reason : Option Text) (out : ApplyOutput)
        → length (recorded edit now impact reason out).applied
            + length (recorded edit now impact reason out).failed
          ≡ suc (length out.applied + length out.failed)
    unfolding recorded
    length-recorded impact none out = omega arith
    length-recorded impact (some reason) out = omega arith

    -- Each impact is reported once, among the applied or among the failed ones.
    pub length-process_impacts :
        (w : Artifacts Document) (impacts : List (Impact × Option Text))
        → length (process_impacts edit now w project_id impacts).1.applied
            + length (process_impacts edit now w project_id impacts).1.failed
          ≡ length impacts
    unfolding process_impacts
    length-process_impacts w [] = omega arith
    length-process_impacts w ((impact, raised) ∷ rest) =
        let (w', reason) = process_impact edit now w project_id raised impact in
        omega (
          arith,
          length-recorded impact reason (process_impacts edit now w' project_id rest).1,
          length-process_impacts w' rest,
        )
