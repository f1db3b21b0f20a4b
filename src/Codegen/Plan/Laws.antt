-- ===== src/Codegen/Plan/Laws.antt =====
-- What `validate_plan` reports, and what `ensure_valid_plan` makes of it.
use kosmo.Base.{
  ◌≤◌, max, false, List, [], ◌∷◌, ◌++◌, map, is_empty, Result, ok, err, ◌≡◌, refl, arith,
  Bool-cases, inl, inr, length, length-append, sym, ◌∙◌, ◌⊎◌,
}
use kosmo.Base.Text.{Text, codes}
use kosmo.Codegen.Path.{UnsafePathError, sanitize_relative_path, FileSystem}
use kosmo.Codegen.Plan.{
  FileAction, create, modify, delete, FileOperation, ImplementationPlan, PlanRuleViolation,
  PlanValidationResult, normalized_manifest, check_action, check_sanitized, check_operation,
  check_operations, validate_operations, validate_plan, InvalidPlanError, ensure_valid_plan,
  join_details,
}
use kosmo.Codegen.Plan.Rules.{IsValidPlan, validate_plan-IsValidPlan}

length-check_action :
    (manifest : List Text) (p : Text) (a : FileAction) → length (check_action manifest p a) ≤ 1
unfolding check_action
length-check_action manifest p create = ground arith
length-check_action manifest p modify = ground arith
length-check_action manifest p delete = ground arith

length-check_sanitized :
    (manifest seen : List Text) (op : FileOperation) (r : Result UnsafePathError Text)
    → length (check_sanitized manifest seen op r).0 ≤ 1
unfolding check_sanitized
length-check_sanitized manifest seen op (err e) = omega arith
length-check_sanitized manifest seen op (ok p) =
    ground (arith, length-check_action manifest p op.action)

module _ (fs : FileSystem) (root : Text) (manifest : List Text) where
  length-check_operation :
      (seen : List Text) (op : FileOperation)
      → length (check_operation fs root manifest seen op).0 ≤ 1
  unfolding check_operation
  length-check_operation seen op =
      ground (arith, length-check_sanitized manifest seen op (sanitize_relative_path op.path))

  length-check_operations :
      (seen : List Text) (ops : List FileOperation)
      → length (check_operations fs root manifest seen ops) ≤ length ops
  unfolding check_operations
  length-check_operations seen [] = omega arith
  length-check_operations seen (op ∷ ops) =
      let (found, seen') = check_operation fs root manifest seen op in
      omega (
        arith,
        length-append {0} found (check_operations fs root manifest seen' ops),
        length-check_operation seen op,
        length-check_operations seen' ops,
      )

-- The verdict is that nothing was found, and the summary is the messages of what was found.
abbrev pub IsConsistent : PlanValidationResult → Type 0
IsConsistent r =
    (r.is_valid ≡ is_empty r.violations)
    × (r.error_summary ≡ map (λ (v : PlanRuleViolation). v.message) r.violations)

module _ (fs : FileSystem) (root : Text) (files : List Text) where
  validate_operations-IsConsistent :
      (ops : List FileOperation)
      → IsConsistent (validate_operations fs root ops files)
        × (length (validate_operations fs root ops files).violations ≤ max 1 (length ops))
  unfolding validate_operations
  validate_operations-IsConsistent [] = ((refl, refl), omega arith)
  validate_operations-IsConsistent (op ∷ ops) = (
    (refl, refl),
    omega (arith, length-check_operations fs root (normalized_manifest files) [] (op ∷ ops)),
  )

  -- Whatever the plan, the verdict says that there are no violations, the summary lists their
  -- messages in order, and there is at most one for each operation, or one for a plan with none.
  pub validate_plan-IsConsistent :
      (plan : ImplementationPlan)
      → IsConsistent (validate_plan fs root plan files)
        × (length (validate_plan fs root plan files).violations ≤ max 1 (length plan.operations))
  unfolding validate_plan
  validate_plan-IsConsistent plan = validate_operations-IsConsistent plan.operations

  -- Either the plan is valid and is returned as it is, or the error carries the violations that
  -- `validate_plan` found, of which there is at least one.
  pub ensure_valid_plan_cases :
      (plan : ImplementationPlan)
      → (IsValidPlan fs root plan files × (ensure_valid_plan fs root plan files ≡ ok plan))
        ⊎ ((e : InvalidPlanError) × (ensure_valid_plan fs root plan files ≡ err e)
            × (e.violations ≡ (validate_plan fs root plan files).violations)
            × (is_empty e.violations ≡ false))
  unfolding ensure_valid_plan
  ensure_valid_plan_cases plan = elim (Bool-cases (validate_plan fs root plan files).is_valid) [
    | inl valid ↦ inl ((validate_plan-IsValidPlan fs root files plan).0 valid, rw valid)
    | inr not_valid ↦ inr (
      record {
        message =
            codes "Plan inválido: "
            ++ join_details (validate_plan fs root plan files).error_summary;
        violations = (validate_plan fs root plan files).violations;
      },
      rw not_valid,
      refl,
      sym (validate_plan-IsConsistent plan).0.0 ∙ not_valid,
    )
  ]
