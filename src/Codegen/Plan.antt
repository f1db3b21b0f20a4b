-- ===== src/Codegen/Plan.antt =====
-- backend/src/kosmo/domain/codegen/plan_rules.py: the rules that an implementation plan has to obey
-- before it touches a workspace, and the plan itself (contracts/sdd/codegen.py). Each violation
-- carries the message of the source.
pub mod Rules
pub mod Laws
use kosmo.Base.{
  ℕ, Bool, true, false, not, Option, none, some, List, [], ◌∷◌, ◌++◌, map, keep, is_empty,
  if◌then◌else◌, Result, ok, err, String,
}
use kosmo.Base.Text.{Text, codes, strip, replace_char, member}
use kosmo.Codegen.Path.{
  UnsafePathError, slash, backslash, drop_prefix, sanitize_relative_path, FileSystem,
  validate_safe_path,
}

pub data FileAction : Type 0 where
  create modify delete : FileAction

pub record FileOperation : Type 0 where
  pub path : Text
  pub action : FileAction
  pub description : Text
  pub rationale : Text
  pub target_symbols : List Text

pub record ImplementationPlan : Type 0 where
  pub feature_id : Text
  pub operations : List FileOperation
  pub summary : Text
  pub estimated_effort : Text
  pub created_at : ℕ

abbrev pub protected_workspace_files : List Text
protected_workspace_files = map codes (
    "package.json" ∷ "tsconfig.json" ∷ "next.config.ts" ∷ "next.config.mjs" ∷ "next.config.js"
    ∷ "drizzle.config.ts" ∷ "vitest.config.ts" ∷ "eslint.config.mjs" ∷ "eslint.config.js"
    ∷ "tailwind.config.ts" ∷ "tailwind.config.js" ∷ "postcss.config.mjs" ∷ "postcss.config.js"
    ∷ "opencode.json" ∷ "AGENTS.md" ∷ [])

pub data PlanRuleViolationType : Type 0 where
  unsafe_path file_already_exists file_not_found : PlanRuleViolationType
  duplicate_operation empty_operations protected_file_modification : PlanRuleViolationType

-- `action` is `none` where the source writes the empty text.
pub record PlanRuleViolation : Type 0 where
  pub path : Text
  pub action : Option FileAction
  pub rule : PlanRuleViolationType
  pub message : Text

pub record PlanValidationResult : Type 0 where
  pub is_valid : Bool
  pub violations : List PlanRuleViolation
  pub error_summary : List Text

-- An f-string with the path in quotes.
abbrev quoted : String → Text → String → Text
quoted before path after = codes before ++ path ++ codes after

abbrev violation : Text → FileAction → PlanRuleViolationType → Text → List PlanRuleViolation
violation path action rule message =
    record { path = path; action = some action; rule = rule; message = message } ∷ []

-- The loop over `manifest_files`.
unfoldable pub clean_item : Text → Text
clean_item item = drop_prefix (replace_char backslash slash (strip item))

unfoldable pub normalized_manifest : List Text → List Text
normalized_manifest items = keep (λ t. not (is_empty t)) (map clean_item items)

-- Rule 3, by `FileAction`.
unfoldable pub check_action : List Text → Text → FileAction → List PlanRuleViolation
check_action manifest path create =
    if member path manifest
    then violation path create file_already_exists
        (quoted "El archivo '" path "' ya existe en el workspace. Usa MODIFY en su lugar.")
    else []
check_action manifest path modify =
    if not (member path manifest)
    then violation path modify file_not_found
        (quoted "El archivo '" path "' no existe en el workspace. Usa CREATE en su lugar.")
    else []
check_action manifest path delete =
    if not (member path manifest)
    then violation path delete file_not_found
        (quoted "El archivo '" path "' no existe en el workspace para ser eliminado.")
    else if member path protected_workspace_files
    then violation path delete protected_file_modification
        (quoted "El archivo '" path "' está protegido y no puede ser eliminado.")
    else []

-- Rules 2 and 3, on the sanitized path: the violations, and the paths seen so far.
unfoldable pub check_sanitized :
    List Text
    → List Text
    → FileOperation
    → Result UnsafePathError Text
    → List PlanRuleViolation × List Text
check_sanitized manifest seen op (err e) =
    (violation op.path op.action unsafe_path (codes "Ruta inválida: " ++ e.message), seen)
check_sanitized manifest seen op (ok clean) =
    if member clean seen
    then (
      violation clean op.action duplicate_operation
          (quoted "Operación duplicada para la ruta: '" clean "'"),
      seen,
    )
    else (check_action manifest clean op.action, clean ∷ seen)

abbrev result_of : List PlanRuleViolation → PlanValidationResult
result_of violations = record {
  is_valid = is_empty violations;
  violations = violations;
  error_summary = map (λ (v : PlanRuleViolation). v.message) violations;
}

module _ (fs : FileSystem) (root : Text) where
  -- One round of the loop over `plan.operations`.
  unfoldable pub check_operation :
      List Text → List Text → FileOperation → List PlanRuleViolation × List Text
  check_operation manifest seen op =
      if not (validate_safe_path fs op.path root)
      then (
        violation op.path op.action unsafe_path
            (quoted "Ruta insegura o que intenta escapar del workspace: '" op.path "'"),
        seen,
      )
      else check_sanitized manifest seen op (sanitize_relative_path op.path)

  unfoldable pub check_operations :
      List Text → List Text → List FileOperation → List PlanRuleViolation
  check_operations manifest seen [] = []
  check_operations manifest seen (op ∷ ops) =
      let (found, seen') = check_operation manifest seen op in
      found ++ check_operations manifest seen' ops

  unfoldable pub validate_operations : List FileOperation → List Text → PlanValidationResult
  validate_operations [] manifest_files = record {
    is_valid = false;
    violations =
        record {
          path = [];
          action = none;
          rule = empty_operations;
          message = codes "El plan de implementación no contiene operaciones de archivo.";
        }
        ∷ [];
    error_summary = codes "El plan de implementación no contiene operaciones de archivo." ∷ [];
  }
  validate_operations (op ∷ ops) manifest_files =
      result_of (check_operations (normalized_manifest manifest_files) [] (op ∷ ops))

  unfoldable pub validate_plan : ImplementationPlan → List Text → PlanValidationResult
  unfolding validate_operations
  validate_plan plan manifest_files = validate_operations plan.operations manifest_files

-- `"; ".join(details)`.
pub join_details : List Text → Text
join_details [] = []
join_details (d ∷ []) = d
join_details (d ∷ e ∷ ds) = d ++ codes "; " ++ join_details (e ∷ ds)

-- `InvalidPlanError`.
pub record InvalidPlanError : Type 0 where
  pub message : Text
  pub violations : List PlanRuleViolation

module _ (fs : FileSystem) (root : Text) where
  unfoldable pub ensure_valid_plan :
      ImplementationPlan → List Text → Result InvalidPlanError ImplementationPlan
  ensure_valid_plan plan manifest_files =
      let result = validate_plan fs root plan manifest_files in
      if not result.is_valid
      then err (record {
        message = codes "Plan inválido: " ++ join_details result.error_summary;
        violations = result.violations;
      })
      else ok plan
