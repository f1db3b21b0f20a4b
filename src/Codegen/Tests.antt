-- ===== src/Codegen/Tests.antt =====
-- Runs and instances of the rules of code generation.
use kosmo.Base.{
  true, false, some, List, [], ◌∷◌, ◌++◌, ok, ◌≡◌, refl, arith, ◌↔◌, is_empty, All, map,
}
use kosmo.Base.Text.{
  Text, codes, is_space, strip, has_char, starts_with, split, join, member, replace_char,
  text_eq_iff,
}
use kosmo.Codegen.Path.{
  slash, has_drive, is_absolute_path_str, is_inside, target_of, target_resolved,
  sanitize_relative_path, FileSystem, validate_safe_path, ensure_safe_path,
}
use kosmo.Codegen.Path.Clean.{IsPlain, sanitize_relative_path-IsPlain}
use kosmo.Codegen.Path.Canonical.{sanitize_relative_path-join}
use kosmo.Codegen.Path.Inside.{ensure_safe_path-inside}
use kosmo.Codegen.Plan.{
  FileAction, create, delete, FileOperation, ImplementationPlan, PlanRuleViolation,
  protected_file_modification, clean_item, normalized_manifest, check_action, check_sanitized,
  check_operation, check_operations, validate_operations, validate_plan,
}
use kosmo.Codegen.Plan.Rules.{IsValidPlan, validate_plan-IsValidPlan}

-- A file system with no symbolic links, in which every path resolves to its own text.
abbrev plain_files : FileSystem
plain_files = record {
  Resolved = Text;
  resolve = λ t. some t;
  resolve_under = λ root t. some (root ++ slash ∷ t);
  is_relative_to = λ t root. starts_with t root;
}

clean_path :
    sanitize_relative_path (codes " .\\src//./app/page.tsx ") ≡ ok (codes "src/app/page.tsx")
unfolding sanitize_relative_path has_char strip is_space join
clean_path = refl

sanitize_relative_path-IsPlain_example :
    (ps : List Text) × (codes "src/app/page.tsx" ≡ join slash ps)
    × (is_empty ps ≡ false)
    × All IsPlain ps
sanitize_relative_path-IsPlain_example =
    sanitize_relative_path-IsPlain (codes " .\\src//./app/page.tsx ") clean_path

IsPlain-src : IsPlain (codes "src")
IsPlain-src = record {
  nonempty = refl;
  not_here = ground (arith, text_eq_iff (codes "src") (codes "."));
  not_parent = ground (arith, text_eq_iff (codes "src") (codes ".."));
  no_slash = (refl, (refl, (refl, tt)));
  no_backslash = (refl, (refl, (refl, tt)));
  no_nul = (refl, (refl, (refl, tt)));
}

sanitize_relative_path-join_example :
    sanitize_relative_path (codes "src/src") ≡ ok (codes "src/src")
unfolding strip is_space join
sanitize_relative_path-join_example =
    sanitize_relative_path-join (codes "src" ∷ codes "src" ∷ []) refl
      (IsPlain-src, (IsPlain-src, tt)) refl

safe_path : validate_safe_path plain_files (codes "src/a.ts") (codes "/workspace") ≡ true
unfolding validate_safe_path is_inside target_of target_resolved has_drive is_absolute_path_str
    strip is_space has_char split replace_char starts_with
safe_path = refl

drive_path : validate_safe_path plain_files (codes "C:/a.ts") (codes "/workspace") ≡ false
unfolding validate_safe_path has_drive strip is_space has_char split replace_char starts_with
drive_path = refl

parent_path : validate_safe_path plain_files (codes "src\\..\\a.ts") (codes "/workspace") ≡ false
unfolding validate_safe_path strip is_space has_char split replace_char starts_with
parent_path = refl

ensure_safe_path-inside_example :
    (r p : Text) × (plain_files.resolve (codes "/workspace") ≡ some r)
    × (ensure_safe_path plain_files (codes "src/a.ts") (codes "/workspace") ≡ ok p)
    × (plain_files.is_relative_to p r ≡ true)
unfolding strip is_space
ensure_safe_path-inside_example =
    ensure_safe_path-inside plain_files (codes "src/a.ts") (codes "/workspace") refl safe_path

abbrev operation : Text → FileAction → FileOperation
operation path action = record {
  path = path;
  action = action;
  description = [];
  rationale = [];
  target_symbols = [];
}

abbrev plan : ImplementationPlan
plan = record {
  feature_id = codes "feat_1";
  operations = operation (codes "src/a.ts") create ∷ operation (codes "./package.json") delete ∷ [];
  summary = [];
  estimated_effort = [];
  created_at = 0;
}

abbrev files : List Text
files = codes "package.json" ∷ codes "/src/b.ts" ∷ []

protected_file :
    map
      (λ (v : PlanRuleViolation). v.rule)
      (validate_plan plain_files (codes "/workspace") plan files).violations
    ≡ protected_file_modification ∷ []
unfolding validate_plan validate_operations check_operations check_operation check_sanitized
    check_action normalized_manifest clean_item sanitize_relative_path validate_safe_path is_inside
    target_of target_resolved has_drive is_absolute_path_str strip is_space has_char split
    replace_char starts_with join member
protected_file = refl

validate_plan-IsValidPlan_example :
    ((validate_plan plain_files (codes "/workspace") plan files).is_valid ≡ true)
    ↔ IsValidPlan plain_files (codes "/workspace") plan files
validate_plan-IsValidPlan_example =
    validate_plan-IsValidPlan plain_files (codes "/workspace") files plan
