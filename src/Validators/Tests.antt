-- ===== src/Validators/Tests.antt =====
-- Runs and instances of the validators.
use kosmo.Base.{◌&&◌, [], ◌∷◌, ◌++◌, ◌==◌, ◌≡◌, refl, count_if}
use kosmo.Base.Text.{Text, codes, strip, lstrip, is_space, split, starts_with, ends_with}
use kosmo.Base.Decimal.{decimal}
use kosmo.Validators.ActivityDiagram.{
  default_limits, is_if, is_endif, is_fork, is_end_merge, lines_of, deepest, nesting_depth,
  if_errors, fork_errors, diagram_errors, validate_activity_diagram_syntax,
}
use kosmo.Validators.ActivityDiagram.Balanced.{validate_activity_diagram_syntax-balanced}

abbrev open_condition : Text
open_condition = codes "@startuml" ++ (10 ∷ codes "if (a)" ++ (10 ∷ codes "@enduml "))

one_error :
    (validate_activity_diagram_syntax default_limits open_condition).errors
    ≡ codes "Se detectaron condicionales 'if' sin su correspondiente 'endif' (1 if vs 0 endif)" ∷ []
unfolding validate_activity_diagram_syntax diagram_errors if_errors fork_errors lines_of strip
    lstrip is_space split starts_with ends_with decimal
one_error = refl

three_deep :
    nesting_depth (
      codes "endif"
      ∷ codes "if (a)"
      ∷ codes "fork"
      ∷ codes "if (b)"
      ∷ codes "endif"
      ∷ codes "if (c)"
      ∷ [])
    ≡ 2
unfolding nesting_depth deepest starts_with
three_deep = refl

validate_activity_diagram_syntax-balanced_example :
    (validate_activity_diagram_syntax default_limits open_condition).is_valid ≡ (
      starts_with (strip open_condition) (codes "@startuml")
      && (ends_with (strip open_condition) (codes "@enduml")
          && ((count_if is_if (lines_of (strip open_condition))
                == count_if is_endif (lines_of (strip open_condition)))
              && (count_if is_fork (lines_of (strip open_condition))
                  == count_if is_end_merge (lines_of (strip open_condition))))))
validate_activity_diagram_syntax-balanced_example =
    validate_activity_diagram_syntax-balanced default_limits open_condition
