-- ===== src/Validators/ActivityDiagram/Balanced.antt =====
-- Which diagrams are valid, and how deep they nest.
use kosmo.Base.{
  ℕ, Bool, true, false, not, ◌&&◌, List, [], ◌∷◌, count_if, is_empty, ltb, ◌==◌, ◌≡◌, refl, ap, ◌∙◌,
  arith, if◌then◌else◌,
}
use kosmo.Base.Text.{Text, codes, strip, starts_with, ends_with}
use kosmo.Validators.ActivityDiagram.{
  Limits, is_if, is_endif, is_fork, is_end_merge, lines_of, report, if_errors, fork_errors,
  diagram_errors, validate_activity_diagram_syntax,
}

-- One of two messages unless the numbers are the same.
is_empty-unbalanced :
    (a b : ℕ) (s t : Text) (rest : List Text)
    → is_empty (if ltb b a then s ∷ rest else if ltb a b then t ∷ rest else rest)
      ≡ ((a == b) && is_empty rest)
is_empty-unbalanced a b s t rest = ground arith

is_empty-report :
    (b : Bool) (t : Text) (rest : List Text)
    → is_empty (report (not b) t rest) ≡ (b && is_empty rest)
is_empty-report true t rest = refl
is_empty-report false t rest = refl

and_true : (b : Bool) → (b && true) ≡ b
and_true true = refl
and_true false = refl

fork_errors-empty :
    (lines : List Text)
    → is_empty (fork_errors lines) ≡ (count_if is_fork lines == count_if is_end_merge lines)
unfolding fork_errors
fork_errors-empty lines =
    is_empty-unbalanced (count_if is_fork lines) (count_if is_end_merge lines) _ _ []
    ∙ and_true (count_if is_fork lines == count_if is_end_merge lines)

if_errors-empty :
    (lines rest : List Text)
    → is_empty (if_errors lines rest)
      ≡ ((count_if is_if lines == count_if is_endif lines) && is_empty rest)
unfolding if_errors
if_errors-empty lines rest =
    is_empty-unbalanced (count_if is_if lines) (count_if is_endif lines) _ _ rest

-- A diagram is valid exactly if, without the blanks around it, it starts with @startuml, ends with
-- @enduml, and has as many lines that open a condition or a fork as lines that close one; the limits
-- never make it invalid.
pub validate_activity_diagram_syntax-balanced :
    (limits : Limits) (text : Text)
    → (validate_activity_diagram_syntax limits text).is_valid ≡ (
        starts_with (strip text) (codes "@startuml")
        && (ends_with (strip text) (codes "@enduml")
            && ((count_if is_if (lines_of (strip text))
                  == count_if is_endif (lines_of (strip text)))
                && (count_if is_fork (lines_of (strip text))
                    == count_if is_end_merge (lines_of (strip text))))))
unfolding validate_activity_diagram_syntax diagram_errors
validate_activity_diagram_syntax-balanced limits text =
    let lines = lines_of (strip text) in
    is_empty-report (starts_with (strip text) (codes "@startuml")) _ _
    ∙ ap (λ b. starts_with (strip text) (codes "@startuml") && b)
        (is_empty-report (ends_with (strip text) (codes "@enduml")) _ _
          ∙ ap (λ b. ends_with (strip text) (codes "@enduml") && b)
              (if_errors-empty lines (fork_errors lines)
                ∙ ap (λ b. (count_if is_if lines == count_if is_endif lines) && b)
                    (fork_errors-empty lines)))
