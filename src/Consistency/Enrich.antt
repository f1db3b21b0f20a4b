-- ===== src/Consistency/Enrich.antt =====
-- Turning an answer of the evaluator into suggestions: backend/src/kosmo/application/consistency/
-- enrich_impact.py, with normalize_for_match of domain/sdd/text_normalizer.py. What the regular
-- expressions find is a parameter: the codes of requirements in a text, and the requirements in a
-- markdown, of which this code reads the id, the title and the statement.
pub mod Items
pub mod Targets
mod Tests
use kosmo.Base.{
  ℕ, Bool, true, false, not, ◌&&◌, ◌||◌, Option, none, some, List, [], ◌∷◌, ◌++◌, map, keep,
  is_some, is_empty, ltb, ◌==◌, if◌then◌else◌,
}
use kosmo.Base.Text.{Text, codes, text_eq, member, strip, contains, sorted_set}
use kosmo.Base.Decimal.{decimal}
use kosmo.Trace.{
  SpecPhase, descubrimiento, caracteristicas, requisitos, modelo, implementacion, Feature,
}
use kosmo.Consistency.Artifacts.{Artifacts}
use kosmo.Consistency.Handlers.{Editing}
use kosmo.Consistency.Evaluations.{SuggestedDiff}
use kosmo.Consistency.Output.{ArtifactAction, ConsistencyEvaluationOutput, ImpactItem}

pub record Requirement : Type 0 where
  pub feature_number : ℕ
  pub requirement_number : ℕ
  pub title : Text
  pub statement : Text

-- The regular expressions.
pub record Patterns : Type 0 where
  pub find_codes : Text → List Text
  pub parse_requirements_markdown : Text → Text → ℕ → List Requirement

-- `EARSRequirement.display_id`.
unfoldable pub requirement_id : Requirement → Text
requirement_id r =
    codes "REQ-" ++ (decimal r.feature_number ++ (codes "." ++ decimal r.requirement_number))

-- `Feature.display_id`, the number with two digits.
unfoldable pub display_id : Feature → Text
display_id f =
    if ltb f.number 10 then codes "C0" ++ decimal f.number else codes "C" ++ decimal f.number

-- `normalize_for_match`: line ends, then runs of blanks, then runs of line ends.
unfoldable pub unix_lines : Text → Text
unix_lines [] = []
unix_lines (c ∷ []) = (if c == 13 then 10 else c) ∷ []
unix_lines (c ∷ d ∷ s) =
    let rest = unix_lines (d ∷ s) in
    if (c == 13) && (d == 10) then rest else (if c == 13 then 10 else c) ∷ rest

unfoldable pub single_blanks : Bool → Text → Text
single_blanks after [] = []
single_blanks after (c ∷ s) =
    let blank = (c == 32) || (c == 9) in
    let rest = single_blanks blank s in
    if blank then (if after then rest else 32 ∷ rest) else c ∷ rest

unfoldable pub single_lines : Bool → Text → Text
single_lines after [] = []
single_lines after (c ∷ s) =
    let rest = single_lines (c == 10) s in if (c == 10) && after then rest else c ∷ rest

unfoldable pub normalize_for_match : Text → Text
unfolding unix_lines single_blanks single_lines
normalize_for_match t = strip (single_lines false (single_blanks false (unix_lines t)))

-- A dict by id, where the last of two entries counts.
unfoldable pub action_of_id : Text → List ArtifactAction → Option ArtifactAction
action_of_id id [] = none
action_of_id id (a ∷ as_) =
    let later = action_of_id id as_ in
    if is_some later then later else if text_eq a.artifact_id id then some a else none

unfoldable pub requirement_of_id : Text → List Requirement → Option Requirement
unfolding requirement_id
requirement_of_id id [] = none
requirement_of_id id (r ∷ rs) =
    let later = requirement_of_id id rs in
    if is_some later then later else if text_eq (requirement_id r) id then some r else none

-- The first list, unless it is empty.
abbrev pub or_list {ℓ} : {A : Type ℓ} → List A → List A → List A
or_list [] ys = ys
or_list (x ∷ xs) ys = x ∷ xs

module _ (patterns : Patterns) where
  open patterns use {find_codes, parse_requirements_markdown}

  abbrev is_named : Text → Requirement → Bool
  unfolding requirement_id
  is_named field r = text_eq (requirement_id r) field || contains (requirement_id r) field

  abbrev is_about : Text → Requirement → Bool
  is_about before r =
      let sought = normalize_for_match before in
      contains sought (normalize_for_match r.statement)
      || (contains sought (normalize_for_match r.title)
          || contains (normalize_for_match r.statement) sought)

  -- `_find_matching_requirements` of an action.
  unfoldable pub find_matching_requirements : List Requirement → ArtifactAction → List Requirement
  unfolding requirement_id
  find_matching_requirements current action =
      or_list (keep (is_named action.suggested_field) current) (
        or_list
          (keep (λ (r : Requirement). member (requirement_id r) (find_codes action.rationale))
            current)
          (if is_empty action.suggested_before
            then []
            else keep (is_about action.suggested_before) current))
