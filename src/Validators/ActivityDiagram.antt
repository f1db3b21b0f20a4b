-- ===== src/Validators/ActivityDiagram.antt =====
-- backend/src/kosmo/domain/sdd/validators/activity_diagram_validator.py: the checks of an activity
-- diagram in PlantUML.
pub mod Balanced
use kosmo.Base.{
  ℕ, ◌+◌, ◌-◌, max, Bool, true, false, not, ◌&&◌, ◌||◌, List, [], ◌∷◌, ◌++◌, map, any, count_if,
  is_empty, ltb, if◌then◌else◌,
}
use kosmo.Base.Text.{Text, codes, text_eq, strip, split, starts_with, ends_with, has_char}
use kosmo.Base.Decimal.{decimal}

-- `ValidationResult`.
pub record Verdict : Type 0 where
  pub is_valid : Bool
  pub errors : List Text
  pub warnings : List Text

pub record Limits : Type 0 where
  pub max_action_nodes : ℕ
  pub max_swimlanes : ℕ
  pub max_nesting_depth : ℕ

abbrev pub default_limits : Limits
default_limits = record { max_action_nodes = 20; max_swimlanes = 4; max_nesting_depth = 3 }

abbrev pub is_action : Text → Bool
is_action line = starts_with line (codes ":") && has_char b';' line

abbrev pub is_swimlane : Text → Bool
is_swimlane line = starts_with line (codes "|") && ends_with line (codes "|")

abbrev pub is_if : Text → Bool
is_if line = starts_with line (codes "if ") || starts_with line (codes "if(")

abbrev pub is_endif : Text → Bool
is_endif line = text_eq line (codes "endif") || text_eq line (codes "end if")

abbrev pub is_fork : Text → Bool
is_fork line = text_eq line (codes "fork")

abbrev pub is_end_merge : Text → Bool
is_end_merge line = text_eq line (codes "end merge") || text_eq line (codes "endmerge")

unfoldable pub count_action_nodes : List Text → ℕ
count_action_nodes lines = count_if is_action lines

unfoldable pub count_swimlanes : List Text → ℕ
count_swimlanes lines = count_if is_swimlane lines

-- `depth` may be negative in the source: it is `opened` less `closed`, and the greatest depth, which
-- starts at 0, takes no notice of a negative one.
unfoldable pub deepest : ℕ → ℕ → ℕ → List Text → ℕ
deepest opened closed max_depth [] = max_depth
deepest opened closed max_depth (line ∷ lines) =
    let opens = is_if line || (not (is_endif line) && is_fork line) in
    let closes = not (is_if line) && (is_endif line || (not (is_fork line) && is_end_merge line)) in
    deepest (if opens then opened + 1 else opened) (if closes then closed + 1 else closed)
      (if opens then max max_depth (opened + 1 - closed) else max_depth) lines

unfoldable pub nesting_depth : List Text → ℕ
unfolding deepest
nesting_depth lines = deepest 0 0 0 lines

-- The lines of a diagram, without the blanks around them.
unfoldable pub lines_of : Text → List Text
lines_of diagram = map strip (split 10 diagram)

-- A message, if a test holds.
abbrev pub report : Bool → Text → List Text → List Text
report b t rest = if b then t ∷ rest else rest

-- `({a} x vs {b} y)`.
abbrev pub versus : Text → ℕ → Text → ℕ → Text → Text
unfolding decimal
versus message a x b y =
    message ++ (decimal a ++ (x ++ (codes " vs " ++ (decimal b ++ (y ++ codes ")")))))

unfoldable pub if_errors : List Text → List Text → List Text
unfolding decimal
if_errors lines rest =
    let a = count_if is_if lines in
    let b = count_if is_endif lines in
    if ltb b a
    then versus (codes "Se detectaron condicionales 'if' sin su correspondiente 'endif' (") a
        (codes " if") b (codes " endif")
      ∷ rest
    else if ltb a b
    then versus (codes "Se detectaron 'endif' sobrantes sin un 'if' correspondiente (") a
        (codes " if") b (codes " endif")
      ∷ rest
    else rest

unfoldable pub fork_errors : List Text → List Text
unfolding decimal
fork_errors lines =
    let a = count_if is_fork lines in
    let b = count_if is_end_merge lines in
    if ltb b a
    then versus
        (codes "Se detectaron ramas concurrentes 'fork' sin su correspondiente 'end merge' (") a
        (codes " fork") b (codes " end merge")
      ∷ []
    else if ltb a b
    then versus (codes "Se detectaron 'end merge' sobrantes sin un 'fork' correspondiente (") a
        (codes " fork") b (codes " end merge")
      ∷ []
    else []

unfoldable pub diagram_errors : Text → List Text → List Text
unfolding if_errors fork_errors
diagram_errors diagram lines =
    report (not (starts_with diagram (codes "@startuml")))
      (codes "El diagrama debe comenzar con @startuml")
      (report (not (ends_with diagram (codes "@enduml")))
        (codes "El diagrama debe terminar con @enduml") (if_errors lines (fork_errors lines)))

-- The warnings on the size of a diagram.
unfoldable pub size_warnings : Limits → List Text → List Text
unfolding count_action_nodes count_swimlanes nesting_depth decimal
size_warnings limits lines =
    let nodes = count_action_nodes lines in
    let lanes = count_swimlanes lines in
    let depth = nesting_depth lines in
    report (ltb limits.max_action_nodes nodes)
      (codes "El diagrama contiene "
        ++ (decimal nodes
            ++ (codes " nodos de acción (máximo recomendado: "
                ++ (decimal limits.max_action_nodes ++ codes ")."))))
      (report (ltb limits.max_swimlanes lanes)
        (codes "El diagrama contiene "
          ++ (decimal lanes
              ++ (codes " carriles (máximo recomendado: "
                  ++ (decimal limits.max_swimlanes ++ codes ")."))))
        (report (ltb limits.max_nesting_depth depth)
          (codes "El diagrama tiene un anidamiento máximo de "
            ++ (decimal depth
                ++ (codes " niveles (máximo recomendado: "
                    ++ (decimal limits.max_nesting_depth ++ codes ")."))))
          []))

unfoldable pub diagram_warnings : Limits → List Text → List Text
unfolding size_warnings
diagram_warnings limits lines =
    report (not (any (λ line. text_eq line (codes "start")) lines))
      (codes "Es recomendable incluir un nodo inicial 'start'")
      (report (not (any (λ line. text_eq line (codes "stop") || text_eq line (codes "end")) lines))
        (codes "Es recomendable incluir un nodo final 'stop' o 'end'")
        (report (not (any is_swimlane lines))
          (codes
            "Es recomendable organizar las actividades utilizando carriles/swimlanes (|NombreCarril|)")
          (size_warnings limits lines)))

unfoldable pub validate_activity_diagram_syntax : Limits → Text → Verdict
unfolding diagram_errors diagram_warnings lines_of
validate_activity_diagram_syntax limits text =
    let diagram = strip text in
    let lines = lines_of diagram in
    let errors = diagram_errors diagram lines in
    record { is_valid = is_empty errors; errors = errors; warnings = diagram_warnings limits lines }
