-- ===== src/Pipeline/Generation.antt =====
-- backend/src/kosmo/application/pipeline/generation_loop.py: asking a language model for an artifact
-- until its validation passes, a bounded number of times. The mode is taken with its context applied.
-- The model, the tools and the enricher are parameters; a call that raises gives `none`.
pub mod Loop
pub mod Outcome
use kosmo.Base.{
  ℕ, zero, suc, ◌-◌, ◌^◌, min, Bool, true, false, not, ◌&&◌, Option, none, some, is_some, List, [],
  ◌∷◌, ◌++◌, map, keep, ltb, is_empty, if◌then◌else◌,
}
use kosmo.Base.Text.{Text, codes}

-- contracts/pipeline/phase_outputs.py, less the fields that the loop neither reads nor sets.
pub record ValidationResult : Type 0 where
  pub is_valid : Bool
  pub errors : List Text

pub record GenerationMetadata : Type 0 where
  pub llm_calls : ℕ
  pub retry_count : ℕ
  pub generation_time_ms : ℕ

pub record ToolRecord : Type 0 where
  pub tool : Text
  pub found : Bool

pub data ReasonEntry : Type 0 where
  reason : Text → ReasonEntry
  retry_tools : ℕ → List Text → ReasonEntry

pub record ConversationEntry : Type 0 where
  pub iteration : ℕ
  pub user_prompt : Text
  pub output_snippet : Text
  pub is_valid : Bool

-- `PhaseMode`.
pub record Mode (Output Result : Type 0) : Type 0 where
  pub system_prompt : Text
  pub user_prompt : Text
  pub requires_enrichment : Bool
  pub requires_tool_consultation : Bool
  pub validate_output : Output → ValidationResult
  pub build_validation_feedback : List Text → Text
  pub build_output : Option Output → ValidationResult → GenerationMetadata → Result
  pub show_output : Output → Text

-- The collaborators. The model answers the i-th iteration on a system and a user prompt.
pub record Services (Output : Type 0) : Type 0 where
  pub enrich : Text → Text → Text
  pub resolve : Text → Text → Text × List ToolRecord × List ReasonEntry
  pub resolve_knowledge_tools : ℕ → Text → Text → Option (Text × List ToolRecord)
  pub complete_typed : ℕ → Text → Text → Option Output

-- The variables of `run` that the loop changes; `delays` are the seconds slept.
pub record Progress (Output : Type 0) : Type 0 where
  pub user_prompt : Text
  pub last_output : Option Output
  pub last_validation : ValidationResult
  pub llm_calls : ℕ
  pub conversation : List ConversationEntry
  pub tool_invocations : List ToolRecord
  pub reason_entries : List ReasonEntry
  pub delays : List ℕ

-- What `SessionRecorder.record` is given.
pub record Session (Output : Type 0) : Type 0 where
  pub session_type : Text
  pub current_iteration : ℕ
  pub output : Option Output
  pub validation : ValidationResult
  pub conversation : List ConversationEntry
  pub reasoning_log : List ReasonEntry
  pub tool_results : List ToolRecord
  pub is_completed : Bool

-- `xs[:n]`.
abbrev pub first {ℓ} : {A : Type ℓ} → ℕ → List A → List A
first zero xs = []
first (suc n) [] = []
first (suc n) (x ∷ xs) = x ∷ first n xs

-- `"; ".join(errors)`.
abbrev pub error_list : List Text → Text
error_list [] = []
error_list (e ∷ []) = e
error_list (e ∷ f ∷ es) = e ++ codes "; " ++ error_list (f ∷ es)

-- Whether an optional text is true as a condition.
abbrev pub has_text : Option Text → Bool
has_text none = false
has_text (some t) = not (is_empty t)

-- What an iteration comes to: the call raised, or the output was validated.
pub data Attempt (Output : Type 0) : Type 0 where
  call_failed : Attempt Output
  answered : Progress Output → Attempt Output

module _ {Output Result : Type 0} (mode : Mode Output Result) (services : Services Output) where
  open services use {enrich, resolve, resolve_knowledge_tools, complete_typed}

  -- The counter, the validation and the conversation after an answer.
  unfoldable pub with_answer : ℕ → Progress Output → Output → Progress Output
  with_answer iteration s out = record s {
    last_output = some out;
    last_validation = mode.validate_output out;
    llm_calls = suc s.llm_calls;
    conversation =
        s.conversation
        ++ record {
          iteration = iteration;
          user_prompt = first 500 s.user_prompt;
          output_snippet = first 500 (mode.show_output out);
          is_valid = (mode.validate_output out).is_valid;
        }
          ∷ [];
  }

  unfoldable pub attempted : ℕ → Progress Output → Option Output → Attempt Output
  attempted iteration s none = call_failed
  attempted iteration s (some out) = answered (with_answer iteration s out)

  unfoldable pub found_tools : List ToolRecord → List Text
  found_tools records =
      map (λ (r : ToolRecord). r.tool) (keep (λ (r : ToolRecord). r.found) records)

  -- The records of the retry are logged if there are any.
  unfoldable pub logged_tools : ℕ → List ToolRecord → Progress Output → Progress Output
  logged_tools iteration records s = if is_empty records then s else record s {
    tool_invocations = s.tool_invocations ++ records;
    reason_entries = s.reason_entries ++ retry_tools iteration (found_tools records) ∷ [];
  }

  -- The prompt of the next iteration: the base, the context of the retry if any, and the feedback.
  unfoldable pub retry_prompt : Text → List Text → Text
  retry_prompt retry_context errors =
      (if is_empty retry_context
        then mode.user_prompt
        else mode.user_prompt
          ++ codes "\n\n## Informacion adicional del retry\n\n"
          ++ retry_context)
      ++ codes "\n\n"
      ++ mode.build_validation_feedback errors

  unfoldable pub consulted : ℕ → Progress Output → Option (Text × List ToolRecord) → Progress Output
  consulted iteration s none = record s { user_prompt = retry_prompt [] s.last_validation.errors }
  consulted iteration s (some (context, records)) =
      logged_tools iteration records
        (record s { user_prompt = retry_prompt context s.last_validation.errors })

  unfoldable pub retry_system_prompt : Text → Text
  retry_system_prompt system =
      system
      ++ codes "\n\nLa validacion del contenido generado fallo "
      ++ codes "con los siguientes errores. Puedes consultar herramientas "
      ++ codes "para corregir antes de reintentar."

  -- What follows an output that is not valid: the pause and the prompt for the next iteration.
  unfoldable pub prepare_retry : ℕ → Text → ℕ → Progress Output → Progress Output
  prepare_retry max_iterations system iteration s =
      let s' = record s { delays = s.delays ++ min (2 ^ (iteration - 1)) 5 ∷ [] } in
      if mode.requires_enrichment
        && (not (is_empty s.last_validation.errors) && ltb iteration max_iterations)
      then consulted iteration s' (
          resolve_knowledge_tools iteration (retry_system_prompt system)
            (codes "Errores de validacion: " ++ error_list (first 5 s.last_validation.errors)))
      else record s' { user_prompt = retry_prompt [] s.last_validation.errors }

  unfoldable pub retried : ℕ → Text → ℕ → Progress Output → Attempt Output → Progress Output
  retried max_iterations system iteration s call_failed = s
  retried max_iterations system iteration s (answered s') =
      prepare_retry max_iterations system iteration s'

  -- The loop stops on a failed call and on a valid output, which is what the test says.
  unfoldable pub finish :
      Progress Output → Attempt Output → Progress Output × Bool → Progress Output × Bool
  finish s call_failed rest = (s, false)
  finish s (answered s') rest = if s'.last_validation.is_valid then (s', true) else rest

  -- The loop, with the number of iterations that are left.
  unfoldable pub iterate : ℕ → Text → ℕ → ℕ → Progress Output → Progress Output × Bool
  iterate max_iterations system zero iteration s = (s, false)
  iterate max_iterations system (suc left) iteration s =
      let attempt = attempted iteration s (complete_typed iteration system s.user_prompt) in
      let rest =
        iterate max_iterations system left (suc iteration)
          (retried max_iterations system iteration s attempt) in
      finish s attempt rest

  unfoldable pub enriched_prompt : Text
  enriched_prompt =
      if mode.requires_enrichment
      then enrich mode.system_prompt mode.user_prompt
      else mode.system_prompt

  unfoldable pub consultation : Text × List ToolRecord × List ReasonEntry
  consultation =
      if mode.requires_tool_consultation
      then resolve enriched_prompt mode.user_prompt
      else if mode.requires_enrichment
      then (
        [],
        [],
        reason (codes "pre_consulta_tools: omitida por el modo (generacion desde cero)") ∷ [],
      )
      else ([], [], [])

  unfoldable pub start : Progress Output
  start =
      let (knowledge_context, tool_invocations, reason_entries) = consultation in
      record {
        user_prompt =
            if is_empty knowledge_context
            then mode.user_prompt
            else mode.user_prompt
              ++ codes "\n\n## Informacion adicional recuperada\n\n"
              ++ knowledge_context;
        last_output = none;
        last_validation = record { is_valid = false; errors = codes "No se genero contenido" ∷ [] };
        llm_calls = 0;
        conversation = [];
        tool_invocations = tool_invocations;
        reason_entries = reason_entries;
        delays = [];
      }

  unfoldable pub session_of : Option Text → Progress Output → Bool → Session Output
  session_of user_instructions s accepted = record {
    session_type = if has_text user_instructions then codes "refinement" else codes "generation";
    current_iteration = s.llm_calls;
    output = s.last_output;
    validation = s.last_validation;
    conversation = s.conversation;
    reasoning_log = s.reason_entries;
    tool_results = s.tool_invocations;
    is_completed = accepted;
  }

  unfoldable pub metadata_of : ℕ → Progress Output → GenerationMetadata
  metadata_of total_ms s = record {
    llm_calls = s.llm_calls;
    retry_count = s.llm_calls - 1;
    generation_time_ms = total_ms;
  }

  -- `GenerationLoop.run`: the result, and the session that is recorded if any.
  unfoldable pub run : ℕ → ℕ → Option Text → Option Text → Result × Option (Session Output)
  run max_iterations total_ms project_id user_instructions =
      let (s, accepted) = iterate max_iterations enriched_prompt max_iterations 1 start in
      (
        mode.build_output s.last_output s.last_validation (metadata_of total_ms s),
        if mode.requires_enrichment && is_some project_id
            then some (session_of user_instructions s accepted)
            else none,
      )
