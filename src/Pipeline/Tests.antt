-- ===== src/Pipeline/Tests.antt =====
-- Runs and instances of the generation loop.
use kosmo.Base.{
  ℕ, ◌-◌, ◌≤◌, true, false, not, Option, none, some, [], ◌∷◌, ◌≡◌, refl, arith, is_empty, ltb,
  if◌then◌else◌,
}
use kosmo.Base.Text.{Text, codes}
use kosmo.Pipeline.Generation.{
  Mode, Services, Session, GenerationMetadata, run, iterate, finish, attempted, with_answer,
  retried, prepare_retry, start, consultation, metadata_of, session_of, consulted, logged_tools,
}
use kosmo.Pipeline.Generation.Outcome.{run-Succeeds}

-- A mode that wants a text that is not empty.
abbrev some_text : Mode Text (Option Text × GenerationMetadata)
some_text = record {
  system_prompt = codes "s";
  user_prompt = codes "u";
  requires_enrichment = true;
  requires_tool_consultation = false;
  validate_output = λ t. record { is_valid = not (is_empty t); errors = codes "e" ∷ [] };
  build_validation_feedback = λ es. codes "again";
  build_output = λ out validation metadata. (out, metadata);
  show_output = λ t. t;
}

-- A model whose first answer is empty.
abbrev second_time : Services Text
second_time = record {
  enrich = λ s u. s;
  resolve = λ s u. ([], [], []);
  resolve_knowledge_tools = λ i s u. none;
  complete_typed = λ i s u. some (if ltb i 2 then [] else codes "ok");
}

run-Succeeds_example :
    (out : Text) × (calls : ℕ) × ((run some_text second_time 3 7 (some (codes "p1")) none).0
      ≡ (some out, record { llm_calls = calls; retry_count = calls - 1; generation_time_ms = 7 }))
    × (not (is_empty out) ≡ true)
    × (calls ≤ 3)
run-Succeeds_example =
    run-Succeeds some_text second_time 3 7 (some (codes "p1")) none 2 (λ j p. refl)
      (λ p. (codes "ok", refl, refl)) (omega arith) (omega arith)

two_calls :
    (run some_text second_time 3 7 (some (codes "p1")) none).0
    ≡ (some (codes "ok"), record { llm_calls = 2; retry_count = 1; generation_time_ms = 7 })
unfolding run iterate finish attempted with_answer retried prepare_retry start consultation
    metadata_of consulted logged_tools
two_calls = refl

abbrev recorded_session : Session Text
recorded_session = record {
  session_type = codes "generation";
  current_iteration = 1;
  output = some (codes "ok");
  validation = record { is_valid = true; errors = codes "e" ∷ [] };
  conversation =
      record {
        iteration = 1;
        user_prompt = codes "u";
        output_snippet = codes "ok";
        is_valid = true;
      }
      ∷ [];
  reasoning_log = [];
  tool_results = [];
  is_completed = true;
}

abbrev first_time : Services Text
first_time = record second_time { complete_typed = λ i s u. some (codes "ok") }

abbrev tool_text : Mode Text (Option Text × GenerationMetadata)
tool_text = record some_text { requires_tool_consultation = true }

run_recorded : (run tool_text first_time 3 7 (some (codes "p1")) none).1 ≡ some recorded_session
unfolding run iterate finish attempted with_answer retried prepare_retry start consultation
    metadata_of consulted logged_tools session_of
run_recorded = refl
