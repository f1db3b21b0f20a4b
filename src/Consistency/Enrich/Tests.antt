-- ===== src/Consistency/Enrich/Tests.antt =====
-- Runs and instances of the enrichment of an answer.
use kosmo.Base.{some, [], ◌∷◌, ◌≡◌, refl, map}
use kosmo.Base.Text.{Text, codes, strip, lstrip, is_space, sorted_set, insert_sorted, text_ltb}
use kosmo.Base.Decimal.{decimal}
use kosmo.Trace.{requisitos, caracteristicas, Feature}
use kosmo.Consistency.Artifacts.{Artifacts}
use kosmo.Consistency.Output.{ConsistencyEvaluationOutput, ImpactItem, analizado_con_impacto}
use kosmo.Consistency.Tests.{whole_texts, one_implementation}
use kosmo.Consistency.Enrich.{
  Patterns, requirement_id, unix_lines, single_blanks, single_lines, normalize_for_match,
  action_of_id, requirement_of_id,
}
use kosmo.Consistency.Enrich.Items.{
  item_of, pair_change, requirement_item, pair_item, change_items, named_items, requirement_items,
  markdown_items, feature_items, found_items, artifact_items, items_of, enrich_impact_items,
}

normalized : normalize_for_match (codes " a \t b") ≡ codes "a b"
unfolding normalize_for_match unix_lines single_blanks single_lines strip lstrip is_space
normalized = refl

abbrev pay : Feature
pay = record {
  id = codes "f1";
  number = 1;
  title = codes "Pay";
  slug = codes "pay";
  description = codes "d";
  project_id = codes "p1";
  origin = codes "o";
  created_at = 1;
  updated_at = 1;
}

-- A markdown is its first requirement, and has a second one if it says so.
abbrev by_letter : Patterns
by_letter = record {
  find_codes = λ t. [];
  parse_requirements_markdown = λ t id n.
      map
        (λ c. record {
          feature_number = 1;
          requirement_number = c;
          title = codes "t";
          statement = t;
        })
        t;
}

abbrev one_feature : Artifacts Text
one_feature = record one_implementation {
  features = λ t. some pay;
  requirements = λ t. some (1 ∷ 2 ∷ []);
}

-- The second requirement is dropped and a third one is made.
abbrev replaced : ConsistencyEvaluationOutput
replaced = record {
  status = analizado_con_impacto;
  affected_artifact_ids = codes "f1" ∷ [];
  failure_reason = [];
  actions =
      record {
        artifact_id = codes "f1";
        action = codes "update";
        rationale = [];
        suggested_field = [];
        suggested_before = 1 ∷ 2 ∷ [];
        suggested_after = 1 ∷ 3 ∷ [];
      }
      ∷ [];
}

replaced_items :
    map {B = Text × Text}
      (λ (i : ImpactItem). (i.target_display_id, i.action))
      (enrich_impact_items by_letter whole_texts replaced requisitos caracteristicas one_feature)
    ≡ (codes "REQ-1.1", codes "update")
      ∷ (codes "REQ-1.2", codes "delete")
      ∷ (codes "REQ-1.3", codes "create")
      ∷ []
unfolding enrich_impact_items items_of artifact_items found_items feature_items markdown_items
    requirement_items named_items change_items pair_item pair_change requirement_item item_of
    sorted_set insert_sorted text_ltb requirement_id requirement_of_id action_of_id decimal
replaced_items = refl
