-- ===== src/Codegen/Integration/Tests.antt =====
-- Runs and instances of the rules of integration.
use kosmo.Base.{[], ◌∷◌, ◌≡◌, refl, map}
use kosmo.Base.Text.{codes, member, split, contains, starts_with}
use kosmo.Trace.{Feature}
use kosmo.Codegen.Integration.{
  Words, tokens_of, flow_target, disposed, by_flow, by_entities, shared_with, discovered, known,
  extract_actors_from_text, determine_feature_disposition,
}
use kosmo.Codegen.Integration.ProductMap.{
  CapabilityRef, add_feature, add_to_actors, start_actor, start_actors, actor_ref, put_disposition,
  capability_of, actor_entries, dispositions_of, build_product_map,
}

-- Texts that are written without accents and stop words.
abbrev plain_words : Words
plain_words = record { normalize_tokens = λ t. split b' ' t; strip_accents = λ t. t }

abbrev register : Feature
register = record {
  id = codes "f1";
  number = 1;
  title = codes "registro";
  slug = codes "registro-de-cliente";
  description = codes "cliente";
  project_id = codes "p1";
  origin = codes "o";
  created_at = 1;
  updated_at = 1;
}

abbrev terms : Feature
terms = record register {
  id = codes "f2";
  number = 2;
  title = codes "terminos";
  slug = codes "terminos";
}

consumed :
    map
      (λ (c : CapabilityRef). c.consumed_by_feature_ids)
      (build_product_map plain_words
        (codes "p1")
        (register ∷ terms ∷ [])
        (codes "f1" ∷ [])
        []).capabilities
    ≡ (codes "f2" ∷ []) ∷ [] ∷ []
unfolding build_product_map start_actors start_actor actor_entries add_to_actors add_feature
    actor_ref dispositions_of put_disposition capability_of determine_feature_disposition tokens_of
    flow_target by_flow by_entities shared_with disposed extract_actors_from_text discovered known
    member split contains starts_with
consumed = refl
