-- ===== src/Codegen/Integration/ProductMap.antt =====
-- `build_product_map` of backend/src/kosmo/domain/codegen/integration_rules.py, without the entities.
-- A dict is the list of its entries in the order of their insertion.
use kosmo.Base.{
  ℕ, suc, Bool, false, Option, none, some, List, [], ◌∷◌, ◌++◌, map, keep, if◌then◌else◌,
}
use kosmo.Base.Text.{Text, codes, text_eq, replace_char}
use kosmo.Trace.{Feature}
use kosmo.Codegen.Integration.{
  Words, FeatureDisposition, extract_actors_from_text, determine_feature_disposition,
}

pub record ActorRef : Type 0 where
  pub name : Text
  pub navigation_group : Text
  pub feature_ids : List Text

pub record CapabilityRef : Type 0 where
  pub name : Text
  pub description : Text
  pub provided_by_feature_id : Text
  pub consumed_by_feature_ids : List Text

pub record ProductFlowStep : Type 0 where
  pub step_number : ℕ
  pub feature_id : Text
  pub description : Text
  pub actor : Text

pub record ProductFlow : Type 0 where
  pub name : Text
  pub actor : Text
  pub steps : List ProductFlowStep

pub record ProductMap : Type 0 where
  pub project_id : Text
  pub actors : List ActorRef
  pub capabilities : List CapabilityRef
  pub flows : List ProductFlow
  pub dispositions : List FeatureDisposition

-- `actor_feature_map.setdefault(act, []).append(id)`.
unfoldable pub add_feature : Text → Text → List (Text × List Text) → List (Text × List Text)
add_feature actor id [] = (actor, id ∷ []) ∷ []
add_feature actor id ((name, ids) ∷ entries) =
    let rest = add_feature actor id entries in
    if text_eq name actor then (name, ids ++ (id ∷ [])) ∷ entries else (name, ids) ∷ rest

unfoldable pub add_to_actors : Text → List Text → List (Text × List Text) → List (Text × List Text)
unfolding add_feature
add_to_actors id [] entries = entries
add_to_actors id (actor ∷ actors) entries = add_to_actors id actors (add_feature actor id entries)

-- `actor_feature_map[d_act] = []` for each actor of the discovery.
unfoldable pub start_actor : Text → List (Text × List Text) → List (Text × List Text)
start_actor actor [] = (actor, []) ∷ []
start_actor actor ((name, ids) ∷ entries) =
    let rest = start_actor actor entries in
    if text_eq name actor then (name, []) ∷ entries else (name, ids) ∷ rest

unfoldable pub start_actors : List Text → List (Text × List Text) → List (Text × List Text)
unfolding start_actor
start_actors [] entries = entries
start_actors (actor ∷ actors) entries = start_actors actors (start_actor actor entries)

unfoldable pub actor_ref : Text × List Text → ActorRef
actor_ref (name, ids) = record {
  name = name;
  navigation_group =
      if text_eq name (codes "General") then codes "General" else codes "Área " ++ name;
  feature_ids = ids;
}

-- `dispositions[id] = disp`.
unfoldable pub put_disposition :
    FeatureDisposition → List FeatureDisposition → List FeatureDisposition
put_disposition d [] = d ∷ []
put_disposition d (e ∷ es) =
    let rest = put_disposition d es in
    if text_eq e.feature_id d.feature_id then d ∷ es else e ∷ rest

-- `d.target_feature_id == id`.
abbrev pub is_target : Text → Option Text → Bool
is_target id none = false
is_target id (some t) = text_eq t id

unfoldable pub capability_of : List FeatureDisposition → Feature → CapabilityRef
capability_of dispositions f = record {
  name = replace_char b'-' b'_' f.slug;
  description = f.title;
  provided_by_feature_id = f.id;
  consumed_by_feature_ids =
      map (λ (d : FeatureDisposition). d.feature_id)
        (keep (λ (d : FeatureDisposition). is_target f.id d.target_feature_id) dispositions);
}

-- The title of the first feature with the id, or the id.
unfoldable pub title_of : Text → List Feature → Text
title_of id [] = id
title_of id (f ∷ fs) = if text_eq f.id id then f.title else title_of id fs

unfoldable pub steps_from : ℕ → Text → List Feature → List Text → List ProductFlowStep
unfolding title_of
steps_from n actor features [] = []
steps_from n actor features (id ∷ ids) =
    record { step_number = n; feature_id = id; description = title_of id features; actor = actor }
    ∷ steps_from (suc n) actor features ids

unfoldable pub flow_of : List Feature → Text → List Text → List ProductFlow → List ProductFlow
unfolding steps_from
flow_of features actor [] rest = rest
flow_of features actor (id ∷ ids) rest =
    record {
      name = codes "Flujo de " ++ actor;
      actor = actor;
      steps = steps_from 1 actor features (id ∷ ids);
    }
    ∷ rest

unfoldable pub flows_of : List Feature → List ActorRef → List ProductFlow
unfolding flow_of
flows_of features [] = []
flows_of features (a ∷ as_) = flow_of features a.name a.feature_ids (flows_of features as_)

module _ (words : Words) where
  unfoldable pub actor_entries :
      List Text → List Feature → List (Text × List Text) → List (Text × List Text)
  unfolding add_to_actors
  actor_entries discovery_actors [] entries = entries
  actor_entries discovery_actors (f ∷ fs) entries = actor_entries discovery_actors fs (
      add_to_actors f.id (extract_actors_from_text words f.origin f.description discovery_actors)
        entries)

  unfoldable pub dispositions_of :
      List Feature
      → List Text
      → List Text
      → List Feature
      → List FeatureDisposition
      → List FeatureDisposition
  unfolding put_disposition
  dispositions_of existing implemented discovery_actors [] entries = entries
  dispositions_of existing implemented discovery_actors (f ∷ fs) entries =
      dispositions_of existing implemented discovery_actors fs (
        put_disposition
          (determine_feature_disposition words f existing implemented discovery_actors) entries)

  unfoldable pub build_product_map : Text → List Feature → List Text → List Text → ProductMap
  unfolding start_actors actor_entries actor_ref dispositions_of capability_of flows_of
  build_product_map project_id features implemented discovery_actors =
      let actors =
        map actor_ref
          (actor_entries discovery_actors features (start_actors discovery_actors [])) in
      let dispositions = dispositions_of features implemented discovery_actors features [] in
      record {
        project_id = project_id;
        actors = actors;
        capabilities = map (capability_of dispositions) features;
        flows = flows_of features actors;
        dispositions = dispositions;
      }
