-- ===== src/Consistency/Enrich/Items.antt =====
-- `enrich_impact_items` of backend/src/kosmo/application/consistency/enrich_impact.py.
use kosmo.Base.{
  Bool, not, ◌&&◌, ◌||◌, Option, none, some, List, [], ◌∷◌, ◌++◌, map, is_some, is_empty,
  if◌then◌else◌,
}
use kosmo.Base.Text.{Text, codes, text_eq, sorted_set}
use kosmo.Trace.{
  SpecPhase, descubrimiento, caracteristicas, requisitos, modelo, implementacion, Feature,
}
use kosmo.Consistency.Artifacts.{Artifacts}
use kosmo.Consistency.Handlers.{Editing}
use kosmo.Consistency.Evaluations.{SuggestedDiff}
use kosmo.Consistency.Output.{ArtifactAction, ConsistencyEvaluationOutput, ImpactItem}
use kosmo.Consistency.Enrich.{
  Requirement, Patterns, requirement_id, display_id, action_of_id, requirement_of_id, or_list,
  find_matching_requirements,
}

-- `t or default`.
abbrev pub or_empty : Text → Text → Text
or_empty [] default = default
or_empty (c ∷ t) default = c ∷ t

abbrev pub diff_at : Text → Text → Text → Option SuggestedDiff
diff_at field before after =
    some (record { field = some field; before = some before; after = some after })

-- Both texts of the change are given.
abbrev pub has_change : ArtifactAction → Bool
has_change a = not (is_empty a.suggested_before) && not (is_empty a.suggested_after)

-- `action.action if action else "update"`.
unfoldable pub per_action : Option ArtifactAction → Text
per_action none = codes "update"
per_action (some a) = a.action

unfoldable pub document_diff : Option ArtifactAction → Option SuggestedDiff
document_diff none = none
document_diff (some a) =
    if has_change a
    then diff_at (or_empty a.suggested_field (codes "content")) a.suggested_before a.suggested_after
    else none

unfoldable pub item_of : Text → Text → Text → Option SuggestedDiff → Text → ImpactItem
item_of target_id artifact_type target_display_id diff action = record {
  target_id = target_id;
  artifact_type = artifact_type;
  target_display_id = target_display_id;
  diff = diff;
  action = action;
}

-- The suggestion for one of the requirements that both texts of an action name.
unfoldable pub pair_change :
    ArtifactAction → Option Requirement → Option Requirement → Option SuggestedDiff × Text
pair_change a (some before) (some after) = (
  (if text_eq before.statement after.statement
      then diff_at (codes "statement") a.suggested_before a.suggested_after
      else diff_at (codes "statement") before.statement after.statement),
  codes "update",
)
pair_change a (some before) none = (none, codes "delete")
pair_change a none (some after) = (diff_at (codes "statement") [] after.statement, codes "create")
pair_change a none none = (none, a.action)

module _ (patterns : Patterns) where
  open patterns use {parse_requirements_markdown}

  module _ (target_id : Text) (f : Feature) where
    unfoldable pub requirement_item : Text → Option SuggestedDiff → Text → ImpactItem
    unfolding item_of
    requirement_item id diff action = item_of target_id (codes "EARSRequirement") id diff action

    -- The feature stands for requirements that are not there.
    unfoldable pub for_each : List Requirement → Option SuggestedDiff → Text → List ImpactItem
    unfolding requirement_item requirement_id display_id
    for_each [] diff action = requirement_item (display_id f) diff action ∷ []
    for_each (r ∷ rs) diff action =
        map (λ (q : Requirement). requirement_item (requirement_id q) diff action) (r ∷ rs)

    unfoldable pub first_or_none : List Requirement → List Requirement
    first_or_none [] = []
    first_or_none (r ∷ rs) = r ∷ []

    unfoldable pub matched_items : List Requirement → ArtifactAction → List ImpactItem
    unfolding for_each find_matching_requirements first_or_none
    matched_items current a =
        for_each (or_list (find_matching_requirements patterns current a) (first_or_none current))
          (diff_at (codes "statement") a.suggested_before a.suggested_after) a.action

    unfoldable pub pair_item :
        ArtifactAction → List Requirement → List Requirement → Text → ImpactItem
    unfolding requirement_item pair_change requirement_of_id
    pair_item a before after id =
        let (diff, action) =
          pair_change a (requirement_of_id id before) (requirement_of_id id after) in
        requirement_item id diff action

    unfoldable pub change_items : List Requirement → ArtifactAction → List ImpactItem
    unfolding matched_items pair_item requirement_id
    change_items current a =
        let before = parse_requirements_markdown a.suggested_before f.id f.number in
        let after = parse_requirements_markdown a.suggested_after f.id f.number in
        if is_empty before || is_empty after
        then matched_items current a
        else map (pair_item a before after)
            (sorted_set (map requirement_id before ++ map requirement_id after))

    -- Without the texts of a change: a deletion takes every requirement, else the first one.
    unfoldable pub plain_items : List Requirement → Text → List ImpactItem
    unfolding for_each first_or_none
    plain_items current action =
        if text_eq action (codes "delete")
        then for_each current none action
        else for_each (first_or_none current) none action

    unfoldable pub named_items :
        List Requirement → ArtifactAction → Option Requirement → List ImpactItem
    unfolding requirement_item requirement_id change_items plain_items
    named_items current a (some r) =
        requirement_item (requirement_id r)
          (if has_change a
            then diff_at (codes "statement") a.suggested_before a.suggested_after
            else none)
          a.action
        ∷ []
    named_items current a none =
        if has_change a then change_items current a else plain_items current a.action

    unfoldable pub requirement_items : Option ArtifactAction → List Requirement → List ImpactItem
    unfolding plain_items named_items requirement_of_id
    requirement_items none current = plain_items current (codes "update")
    requirement_items (some a) current =
        named_items current a
          (if is_empty a.suggested_field then none else requirement_of_id a.suggested_field current)

    unfoldable pub markdown_items : Option ArtifactAction → Option Text → List ImpactItem
    unfolding requirement_items
    markdown_items action none = []
    markdown_items action (some md) =
        requirement_items action (parse_requirements_markdown md f.id f.number)

  module _ (edit : Editing) where
    open edit use {Document, strip_origin_line}

    unfoldable pub feature_diff : Option ArtifactAction → Option SuggestedDiff
    feature_diff none = none
    feature_diff (some a) =
        if has_change a
        then diff_at (or_empty a.suggested_field (codes "description"))
            (strip_origin_line a.suggested_before) (strip_origin_line a.suggested_after)
        else none

    unfoldable pub feature_items :
        SpecPhase → Text → Feature → Option ArtifactAction → Artifacts Document → List ImpactItem
    unfolding feature_diff item_of per_action display_id markdown_items
    feature_items caracteristicas id f action w =
        item_of id (codes "Feature") (display_id f) (feature_diff action) (per_action action) ∷ []
    feature_items requisitos id f action w = markdown_items id f action (w.requirements f.id)
    feature_items modelo id f action w =
        if is_some (w.diagrams f.id)
        then item_of id (codes "ActivityDiagram") (display_id f) (feature_diff action)
            (per_action action)
          ∷ []
        else []
    feature_items implementacion id f action w =
        item_of id (codes "FeatureImplementation") (display_id f) none (per_action action) ∷ []
    feature_items descubrimiento id f action w = []

    unfoldable pub found_items :
        SpecPhase
        → Text
        → Option Feature
        → Option ArtifactAction
        → Artifacts Document
        → List ImpactItem
    unfolding feature_items
    found_items target id none action w = []
    found_items target id (some f) action w = feature_items target id f action w

    unfoldable pub artifact_items :
        SpecPhase → List ArtifactAction → Artifacts Document → Text → List ImpactItem
    unfolding found_items item_of document_diff per_action action_of_id
    artifact_items descubrimiento actions w id =
        let action = action_of_id id actions in
        item_of id (codes "DiscoveryDocument") (codes "Documento") (document_diff action)
          (per_action action)
        ∷ []
    artifact_items target actions w id =
        found_items target id (w.features id) (action_of_id id actions) w

    unfoldable pub items_of :
        SpecPhase → List ArtifactAction → Artifacts Document → List Text → List ImpactItem
    unfolding artifact_items
    items_of target actions w [] = []
    items_of target actions w (id ∷ ids) =
        artifact_items target actions w id ++ items_of target actions w ids

    unfoldable pub enrich_impact_items :
        ConsistencyEvaluationOutput → SpecPhase → SpecPhase → Artifacts Document → List ImpactItem
    unfolding items_of
    enrich_impact_items result target_spec source_phase w =
        items_of target_spec result.actions w result.affected_artifact_ids
