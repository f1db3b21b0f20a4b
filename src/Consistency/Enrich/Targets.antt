-- ===== src/Consistency/Enrich/Targets.antt =====
-- What the suggestions of an answer are about.
use kosmo.Base.{
  Bool, true, false, ◌||◌, Option, none, some, List, [], ◌∷◌, ◌++◌, map, is_some, is_empty, ◌≡◌,
  refl, All, All-imp, All-append, All-map, or-true, if◌then◌else◌,
}
use kosmo.Base.Text.{Text, codes, text_eq, member, sorted_set}
use kosmo.Trace.{
  SpecPhase, descubrimiento, caracteristicas, requisitos, modelo, implementacion, Feature, phase_eq,
}
use kosmo.Consistency.Artifacts.{Artifacts}
use kosmo.Consistency.Handlers.{Editing}
use kosmo.Consistency.Evaluations.{SuggestedDiff}
use kosmo.Consistency.Evaluations.Keyed.{text_eq_refl}
use kosmo.Consistency.Output.{ArtifactAction, ConsistencyEvaluationOutput, ImpactItem}
use kosmo.Consistency.Enrich.{
  Requirement, Patterns, requirement_id, action_of_id, or_list, find_matching_requirements,
}
use kosmo.Consistency.Enrich.Items.{
  has_change, diff_at, for_each, first_or_none, matched_items, pair_item, change_items, plain_items,
  named_items, requirement_items, markdown_items, feature_items, found_items, artifact_items,
  items_of, enrich_impact_items,
}

-- The type of the artifacts of a phase.
abbrev pub artifact_type_of : SpecPhase → Text
artifact_type_of descubrimiento = codes "DiscoveryDocument"
artifact_type_of caracteristicas = codes "Feature"
artifact_type_of requisitos = codes "EARSRequirement"
artifact_type_of modelo = codes "ActivityDiagram"
artifact_type_of implementacion = codes "FeatureImplementation"

-- A suggestion for an artifact of a type.
abbrev IsFor : Text → Text → ImpactItem → Type 0
IsFor id type i = (i.target_id ≡ id) × (i.artifact_type ≡ type)

All-if :
    (id type : Text) (b : Bool) (xs ys : List ImpactItem)
    → All (IsFor id type) xs
    → All (IsFor id type) ys
    → All (IsFor id type) (if b then xs else ys)
All-if id type true xs ys hx hy = hx
All-if id type false xs ys hx hy = hy

module _ (patterns : Patterns) (id : Text) (f : Feature) where
  abbrev IsRequirement : ImpactItem → Type 0
  IsRequirement = IsFor id (codes "EARSRequirement")

  for_each-All :
      (rs : List Requirement) (diff : Option SuggestedDiff) (action : Text)
      → All IsRequirement (for_each patterns id f rs diff action)
  unfolding for_each
  for_each-All [] diff action = ((refl, refl), tt)
  for_each-All (r ∷ rs) diff action = All-map IsRequirement _ (r ∷ rs) (λ q. (refl, refl))

  plain_items-All :
      (current : List Requirement) (action : Text)
      → All IsRequirement (plain_items patterns id f current action)
  unfolding plain_items
  plain_items-All current action =
      All-if id (codes "EARSRequirement") (text_eq action (codes "delete")) _ _
        (for_each-All current none action)
        (for_each-All (first_or_none patterns id f current) none action)

  change_items-All :
      (current : List Requirement) (a : ArtifactAction)
      → All IsRequirement (change_items patterns id f current a)
  unfolding change_items matched_items pair_item
  change_items-All current a =
      let before = patterns.parse_requirements_markdown a.suggested_before f.id f.number in
      let after = patterns.parse_requirements_markdown a.suggested_after f.id f.number in
      All-if id (codes "EARSRequirement") (is_empty before || is_empty after)
        (matched_items patterns id f current a)
        (map (pair_item patterns id f a before after)
          (sorted_set (map requirement_id before ++ map requirement_id after)))
        (for_each-All
          (or_list (find_matching_requirements patterns current a)
            (first_or_none patterns id f current))
          (diff_at (codes "statement") a.suggested_before a.suggested_after) a.action)
        (All-map IsRequirement (pair_item patterns id f a before after)
          (sorted_set (map requirement_id before ++ map requirement_id after)) (λ q. (refl, refl)))

  named_items-All :
      (current : List Requirement) (a : ArtifactAction) (o : Option Requirement)
      → All IsRequirement (named_items patterns id f current a o)
  unfolding named_items
  named_items-All current a (some r) = ((refl, refl), tt)
  named_items-All current a none =
      All-if id (codes "EARSRequirement") (has_change a) _ _ (change_items-All current a)
        (plain_items-All current a.action)

  markdown_items-All :
      (action : Option ArtifactAction) (md : Option Text)
      → All IsRequirement (markdown_items patterns id f action md)
  unfolding markdown_items requirement_items
  markdown_items-All action none = tt
  markdown_items-All none (some md) = plain_items-All _ (codes "update")
  markdown_items-All (some a) (some md) = named_items-All _ a _

module _ (patterns : Patterns) (edit : Editing) where
  open edit use {Document}

  feature_items-All :
      (t : SpecPhase) (id : Text) (f : Feature) (action : Option ArtifactAction)
      (w : Artifacts Document)
      → All (IsFor id (artifact_type_of t)) (feature_items patterns edit t id f action w)
  unfolding feature_items
  feature_items-All caracteristicas id f action w = ((refl, refl), tt)
  feature_items-All requisitos id f action w =
      markdown_items-All patterns id f action (w.requirements f.id)
  feature_items-All modelo id f action w =
      All-if id (codes "ActivityDiagram") (is_some (w.diagrams f.id)) _ _ ((refl, refl), tt) tt
  feature_items-All implementacion id f action w = ((refl, refl), tt)
  feature_items-All descubrimiento id f action w = tt

  abbrev IsFound : SpecPhase → Artifacts Document → List Text → ImpactItem → Type 0
  IsFound t w ids i =
      (member i.target_id ids ≡ true)
      × ((is_some (w.features i.target_id) ≡ true) × (i.artifact_type ≡ artifact_type_of t))

  found_items-All :
      (t : SpecPhase) (id : Text) (ids : List Text) (o : Option Feature)
      (action : Option ArtifactAction) (w : Artifacts Document)
      → w.features id ≡ o
      → All (IsFound t w (id ∷ ids)) (found_items patterns edit t id o action w)
  unfolding found_items member
  found_items-All t id ids none action w e = tt
  found_items-All t id ids (some f) action w e =
      All-imp (IsFor id (artifact_type_of t)) _ _
        (λ i (same, type). rw same (rw (text_eq_refl id) refl, (rw e refl, type)))
        (feature_items-All t id f action w)

  artifact_items-All :
      (t : SpecPhase) (actions : List ArtifactAction) (w : Artifacts Document) (id : Text)
      (ids : List Text)
      → phase_eq t descubrimiento ≡ false
      → All (IsFound t w (id ∷ ids)) (artifact_items patterns edit t actions w id)
  unfolding artifact_items
  artifact_items-All descubrimiento actions w id ids h = cc
  artifact_items-All caracteristicas actions w id ids h =
      found_items-All caracteristicas id ids (w.features id) (action_of_id id actions) w refl
  artifact_items-All requisitos actions w id ids h =
      found_items-All requisitos id ids (w.features id) (action_of_id id actions) w refl
  artifact_items-All modelo actions w id ids h =
      found_items-All modelo id ids (w.features id) (action_of_id id actions) w refl
  artifact_items-All implementacion actions w id ids h =
      found_items-All implementacion id ids (w.features id) (action_of_id id actions) w refl

  items_of-All :
      (t : SpecPhase) (actions : List ArtifactAction) (w : Artifacts Document) (ids : List Text)
      → phase_eq t descubrimiento ≡ false
      → All (IsFound t w ids) (items_of patterns edit t actions w ids)
  unfolding items_of member
  items_of-All t actions w [] h = tt
  items_of-All t actions w (id ∷ ids) h =
      All-append (IsFound t w (id ∷ ids)) (artifact_items patterns edit t actions w id)
        (items_of patterns edit t actions w ids) (artifact_items-All t actions w id ids h)
        (All-imp (IsFound t w ids) (IsFound t w (id ∷ ids)) (items_of patterns edit t actions w ids)
          (λ i (known, there). (or-true (text_eq id i.target_id) _ known, there))
          (items_of-All t actions w ids h))

  -- Each suggestion of an enriched answer, for a target other than the discovery document, is for an
  -- artifact that the evaluator named and of a feature that exists, and has the type of the artifacts
  -- of the target.
  pub enrich_impact_items-All :
      (out : ConsistencyEvaluationOutput) (t source : SpecPhase) (w : Artifacts Document)
      → phase_eq t descubrimiento ≡ false
      → All
          (λ i.
            (member i.target_id out.affected_artifact_ids ≡ true)
            × ((is_some (w.features i.target_id) ≡ true) × (i.artifact_type ≡ artifact_type_of t)))
          (enrich_impact_items patterns edit out t source w)
  unfolding enrich_impact_items
  enrich_impact_items-All out t source w h =
      items_of-All t out.actions w out.affected_artifact_ids h
