-- ===== src/Codegen/Integration/Placed.antt =====
-- Where a feature is put: a target is another feature that is implemented.
use kosmo.Base.{
  Bool, true, false, not, ◌&&◌, Option, none, some, List, [], ◌∷◌, any, ◌≡◌, refl, subst, inl, inr,
  ◌⊎◌, and-eq-true, or-true, if◌then◌else◌,
}
use kosmo.Base.Text.{Text, text_eq, text_eq_iff, member}
use kosmo.Trace.{Feature}
use kosmo.Codegen.Integration.{
  Words, ImplementationDisposition, integrate, FeatureDisposition, step_keywords,
  composition_keywords, tokens_of, flow_target, disposed, by_entities, by_flow,
  extract_actors_from_text, determine_feature_disposition,
}

abbrev pub is_integrate : ImplementationDisposition → Bool
is_integrate integrate = true
is_integrate _ = false

not-true : (b : Bool) → not b ≡ true → b ≡ false
not-true true h = cc
not-true false h = refl

module _ (words : Words) (feature : Feature) (implemented : List Text) where
  -- Another feature that exists and is implemented.
  abbrev pub IsFlow : List Feature → Text → Type 0
  IsFlow existing t =
      (text_eq t feature.id ≡ false)
      × ((member t implemented ≡ true) × (any (λ (o : Feature). text_eq o.id t) existing ≡ true))

  flow_target-if :
      (other : Feature) (rest : Option Text) (t : Text) (b : Bool)
      → (if b then some other.id else rest) ≡ some t
      → ((b ≡ true) × (other.id ≡ t)) ⊎ (rest ≡ some t)
  flow_target-if other rest t true h = inl (refl, cc)
  flow_target-if other rest t false h = inr h

  flow_target-IsFlow :
      (existing : List Feature) (t : Text)
      → flow_target words feature implemented existing ≡ some t
      → IsFlow existing t
  unfolding flow_target
  flow_target-IsFlow [] t h = cc
  flow_target-IsFlow (other ∷ others) t h =
      elim (flow_target-if other (flow_target words feature implemented others) t _ h) [
        | inl (b, same) ↦
            let (apart, there) = (and-eq-true (not (text_eq other.id feature.id)) _).0 b in
            subst (IsFlow (other ∷ others)) same
              (not-true _ apart, (there, rw ((text_eq_iff other.id other.id).1 refl) refl))
        | inr later ↦
            let (apart, (there, known)) = flow_target-IsFlow others t later in
            (apart, (there, or-true (text_eq other.id t) _ known))
      ]

  -- The words of the feature name a step of a flow and no composition.
  abbrev pub is_step : Bool
  unfolding tokens_of
  is_step =
      not (any (λ k. member k (tokens_of words feature)) composition_keywords)
      && any (λ k. member k (tokens_of words feature)) step_keywords

  abbrev pub IsPlaced : List Feature → FeatureDisposition → Type 0
  IsPlaced existing d =
      ((d.disposition ≡ integrate)
        × ((t : Text) × ((d.target_feature_id ≡ some t) × (IsFlow existing t × (is_step ≡ true)))))
      ⊎ ((is_integrate d.disposition ≡ false) × (d.target_feature_id ≡ none))

  by_entities-IsPlaced :
      (existing : List Feature) (actors shared : List Text)
      → IsPlaced existing (by_entities words feature actors shared)
  unfolding by_entities disposed
  by_entities-IsPlaced existing actors [] = inr (refl, refl)
  by_entities-IsPlaced existing actors (t ∷ ts) = inr (refl, refl)

  by_flow-IsPlaced :
      (existing : List Feature) (actors : List Text) (o : Option Text)
      → ((t : Text) → o ≡ some t → IsFlow existing t × (is_step ≡ true))
      → IsPlaced existing (by_flow words feature actors implemented existing o)
  unfolding by_flow disposed
  by_flow-IsPlaced existing actors none h = by_entities-IsPlaced existing actors _
  by_flow-IsPlaced existing actors (some t) h = inl (refl, (t, (refl, h t refl)))

  IsPlaced-if :
      (existing : List Feature) (b : Bool) (x y : FeatureDisposition)
      → (b ≡ true → IsPlaced existing x)
      → (b ≡ false → IsPlaced existing y)
      → IsPlaced existing (if b then x else y)
  IsPlaced-if existing true x y hx hy = hx refl
  IsPlaced-if existing false x y hx hy = hy refl

  step_target :
      (existing : List Feature) (composed step : Bool)
      → composed ≡ false
      → (t : Text)
      → (if step then flow_target words feature implemented existing else none) ≡ some t
      → IsFlow existing t × ((not composed && step) ≡ true)
  step_target existing composed true e t h = (flow_target-IsFlow existing t h, rw e refl)
  step_target existing composed false e t h = cc

  -- A feature is integrated only if its words name a step of a flow and no composition, and then its
  -- target is another of the existing features and is implemented; otherwise it has no target.
  pub determine_feature_disposition-IsPlaced :
      (existing : List Feature) (discovery_actors : List Text)
      → IsPlaced existing
          (determine_feature_disposition words feature existing implemented discovery_actors)
  unfolding determine_feature_disposition disposed
  determine_feature_disposition-IsPlaced existing discovery_actors =
      IsPlaced-if existing (any (λ k. member k (tokens_of words feature)) composition_keywords) _ _
        (λ e. inr (refl, refl))
        (λ e.
          by_flow-IsPlaced existing
            (extract_actors_from_text words feature.origin feature.description discovery_actors)
            (if any (λ k. member k (tokens_of words feature)) step_keywords
              then flow_target words feature implemented existing
              else none)
            (λ t h. step_target existing _ _ e t h))
