-- ===== src/Trace.antt =====
-- The phases of a specification and the traceability between them: `SpecPhase`
-- (backend/src/kosmo/contracts/sdd/document.py), `DOWNSTREAM_TARGETS` and `PHASE_ORDER`
-- (contracts/ai/consistency.py), `trace_downstream_phases` (domain/sdd/traceability_tracer.py) and
-- the navigation use case (application/traceability/manage_traceability_navigation.py).
pub mod Order
mod Tests
use kosmo.Base.{
  ℕ, Bool, true, false, Option, none, some, List, [], ◌∷◌, ◌++◌, Result, ok, err, if◌then◌else◌,
  ◌||◌,
}
use kosmo.Base.Text.{Text, codes}

pub data SpecPhase : Type 0 where
  descubrimiento caracteristicas requisitos modelo implementacion : SpecPhase

-- `SpecPhase.value`.
unfoldable pub value : SpecPhase → Text
value descubrimiento = codes "descubrimiento"
value caracteristicas = codes "caracteristicas"
value requisitos = codes "requisitos"
value modelo = codes "modelo"
value implementacion = codes "implementacion"

unfoldable pub spec_to_api_phase : SpecPhase → Text
spec_to_api_phase descubrimiento = codes "discovery"
spec_to_api_phase caracteristicas = codes "features"
spec_to_api_phase requisitos = codes "requirements"
spec_to_api_phase modelo = codes "model"
spec_to_api_phase implementacion = codes "implementation"

unfoldable pub downstream_targets : SpecPhase → List SpecPhase
downstream_targets descubrimiento = caracteristicas ∷ requisitos ∷ modelo ∷ implementacion ∷ []
downstream_targets caracteristicas = requisitos ∷ modelo ∷ implementacion ∷ []
downstream_targets requisitos = modelo ∷ implementacion ∷ []
downstream_targets modelo = implementacion ∷ []
downstream_targets implementacion = []

unfoldable pub phase_order : SpecPhase → ℕ
phase_order descubrimiento = 0
phase_order caracteristicas = 1
phase_order requisitos = 2
phase_order modelo = 3
phase_order implementacion = 4

-- `list(DOWNSTREAM_TARGETS.get(source, []))`; every phase is a key.
unfoldable pub trace_downstream_phases : SpecPhase → List SpecPhase
unfolding downstream_targets
trace_downstream_phases source = downstream_targets source

-- `==` of two phases.
abbrev pub phase_eq : SpecPhase → SpecPhase → Bool
phase_eq descubrimiento descubrimiento = true
phase_eq caracteristicas caracteristicas = true
phase_eq requisitos requisitos = true
phase_eq modelo modelo = true
phase_eq implementacion implementacion = true
phase_eq _ _ = false

-- contracts/sdd/feature.py; the times are numbers.
pub record Feature : Type 0 where
  pub id : Text
  pub number : ℕ
  pub title : Text
  pub slug : Text
  pub description : Text
  pub project_id : Text
  pub origin : Text
  pub created_at : ℕ
  pub updated_at : ℕ

pub record TraceabilityNavigationInput : Type 0 where
  pub entity_id : Text
  pub level : SpecPhase

pub record TraceabilityNavigationOutput : Type 0 where
  pub permitted : Bool
  pub redirect_message : Option Text
  pub source_entity_name : Option Text
  pub source_entity_id : Option Text
  pub source_level : Option Text

-- `FeatureNotFoundError`.
pub record FeatureNotFoundError : Type 0 where
  pub feature_id : Text

abbrev allowed : TraceabilityNavigationOutput
allowed = record {
  permitted = true;
  redirect_message = none;
  source_entity_name = none;
  source_entity_id = none;
  source_level = none;
}

abbrev redirected : Feature → Text → SpecPhase → TraceabilityNavigationOutput
unfolding value
redirected feature message level = record {
  permitted = false;
  redirect_message = some message;
  source_entity_name = some feature.title;
  source_entity_id = some feature.id;
  source_level = some (value level);
}

-- The branches of `execute` below the lookup of the feature.
pub navigate : SpecPhase → Feature → TraceabilityNavigationOutput
unfolding value
navigate requisitos feature =
    redirected feature
      (codes "El requisito pertenece a la característica '"
        ++ feature.title
        ++ codes "'. Para editarlo, dirígete a la vista de características.")
      caracteristicas
navigate modelo feature =
    redirected feature
      (codes "El modelo de '"
        ++ feature.title
        ++ codes "' se genera a partir de sus requisitos. "
        ++ codes "Para editarlo, dirígete a la vista de requisitos.")
      requisitos
navigate implementacion feature =
    redirected feature
      (codes "La implementación de '"
        ++ feature.title
        ++ codes "' se genera a partir de su modelo. "
        ++ codes "Para editarlo, dirígete a la vista de modelo.")
      modelo
navigate _ feature = allowed

found_feature :
    TraceabilityNavigationInput
    → Option Feature
    → Result FeatureNotFoundError TraceabilityNavigationOutput
found_feature input none = err (record { feature_id = input.entity_id })
found_feature input (some feature) = ok (navigate input.level feature)

-- `ManageTraceabilityNavigationUseCase.execute`, over what the repository finds for an id.
pub execute :
    (Text → Option Feature)
    → TraceabilityNavigationInput
    → Result FeatureNotFoundError TraceabilityNavigationOutput
unfolding navigate found_feature
execute by_id input =
    if phase_eq input.level descubrimiento || phase_eq input.level caracteristicas
    then ok allowed
    else found_feature input (by_id input.entity_id)
