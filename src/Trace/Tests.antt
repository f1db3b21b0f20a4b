-- ===== src/Trace/Tests.antt =====
-- Runs and instances of the traceability tables.
use kosmo.Base.{Option, none, [], ◌∷◌, ◌≡◌, refl, err}
use kosmo.Base.Text.{Text, codes}
use kosmo.Trace.{requisitos, modelo, implementacion, trace_downstream_phases, Feature, execute}

after_requisitos : trace_downstream_phases requisitos ≡ modelo ∷ implementacion ∷ []
unfolding trace_downstream_phases
after_requisitos = refl

abbrev no_features : Text → Option Feature
no_features id = none

unknown_feature :
    execute no_features (record { entity_id = codes "feat_1"; level = modelo })
    ≡ err (record { feature_id = codes "feat_1" })
unfolding execute
unknown_feature = refl
