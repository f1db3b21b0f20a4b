-- ===== src/Trace/Order.antt =====
-- The tables of phases agree with one another, and with the navigation.
use kosmo.Base.{
  ◌+◌, ◌<◌, ◌≤◌, true, false, Option, none, some, List, [], ◌∷◌, Result, ok, err, ◌≡◌, ◌↔◌, refl,
  arith, ltb, keep,
}
use kosmo.Base.Text.{Text}
use kosmo.Trace.{
  SpecPhase, descubrimiento, caracteristicas, requisitos, modelo, implementacion, value, phase_eq,
  phase_order, trace_downstream_phases, Feature, TraceabilityNavigationInput,
  TraceabilityNavigationOutput, FeatureNotFoundError, navigate, execute,
}

abbrev all_phases : List SpecPhase
all_phases = descubrimiento ∷ caracteristicas ∷ requisitos ∷ modelo ∷ implementacion ∷ []

pub phase_eq_iff : (p q : SpecPhase) → (phase_eq p q ≡ true) ↔ (p ≡ q)
phase_eq_iff p q = ground arith

-- The phases downstream of a phase are those of a greater order, in that order: a phase is never
-- downstream of itself, and what is downstream of a downstream phase is downstream.
pub trace_downstream_phases-eq-keep :
    (p : SpecPhase)
    → trace_downstream_phases p ≡ keep (λ q. ltb (phase_order p) (phase_order q)) all_phases
unfolding trace_downstream_phases phase_order
trace_downstream_phases-eq-keep descubrimiento = refl
trace_downstream_phases-eq-keep caracteristicas = refl
trace_downstream_phases-eq-keep _ = refl

-- The outcomes of a navigation.
pub data Navigates (by_id : Text → Option Feature) (input : TraceabilityNavigationInput)
    (r : Result FeatureNotFoundError TraceabilityNavigationOutput) : Type 0 where
  direct :
      (out : TraceabilityNavigationOutput)
      → phase_order input.level ≤ 1
      → r ≡ ok out
      → out.permitted ≡ true
      → Navigates by_id input r
  missing :
      1 < phase_order input.level
      → by_id input.entity_id ≡ none
      → r ≡ err (record { feature_id = input.entity_id })
      → Navigates by_id input r
  upstream :
      (f : Feature) (before : SpecPhase) (out : TraceabilityNavigationOutput)
      → phase_order before + 1 ≡ phase_order input.level
      → 1 ≤ phase_order before
      → by_id input.entity_id ≡ some f
      → r ≡ ok out
      → out.permitted ≡ false
      → (out.source_level ≡ some (value before))
        × (out.source_entity_id ≡ some f.id)
        × (out.source_entity_name ≡ some f.title)
      → Navigates by_id input r

module _ (by_id : Text → Option Feature) where
  Navigates-at :
      (level : SpecPhase) (id : Text) (o : Option Feature)
      → by_id id ≡ o
      → Navigates by_id
          (record { entity_id = id; level = level })
          (execute by_id (record { entity_id = id; level = level }))
  unfolding execute phase_order
  Navigates-at descubrimiento id o e = direct _ (omega arith) refl refl
  Navigates-at caracteristicas id o e = direct _ (omega arith) refl refl
  Navigates-at requisitos id none e = missing (omega arith) e (rw e)
  Navigates-at requisitos id (some f) e =
      upstream f caracteristicas (navigate requisitos f) refl (omega arith) e (rw e) refl
        (refl, refl, refl)
  Navigates-at modelo id none e = missing (omega arith) e (rw e)
  Navigates-at modelo id (some f) e =
      upstream f requisitos (navigate modelo f) refl (omega arith) e (rw e) refl (refl, refl, refl)
  Navigates-at implementacion id none e = missing (omega arith) e (rw e)
  Navigates-at implementacion id (some f) e =
      upstream f modelo (navigate implementacion f) refl (omega arith) e (rw e) refl
        (refl, refl, refl)

  -- Where a navigation leads: at the first two phases it is permitted, whatever the repository
  -- holds; at a later phase it is an error if there is no such feature, and else it is not permitted
  -- and names the phase just before, with the feature's id and title.
  pub execute-Navigates :
      (input : TraceabilityNavigationInput) → Navigates by_id input (execute by_id input)
  execute-Navigates input = Navigates-at input.level input.entity_id (by_id input.entity_id) refl
