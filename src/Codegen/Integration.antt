-- ===== src/Codegen/Integration.antt =====
-- backend/src/kosmo/domain/codegen/integration_rules.py: how a feature is to be implemented beside the
-- others. The words of a text, without accents and stop words, and a text without accents are
-- parameters; a set is a list, and a similarity is the pair of the sizes that are divided.
pub mod ProductMap
pub mod Placed
mod Tests
use kosmo.Base.{
  ℕ, ◌+◌, ◌*◌, Bool, true, false, not, ◌&&◌, ◌||◌, Option, none, some, List, [], ◌∷◌, ◌++◌, keep,
  any, length, ltb, leb, is_empty, if◌then◌else◌,
}
use kosmo.Base.Text.{Text, codes, text_eq, member, contains, sorted_set}
use kosmo.Trace.{Feature}

pub data ImplementationDisposition : Type 0 where
  create extend integrate compose skip : ImplementationDisposition

pub record FeatureDisposition : Type 0 where
  pub feature_id : Text
  pub disposition : ImplementationDisposition
  pub target_feature_id : Option Text
  pub actor : Text
  pub actors : List Text
  pub navigation_group : Text
  pub shared_entities : List Text

pub record OverlapDetection : Type 0 where
  pub feature_a_id : Text
  pub feature_b_id : Text
  pub similarity : ℕ × ℕ
  pub shared_tokens : List Text
  pub is_subcapability : Bool

-- `_normalize_tokens` and `_strip_accents`, which use the Unicode tables.
pub record Words : Type 0 where
  pub normalize_tokens : Text → List Text
  pub strip_accents : Text → Text

abbrev pub step_keywords : List Text
step_keywords =
    codes "terminos"
    ∷ codes "condiciones"
    ∷ codes "consentimiento"
    ∷ codes "confirmacion"
    ∷ codes "politicas"
    ∷ codes "aviso"
    ∷ codes "captcha"
    ∷ codes "verificacion"
    ∷ []

abbrev pub composition_keywords : List Text
composition_keywords =
    codes "dashboard"
    ∷ codes "panel"
    ∷ codes "resumen"
    ∷ codes "metricas"
    ∷ codes "kpi"
    ∷ codes "balance"
    ∷ codes "vista global"
    ∷ codes "estadisticas"
    ∷ codes "consolidado"
    ∷ []

-- The keys and labels of the actors that are known.
abbrev pub common_actors : List (Text × Text)
common_actors =
    (codes "administrador", codes "Administrador")
    ∷ (codes "admin", codes "Administrador")
    ∷ (codes "cliente", codes "Cliente")
    ∷ (codes "paciente", codes "Paciente")
    ∷ (codes "doctor", codes "Doctor")
    ∷ (codes "medico", codes "Médico")
    ∷ (codes "empleado", codes "Empleado")
    ∷ (codes "vendedor", codes "Vendedor")
    ∷ (codes "comprador", codes "Comprador")
    ∷ (codes "estudiante", codes "Estudiante")
    ∷ (codes "profesor", codes "Profesor")
    ∷ (codes "participante", codes "Participante")
    ∷ (codes "usuario", codes "Usuario")
    ∷ []

-- `xs.intersection(ys)`, and the size of `xs.union(ys)` of two sets.
abbrev pub intersection : List Text → List Text → List Text
intersection xs ys = keep (λ x. member x ys) xs

abbrev pub union_size : List Text → List Text → ℕ
union_size xs ys = length xs + length (keep (λ y. not (member y xs)) ys)

-- `_jaccard_similarity`, and `> 0.35` of it.
unfoldable pub jaccard_similarity : List Text → List Text → ℕ × ℕ
jaccard_similarity xs ys =
    if is_empty xs || is_empty ys then (0, 1) else (length (intersection xs ys), union_size xs ys)

abbrev pub is_similar : ℕ × ℕ → Bool
is_similar (shared, all_) = ltb (7 * all_) (20 * shared)

module _ (words : Words) where
  open words use {normalize_tokens, strip_accents}

  -- `_normalize_tokens(f"{f.title} {f.description}")`.
  unfoldable pub tokens_of : Feature → List Text
  tokens_of f = normalize_tokens (f.title ++ (codes " " ++ f.description))

  unfoldable pub detect_capability_overlap : Feature → List Feature → List OverlapDetection
  unfolding tokens_of jaccard_similarity
  detect_capability_overlap feature [] = []
  detect_capability_overlap feature (other ∷ others) =
      let rest = detect_capability_overlap feature others in
      let feat_tokens = tokens_of feature in
      let other_tokens = tokens_of other in
      let shared = sorted_set (intersection feat_tokens other_tokens) in
      let sim = jaccard_similarity feat_tokens other_tokens in
      let has_step_kw = not (is_empty (intersection feat_tokens step_keywords)) in
      let is_sub =
        (has_step_kw && not (is_empty shared))
        || (has_step_kw && leb (length feat_tokens) (length other_tokens)) in
      if text_eq other.id feature.id
      then rest
      else if is_similar sim || is_sub
      then record {
        feature_a_id = feature.id;
        feature_b_id = other.id;
        similarity = sim;
        shared_tokens = shared;
        is_subcapability = is_sub;
      }
        ∷ rest
      else rest

  -- The actors of the discovery that a text names, then the known ones, each of them once.
  unfoldable pub discovered : Text → List Text → List Text → List Text
  discovered combined found [] = found
  discovered combined found (d ∷ ds) =
      let clean = strip_accents d in
      discovered combined
        (if not (is_empty clean) && (contains clean combined && not (member d found))
          then found ++ (d ∷ [])
          else found)
        ds

  unfoldable pub known : Text → List Text → List (Text × Text) → List Text
  known combined found [] = found
  known combined found ((key, label) ∷ rest) =
      known combined
        (if contains key combined && not (member label found) then found ++ (label ∷ []) else found)
        rest

  abbrev pub or_general : List Text → List Text
  or_general [] = codes "General" ∷ []
  or_general (a ∷ as_) = a ∷ as_

  unfoldable pub extract_actors_from_text : Text → Text → List Text → List Text
  unfolding discovered known
  extract_actors_from_text origin description discovery_actors =
      let combined = strip_accents (origin ++ (codes " " ++ description)) in
      or_general (known combined (discovered combined [] discovery_actors) common_actors)

  abbrev pub first_actor : List Text → Text
  first_actor [] = codes "General"
  first_actor (a ∷ as_) = a

  unfoldable pub extract_actor_from_text : Text → Text → List Text → Text
  unfolding extract_actors_from_text
  extract_actor_from_text origin description discovery_actors =
      first_actor (extract_actors_from_text origin description discovery_actors)

  abbrev pub navigation_group_of : Text → Text
  navigation_group_of actor =
      if text_eq actor (codes "General") then codes "Navegación" else codes "Área " ++ actor

  -- The first other feature that is implemented.
  unfoldable pub flow_target : Feature → List Text → List Feature → Option Text
  flow_target feature implemented [] = none
  flow_target feature implemented (other ∷ others) =
      let rest = flow_target feature implemented others in
      if not (text_eq other.id feature.id) && member other.id implemented
      then some other.id
      else rest

  unfoldable pub shared_with : Feature → List Text → List Feature → List Text
  unfolding tokens_of
  shared_with feature implemented [] = []
  shared_with feature implemented (other ∷ others) =
      let rest = shared_with feature implemented others in
      if member other.id implemented && not (text_eq other.id feature.id)
      then intersection (tokens_of feature) (tokens_of other) ++ rest
      else rest

  -- A disposition of the feature, with its actors.
  unfoldable pub disposed :
      Feature → List Text → ImplementationDisposition → Option Text → List Text → FeatureDisposition
  disposed feature actors disposition target shared = record {
    feature_id = feature.id;
    disposition = disposition;
    target_feature_id = target;
    actor = first_actor actors;
    actors = actors;
    navigation_group = navigation_group_of (first_actor actors);
    shared_entities = shared;
  }

  unfoldable pub by_entities : Feature → List Text → List Text → FeatureDisposition
  unfolding disposed
  by_entities feature actors [] = disposed feature actors create none []
  by_entities feature actors (t ∷ ts) = disposed feature actors extend none (sorted_set (t ∷ ts))

  unfoldable pub by_flow :
      Feature → List Text → List Text → List Feature → Option Text → FeatureDisposition
  unfolding disposed by_entities shared_with
  by_flow feature actors implemented existing (some t) =
      disposed feature actors integrate (some t) []
  by_flow feature actors implemented existing none =
      by_entities feature actors (shared_with feature implemented existing)

  unfoldable pub determine_feature_disposition :
      Feature → List Feature → List Text → List Text → FeatureDisposition
  unfolding tokens_of extract_actors_from_text disposed by_flow flow_target
  determine_feature_disposition feature existing implemented discovery_actors =
      let f_tokens = tokens_of feature in
      let actors = extract_actors_from_text feature.origin feature.description discovery_actors in
      if any (λ k. member k f_tokens) composition_keywords
      then disposed feature actors compose none []
      else by_flow feature actors implemented existing (
          if any (λ k. member k f_tokens) step_keywords
          then flow_target feature implemented existing
          else none)
