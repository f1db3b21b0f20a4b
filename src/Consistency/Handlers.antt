-- ===== src/Consistency/Handlers.antt =====
-- The handlers of backend/src/kosmo/application/consistency/apply_consistency_impacts.py, one for
-- each type of artifact and action. A handler returns the artifacts, and the reason if it fails.
pub mod Atomicity
pub mod Frame
use kosmo.Base.{ℕ, not, Option, none, some, List, [], ◌∷◌, ◌++◌, if◌then◌else◌}
use kosmo.Base.Text.{Text, codes, text_eq, member, replace_char}
use kosmo.Trace.{Feature}
use kosmo.Base.Tables.{update}
use kosmo.Consistency.Artifacts.{
  Artifacts, ActivityDiagram, Implementation, requires_review, delete_by_entity_id,
  add_requirement_edges,
}

-- The functions of domain/sdd that edit artifacts, and `str.lower`. `parse_requirements` gives the
-- ids of the requirements, `none` if it raises; `diagram_errors` is empty for a valid diagram.
pub record Editing : Type 1 where
  pub Document : Type 0
  pub document_to_markdown : Document → Text
  pub markdown_to_document : Text → Document
  pub apply_change_diff : Text → Text → Text → Option Text
  pub strip_origin_line : Text → Text
  pub parse_requirements : Text → Text → ℕ → Option (List Text)
  pub diagram_errors : Text → List Text
  pub lower : Text → Text

-- `"; ".join(errors)`.
unfoldable pub join_errors : List Text → Text
join_errors [] = []
join_errors (e ∷ []) = e
join_errors (e ∷ f ∷ es) = e ++ codes "; " ++ join_errors (f ∷ es)

module _ (edit : Editing) (now : ℕ) where
  open edit use {
    Document, document_to_markdown, markdown_to_document, apply_change_diff, strip_origin_line,
    parse_requirements, diagram_errors, lower,
  }

  -- What a handler returns: the artifacts, and the reason of a failure.
  abbrev pub Outcome : Type 0
  Outcome = Artifacts Document × Option Text

  unfoldable pub saved_discovery : Artifacts Document → Text → Option Text → Outcome
  saved_discovery w project_id none =
      (w, some (codes "El texto original no se encontro en el documento de Descubrimiento"))
  saved_discovery w project_id (some result) = (
    record w { discovery = update project_id (some (markdown_to_document result)) w.discovery },
    none,
  )

  unfoldable pub update_discovery :
      Artifacts Document → Text → Option Document → Text → Text → Outcome
  update_discovery w project_id none before after =
      (w, some (codes "El documento de Descubrimiento no existe"))
  update_discovery w project_id (some document) before after =
      saved_discovery w project_id (apply_change_diff (document_to_markdown document) before after)

  -- The new edges of the feature; an unparsable document leaves the old ones.
  unfoldable pub retraced : Artifacts Document → Text → Option (List Text) → Artifacts Document
  retraced w feature_id none = w
  retraced w feature_id (some ids) = record w {
    edges = add_requirement_edges feature_id ids (delete_by_entity_id feature_id w.edges);
  }

  unfoldable pub reparsed : Artifacts Document → Text → Text → Option Feature → Artifacts Document
  reparsed w feature_id result none = w
  reparsed w feature_id result (some feature) =
      retraced w feature_id (parse_requirements result feature_id feature.number)

  unfoldable pub saved_requirement : Artifacts Document → Text → Option Text → Outcome
  saved_requirement w feature_id none =
      (w, some (codes "El texto original no se encontro en los requisitos"))
  saved_requirement w feature_id (some result) = (
    reparsed (record w { requirements = update feature_id (some result) w.requirements }) feature_id
        result (w.features feature_id),
    none,
  )

  unfoldable pub apply_requirement : Artifacts Document → Text → Option Text → Text → Text → Outcome
  apply_requirement w feature_id none before after =
      (w, some (codes "El documento de requisitos no existe"))
  apply_requirement w feature_id (some markdown) before after =
      saved_requirement w feature_id (apply_change_diff markdown before after)

  -- `getattr` and `setattr` of the three fields that may change.
  unfoldable pub field_of : Feature → Text → Text
  field_of feature field =
      if text_eq field (codes "title")
      then feature.title
      else if text_eq field (codes "description")
      then feature.description
      else feature.origin

  unfoldable pub with_field : Feature → Text → Text → Feature
  with_field feature field value =
      if text_eq field (codes "title")
      then record feature {
        title = value;
        slug = replace_char b' ' b'-' (lower value);
        updated_at = now;
      }
      else if text_eq field (codes "description")
      then record feature { description = value; updated_at = now }
      else record feature { origin = value; updated_at = now }

  -- The origin line is taken out of a description and of its suggestion.
  unfoldable pub cleaned : Text → Text → Text
  cleaned field text = if text_eq field (codes "description") then strip_origin_line text else text

  unfoldable pub saved_feature : Artifacts Document → Text → Feature → Text → Option Text → Outcome
  saved_feature w feature_id feature field none = (
    w,
    some (codes "El texto original no se encontro en " ++ field ++ codes " de la caracteristica"),
  )
  saved_feature w feature_id feature field (some result) = (
    record w { features = update feature_id (some (with_field feature field result)) w.features },
    none,
  )

  unfoldable pub update_feature :
      Artifacts Document → Text → Option Feature → Text → Text → Text → Outcome
  update_feature w feature_id none field before after =
      (w, some (codes "La caracteristica no existe"))
  update_feature w feature_id (some feature) field before after =
      if not (member field (codes "title" ∷ codes "description" ∷ codes "origin" ∷ []))
      then (w, some (codes "Campo no modificable: " ++ field))
      else saved_feature w feature_id feature field (
          apply_change_diff (cleaned field (field_of feature field)) (cleaned field before)
            (cleaned field after))

  -- The implementation goes with the row of its feature, by the ON DELETE CASCADE of its foreign key;
  -- the handler itself deletes the rest. The deletion of the edges answers.
  unfoldable pub delete_feature : Artifacts Document → Text → Option Feature → Outcome
  delete_feature w feature_id none = (w, some (codes "La caracteristica no existe"))
  delete_feature w feature_id (some feature) = (
    record w {
      requirements = update feature_id none w.requirements;
      diagrams = update feature_id none w.diagrams;
      features = update feature_id none w.features;
      implementations = update feature_id none w.implementations;
      edges = delete_by_entity_id feature_id w.edges;
    },
    none,
  )

  unfoldable pub checked_diagram :
      Artifacts Document → Text → ActivityDiagram → Text → List Text → Outcome
  checked_diagram w feature_id diagram result [] = (
    record w {
      diagrams =
          update feature_id (some (record diagram { diagram_syntax = result; updated_at = now }))
            w.diagrams;
    },
    none,
  )
  checked_diagram w feature_id diagram result (e ∷ es) = (
    w,
    some (codes "El cambio dejaría el diagrama con sintaxis inválida: " ++ join_errors (e ∷ es)),
  )

  unfoldable pub saved_diagram : Artifacts Document → Text → ActivityDiagram → Option Text → Outcome
  saved_diagram w feature_id diagram none =
      (w, some (codes "El texto original no se encontro en el diagrama"))
  saved_diagram w feature_id diagram (some result) =
      checked_diagram w feature_id diagram result (diagram_errors result)

  unfoldable pub update_diagram :
      Artifacts Document → Text → Option ActivityDiagram → Text → Text → Outcome
  update_diagram w feature_id none before after = (w, some (codes "El diagrama no existe"))
  update_diagram w feature_id (some diagram) before after =
      saved_diagram w feature_id diagram (apply_change_diff diagram.diagram_syntax before after)

  unfoldable pub mark_implementation_for_review :
      Artifacts Document → Text → Option Implementation → Outcome
  mark_implementation_for_review w feature_id none = (w, some (codes "La implementación no existe"))
  mark_implementation_for_review w feature_id (some impl) = (
    record w {
      implementations =
          update feature_id (some (record impl { status = requires_review; updated_at = now }))
            w.implementations;
    },
    none,
  )

  unfoldable pub delete_implementation : Artifacts Document → Text → Option Implementation → Outcome
  delete_implementation w feature_id none = (w, none)
  delete_implementation w feature_id (some impl) =
      (record w { implementations = update feature_id none w.implementations }, none)
