-- ===== src/Consistency/Running/Fresh.antt =====
-- What a run of the evaluations leaves pending is fresh.
use kosmo.Base.{
  ℕ, Bool, true, false, ◌&&◌, none, List, [], ◌∷◌, ok, ◌≡◌, refl, sym, arith, All, All-imp, map,
  inl, inr, ◌⊎◌, either,
}
use kosmo.Base.Text.{Text, text_eq, text_eq_iff, member}
use kosmo.Trace.{SpecPhase, phase_eq}
use kosmo.Consistency.Artifacts.{Artifacts}
use kosmo.Consistency.Handlers.{Editing}
use kosmo.Consistency.Snapshot.{fetch_snapshot_parts, compute_snapshot_hash, is_current}
use kosmo.Consistency.Evaluations.{ConsistencyEvaluation, is_completed, same_key, save}
use kosmo.Consistency.Evaluations.Keyed.{IsKeyed, save-IsKeyed, resolved_as, text_eq_refl}
use kosmo.Consistency.Output.{ImpactItem}
use kosmo.Consistency.Running.{
  Collaborators, row_key, supersede_pair, suggested, save_items, store_items,
}
use kosmo.Consistency.Running.Saves.{save-All}
use kosmo.Consistency.Running.Superseded.{
  in_pair, is_stale, supersede_pair-All, supersede_pair-IsKeyed,
}

module _ (edit : Editing) (sha256_hex : Text → Text) (now : ℕ) where
  open edit use {Document}

  module _ (with_ : Collaborators Document) (w : Artifacts Document) (project_id : Text)
      (source_phase : SpecPhase) where
    open with_ use {evaluate, enrich_impact_items, list_by_project, snapshot_raises}

    -- The rows of the evaluations of the phase in the project.
    abbrev pub in_source : ConsistencyEvaluation → Bool
    in_source r = text_eq r.project_id project_id && phase_eq r.source_phase source_phase

    -- What holds of every row that is not pending or is current holds of the rows that a round writes.
    abbrev pub IsFree : (ConsistencyEvaluation → Type 0) → Type 0
    IsFree X =
        (r : ConsistencyEvaluation)
        → ((is_completed r.status ≡ false) ⊎ (is_current edit sha256_hex r w ≡ true))
        → X r

    module _ (target_phase : SpecPhase) where
      abbrev stored : ImpactItem → Text → ConsistencyEvaluation
      stored item id =
          record (suggested edit sha256_hex now with_ w project_id source_phase target_phase item) {
            id = id;
            updated_at = now;
          }

      stored-is_current :
          (item : ImpactItem) (id : Text) → is_current edit sha256_hex (stored item id) w ≡ true
      unfolding is_current suggested fetch_snapshot_parts
      stored-is_current item id = text_eq_refl (
          compute_snapshot_hash edit sha256_hex
            (fetch_snapshot_parts edit sha256_hex (stored item id) w))

      abbrev IsFreshAt : Text → ConsistencyEvaluation → Type 0
      IsFreshAt key r =
          in_pair now project_id source_phase target_phase r ≡ true
          → text_eq key r.target_artifact_id ≡ true
          → is_current edit sha256_hex r w ≡ true

      abbrev pub IsFreshTarget : ConsistencyEvaluation → Type 0
      IsFreshTarget r =
          in_source r ≡ true
          → is_completed r.status ≡ true
          → phase_eq r.target_phase target_phase ≡ true
          → is_current edit sha256_hex r w ≡ true

      -- A row of the pair with the key of an item has the key of the row that is saved for it.
      other_item :
          (item : ImpactItem) (r : ConsistencyEvaluation)
          → same_key r
              (suggested edit sha256_hex now with_ w project_id source_phase target_phase item)
            ≡ false
          → IsFreshAt (row_key item) r
      unfolding same_key suggested
      other_item item r other pair key =
          let here = sym ((text_eq_iff (row_key item) r.target_artifact_id).0 key) in
          let same = (text_eq_iff r.target_artifact_id (row_key item)).1 here in
          ground (arith, other, pair, same)

      module _ (readable : (key : Text) → snapshot_raises target_phase key ≡ false) where
        save_items-All :
            (items : List ImpactItem) (X : ConsistencyEvaluation → Type 0)
            (free : (item : ImpactItem) (id : Text) → X (stored item id))
            (rows : List ConsistencyEvaluation)
            → IsKeyed rows
            → All X rows
            → (IsKeyed (
                save_items edit sha256_hex now with_ w project_id source_phase target_phase items
                  rows))
              × All
                  (λ r.
                    X r
                    × (in_pair now project_id source_phase target_phase r ≡ true
                        → member r.target_artifact_id (map row_key items) ≡ true
                        → is_current edit sha256_hex r w ≡ true))
                  (save_items edit sha256_hex now with_ w project_id source_phase target_phase items
                    rows)
        unfolding save_items member
        save_items-All [] X free rows keyed h =
            (keyed, All-imp X _ rows (λ r x. (x, λ pair no. cc)) h)
        save_items-All (item ∷ items) X free rows keyed h =
            let row =
              suggested edit sha256_hex now with_ w project_id source_phase target_phase item in
            let (keyed', rest) =
              save_items-All items (λ r. X r × IsFreshAt (row_key item) r)
                (λ other id. (free other id, λ pair key. stored-is_current other id))
                (save now row rows) (save-IsKeyed now row rows keyed)
                (save-All now row X (λ r. X r × IsFreshAt (row_key item) r)
                  (λ id. (free item id, λ pair key. stored-is_current item id))
                  (λ r other x. (x, other_item item r other)) rows keyed h) in
            rw (readable (row_key item)) (
              keyed',
              All-imp _ _ _
                  (λ r fresh. (
                    fresh.0.0,
                    λ pair kept.
                        either (text_eq (row_key item) r.target_artifact_id) _ kept (fresh.0.1 pair)
                          (fresh.1 pair),
                  ))
                  rest,
            )

        absent :
            (r : ConsistencyEvaluation)
            → in_source r ≡ true
            → is_completed r.status ≡ true
            → phase_eq r.target_phase target_phase ≡ true
            → is_stale now project_id source_phase target_phase [] r ≡ false
            → is_current edit sha256_hex r w ≡ true
        unfolding member
        absent r here done target stale = ground (arith, here, done, target, stale)

        present :
            (r : ConsistencyEvaluation) (kept : List Text)
            → in_source r ≡ true
            → is_completed r.status ≡ true
            → phase_eq r.target_phase target_phase ≡ true
            → is_stale now project_id source_phase target_phase kept r ≡ false
            → (in_pair now project_id source_phase target_phase r ≡ true
                → is_completed r.status ≡ true
                → member r.target_artifact_id kept ≡ true
                → is_current edit sha256_hex r w ≡ true)
            → is_current edit sha256_hex r w ≡ true
        present r kept here done target stale fresh =
            let pair : in_pair now project_id source_phase target_phase r ≡ true =
              ground (arith, here, target) in
            fresh pair done (ground (arith, here, target, done, stale))

        pub supersede_none-All :
            (X : ConsistencyEvaluation → Type 0) (free : IsFree X)
            (rows : List ConsistencyEvaluation)
            → IsKeyed rows
            → All X rows
            → All
                (λ r. X r × IsFreshTarget r)
                (supersede_pair now project_id source_phase target_phase [] rows)
        supersede_none-All X free rows keyed h =
            All-imp _ _ _
              (λ r stale. (stale.0, λ here done target. absent r here done target stale.1))
              (supersede_pair-All now project_id source_phase target_phase [] X
                (λ row id. free _ (inl (unfold resolved_as in refl))) rows keyed h)

        pub store_items-All :
            (items : List ImpactItem) (X : ConsistencyEvaluation → Type 0) (free : IsFree X)
            (rows : List ConsistencyEvaluation)
            → IsKeyed rows
            → All X rows
            → let o =
                store_items edit sha256_hex now with_ w project_id source_phase target_phase
                  (ok items)
                  rows in
              (o.0 ≡ none) × (IsKeyed o.1 × All (λ r. X r × IsFreshTarget r) o.1)
        unfolding store_items
        store_items-All items X free rows keyed h =
            let (keyed', saved) =
              save_items-All items X (λ item id. free _ (inr (stored-is_current item id))) rows
                keyed h in
            (
              refl,
              (
                supersede_pair-IsKeyed now project_id source_phase target_phase (map row_key items)
                    _ keyed',
                All-imp _ _ _
                    (λ r kept. (
                      kept.0.0,
                      λ here done target.
                          present r (map row_key items) here done target kept.1 (kept.0.1),
                    ))
                    (supersede_pair-All now project_id source_phase target_phase (map row_key items)
                      (λ r.
                        X r
                        × (in_pair now project_id source_phase target_phase r ≡ true
                            → is_completed r.status ≡ true
                            → member r.target_artifact_id (map row_key items) ≡ true
                            → is_current edit sha256_hex r w ≡ true))
                      (λ row id. (
                        free _ (inl (unfold resolved_as in refl)),
                        unfold resolved_as in λ pair no kept. cc,
                      ))
                      _ keyed'
                      (All-imp _ _ _ (λ r x. (x.0, λ pair done kept. x.1 pair kept)) saved)),
              ),
            )
