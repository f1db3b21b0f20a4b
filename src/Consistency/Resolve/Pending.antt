-- ===== src/Consistency/Resolve/Pending.antt =====
-- What a bulk discard leaves to be resolved.
use kosmo.Base.{
  ℕ, ◌+◌, Bool, true, false, ◌&&◌, Option, some, List, [], ◌∷◌, ok, if◌then◌else◌, keep, keep-keep,
  All, length, ◌≡◌, refl, ap, subst, ◌∙◌, arith, Bool-cases, inl, inr, ◌⊎◌, and-eq-true,
}
use kosmo.Base.Text.{Text, text_eq, codes}
use kosmo.Trace.{SpecPhase, phase_eq}
use kosmo.Consistency.Handlers.{Editing}
use kosmo.Consistency.Evaluations.{
  ConsistencyEvaluation, discarded, is_completed, is_unresolved, same_key, save, by_id,
  list_unresolved,
}
use kosmo.Consistency.Evaluations.Keyed.{
  IsKeyed, save-IsKeyed, resolved_as, text_eq_refl, same_key_refl, same_key-resolved_as,
}
use kosmo.Consistency.Resolve.{
  Trouble, Board, marked, foreign, discard_found, discard_evaluation, resolve_row, resolve_rows,
  bulk_resolve,
}

-- The primary key of the table.
abbrev pub IsIdentified : List ConsistencyEvaluation → Type 0
IsIdentified [] = Unit
IsIdentified (r ∷ rs) = All (λ q. text_eq r.id q.id ≡ false) rs × IsIdentified rs

module _ (project_id : Text) (target_phase : SpecPhase) where
  abbrev is_pending : ConsistencyEvaluation → Bool
  is_pending r =
      (text_eq r.project_id project_id
        && (phase_eq r.target_phase target_phase && is_unresolved r.status))
      && is_completed r.status

  -- The suggestions that a bulk call takes up.
  abbrev pub pending : List ConsistencyEvaluation → List ConsistencyEvaluation
  pending rows = keep is_pending rows

  pending-eq :
      (rows : List ConsistencyEvaluation)
      → keep
          (λ (r : ConsistencyEvaluation). is_completed r.status)
          (list_unresolved project_id target_phase rows)
        ≡ pending rows
  unfolding list_unresolved
  pending-eq rows = keep-keep {0} (λ (r : ConsistencyEvaluation). is_completed r.status) _ rows

  pending-if :
      (b : Bool) (q r : ConsistencyEvaluation) (xs rest : List ConsistencyEvaluation)
      → (if b then q ∷ xs else xs) ≡ r ∷ rest
      → ((b ≡ true) × (q ≡ r) × (xs ≡ rest)) ⊎ ((b ≡ false) × (xs ≡ r ∷ rest))
  pending-if true q r xs rest h = inl (refl, cc, cc)
  pending-if false q r xs rest h = inr (refl, h)

  pending-cases :
      (q : ConsistencyEvaluation) (qs : List ConsistencyEvaluation) (r : ConsistencyEvaluation)
      (rest : List ConsistencyEvaluation)
      → pending (q ∷ qs) ≡ r ∷ rest
      → ((is_pending q ≡ true) × (q ≡ r) × (pending qs ≡ rest))
        ⊎ ((is_pending q ≡ false) × (pending qs ≡ r ∷ rest))
  pending-cases q qs r rest h = pending-if (is_pending q) q r (pending qs) rest h

  dropped :
      (b : Bool) (q : ConsistencyEvaluation) (xs rest : List ConsistencyEvaluation)
      → b ≡ false
      → xs ≡ rest
      → (if b then q ∷ xs else xs) ≡ rest
  dropped true q xs rest e h = cc
  dropped false q xs rest e h = h

  and_false : (b : Bool) → (b && false) ≡ false
  and_false b = ground arith

  -- What holds of every row holds of the first pending one.
  pending-head :
      (P : ConsistencyEvaluation → Type 0) (r : ConsistencyEvaluation)
      (rows rest : List ConsistencyEvaluation)
      → All P rows
      → pending rows ≡ r ∷ rest
      → P r
  pending-head P r [] rest all h = cc
  pending-head P r (q ∷ qs) rest (p, all) h = elim (pending-cases q qs r rest h) [
    | inl (e, same, later) ↦ subst P same p
    | inr (e, later) ↦ pending-head P r qs rest all later
  ]

  module _ (now : ℕ) (reason : Option Text) where
    others_identified :
        (i : Text) (e : ConsistencyEvaluation) (rows : List ConsistencyEvaluation)
        → text_eq i e.id ≡ false
        → All (λ q. text_eq i q.id ≡ false) rows
        → All (λ q. text_eq i q.id ≡ false) (save now e rows)
    unfolding save
    others_identified i e [] new h = (new, tt)
    others_identified i e (q ∷ qs) new (h, hs) = elim (Bool-cases (same_key q e)) [
      | inl k ↦ rw k (h, hs)
      | inr k ↦ rw k (h, others_identified i e qs new hs)
    ]

    abbrev discarded_row : ConsistencyEvaluation → ConsistencyEvaluation
    discarded_row r = resolved_as now discarded reason r

    abbrev IsDiscarded :
        ConsistencyEvaluation → List ConsistencyEvaluation → List ConsistencyEvaluation → Type 0
    IsDiscarded r rows rest =
        (by_id r.id rows ≡ some r)
        × (pending (save now (discarded_row r) rows) ≡ rest)
        × IsIdentified (save now (discarded_row r) rows)

    IsDiscarded-here :
        (r : ConsistencyEvaluation) (qs rest : List ConsistencyEvaluation)
        → All (λ q. text_eq r.id q.id ≡ false) qs
        → IsIdentified qs
        → pending qs ≡ rest
        → IsDiscarded r (r ∷ qs) rest
    unfolding by_id save resolved_as
    IsDiscarded-here r qs rest id identified later =
        let key = same_key-resolved_as now discarded reason r.id r r ∙ same_key_refl r in
        rw (text_eq_refl r.id, key) (refl, dropped _ _ _ rest (and_false _) later, (id, identified))

    IsDiscarded-there :
        (q r : ConsistencyEvaluation) (qs rest : List ConsistencyEvaluation)
        → is_pending q ≡ false
        → text_eq q.id r.id ≡ false
        → same_key q r ≡ false
        → All (λ x. text_eq q.id x.id ≡ false) qs
        → IsDiscarded r qs rest
        → IsDiscarded r (q ∷ qs) rest
    unfolding by_id save resolved_as
    IsDiscarded-there q r qs rest e id key ids (found, left, identified) =
        let key' = same_key-resolved_as now discarded reason r.id q r ∙ key in
        rw (id, key', e)
          (found, left, (others_identified q.id (discarded_row r) qs id ids, identified))

    pending-IsDiscarded :
        (r : ConsistencyEvaluation) (rows rest : List ConsistencyEvaluation)
        → IsKeyed rows
        → IsIdentified rows
        → pending rows ≡ r ∷ rest
        → IsDiscarded r rows rest
    pending-IsDiscarded r [] rest keyed identified h = cc
    pending-IsDiscarded r (q ∷ qs) rest (keys, keyed) (ids, identified) h =
        elim (pending-cases q qs r rest h) [
          | inl (e, same, later) ↦
              subst (λ x. IsDiscarded x (q ∷ qs) rest) same
                (IsDiscarded-here q qs rest ids identified later)
          | inr (e, later) ↦
              IsDiscarded-there q r qs rest e (pending-head _ r qs rest ids later)
                (pending-head _ r qs rest keys later) ids
                (pending-IsDiscarded r qs rest keyed identified later)
        ]

module _ (edit : Editing) (sha256_hex : Text → Text) (now : ℕ) where
  open edit use {Document}

  module _ (trouble : Text → Trouble) (project_id : Text) (target_phase : SpecPhase) where
    pending-project :
        (r : ConsistencyEvaluation) (rows rest : List ConsistencyEvaluation)
        → pending project_id target_phase rows ≡ r ∷ rest
        → (text_eq r.project_id project_id ≡ true) × (is_completed r.status ≡ true)
    pending-project r [] rest h = cc
    pending-project r (q ∷ qs) rest h = elim (pending-cases project_id target_phase q qs r rest h) [
      | inl (e, same, later) ↦
          let (here, done) = (and-eq-true _ (is_completed q.status)).0 e in
          subst (λ x. (text_eq x.project_id project_id ≡ true) × (is_completed x.status ≡ true))
            same (((and-eq-true (text_eq q.project_id project_id) _).0 here).0, done)
      | inr (e, later) ↦ pending-project r qs rest later
    ]

    abbrev reason : Option Text
    reason = some (codes "Descartada por el usuario.")

    resolve_row-discard :
        (action : Text) (row : ConsistencyEvaluation) (s : Board Document)
        → text_eq action (codes "apply") ≡ false
        → by_id row.id s.rows ≡ some row
        → text_eq row.project_id project_id ≡ true
        → is_completed row.status ≡ true
        → resolve_row edit sha256_hex now trouble project_id action row s
          ≡ (ok row.id, marked edit sha256_hex now discarded reason row s)
    unfolding resolve_row discard_evaluation discard_found foreign
    resolve_row-discard action row s discard found here done = rw (discard, found, here, done)

    discard-pending :
        (action : Text) (rows : List ConsistencyEvaluation) (s : Board Document)
        → text_eq action (codes "apply") ≡ false
        → IsKeyed s.rows
        → IsIdentified s.rows
        → pending project_id target_phase s.rows ≡ rows
        → let o = resolve_rows edit sha256_hex now trouble project_id action rows s in
          (pending project_id target_phase o.1.rows ≡ [])
          × (o.0.skipped ≡ 0)
          × (o.0.resolved ≡ length rows)
    unfolding resolve_rows
    discard-pending action [] s discard keyed identified h = (h, refl, refl)
    discard-pending action (row ∷ rows) s discard keyed identified h =
        let (found, left, unique) =
          pending-IsDiscarded project_id target_phase now reason row s.rows rows keyed identified
            h in
        let (here, done) = pending-project row s.rows rows h in
        let s' = marked edit sha256_hex now discarded reason row s in
        let (empty, skips, resolves) =
          discard-pending action rows s' discard
            (unfold marked in save-IsKeyed now (resolved_as now discarded reason row) s.rows keyed)
            (unfold marked in unique) (unfold marked in left) in
        rw (resolve_row-discard action row s discard found here done)
          (empty, skips, ap (λ (n : ℕ). n + 1) resolves ∙ omega arith)

    -- A bulk call with another action than `apply` discards every pending suggestion of the project
    -- and the phase and skips none, over a table with its two keys: none of them is pending after it.
    pub bulk_resolve-pending :
        (action : Text) (s : Board Document)
        → text_eq action (codes "apply") ≡ false
        → IsKeyed s.rows
        → IsIdentified s.rows
        → (pending project_id target_phase
              (bulk_resolve edit sha256_hex now trouble project_id target_phase action s).1.rows
            ≡ [])
          × ((bulk_resolve edit sha256_hex now trouble project_id target_phase action s).0.skipped
              ≡ 0)
          × ((bulk_resolve edit sha256_hex now trouble project_id target_phase action s).0.resolved
              ≡ length (pending project_id target_phase s.rows))
    unfolding bulk_resolve
    bulk_resolve-pending action s discard keyed identified =
        rw (pending-eq project_id target_phase s.rows) (
          discard-pending action (pending project_id target_phase s.rows) s discard keyed identified
            refl)
