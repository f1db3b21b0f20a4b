-- ===== src/Consistency/Running/Saves.antt =====
-- What a save and the superseding of a pair do to every row.
use kosmo.Base.{
  ℕ, Bool, true, false, ◌&&◌, List, [], ◌∷◌, ◌≡◌, refl, sym, ◌∙◌, arith, All, All-imp, keep, any,
  inl, inr, Bool-cases, if◌then◌else◌,
}
use kosmo.Base.Text.{Text}
use kosmo.Consistency.Evaluations.{ConsistencyEvaluation, same_key, save}
use kosmo.Consistency.Evaluations.Keyed.{IsKeyed, same_key-eq, same_key_refl}

same_key-shared :
    (r q e : ConsistencyEvaluation)
    → same_key r e ≡ true
    → same_key q e ≡ true
    → same_key r q ≡ true
unfolding same_key
same_key-shared r q e hr hq =
    let (a, b, c, d) = same_key-eq r e hr in
    let (a', b', c', d') = same_key-eq q e hq in
    rw (a ∙ sym a', b ∙ sym b', c ∙ sym c', d ∙ sym d') (unfold same_key in same_key_refl q)

module _ (now : ℕ) (e : ConsistencyEvaluation) where
  others-of :
      (r : ConsistencyEvaluation) (rs : List ConsistencyEvaluation)
      → same_key r e ≡ true
      → All (λ q. same_key r q ≡ false) rs
      → All (λ q. same_key q e ≡ false) rs
  others-of r rs h others =
      All-imp (λ q. same_key r q ≡ false) (λ q. same_key q e ≡ false) rs
        (λ q other. elim (Bool-cases (same_key q e)) [
          | inl k ↦ let both = same_key-shared r q e h k in cc
          | inr k ↦ k
        ])
        others

  module _ (P Q : ConsistencyEvaluation → Type 0)
      (new : (id : Text) → Q (record e { id = id; updated_at = now }))
      (old : (r : ConsistencyEvaluation) → same_key r e ≡ false → P r → Q r) where
    old-All :
        (rs : List ConsistencyEvaluation) → All (λ q. same_key q e ≡ false) rs → All P rs → All Q rs
    old-All [] others h = tt
    old-All (r ∷ rs) (other, others) (p, h) = (old r other p, old-All rs others h)

    -- What holds of the rows with another key, and of the row that is written, holds of all.
    pub save-All :
        (rows : List ConsistencyEvaluation) → IsKeyed rows → All P rows → All Q (save now e rows)
    unfolding save
    save-All [] keyed h = (new e.id, tt)
    save-All (r ∷ rs) (others, keyed) (p, h) = elim (Bool-cases (same_key r e)) [
      | inl k ↦ rw k (new r.id, old-All rs (others-of r rs k others) h)
      | inr k ↦ rw k (old r k p, save-All rs keyed h)
    ]

any-grown :
    (g : ConsistencyEvaluation → Bool) (b : Bool) (r : ConsistencyEvaluation)
    (rs : List ConsistencyEvaluation)
    → any g rs ≡ true
    → any g (if b then r ∷ rs else rs) ≡ true
any-grown g true r rs h = ground (arith, h)
any-grown g false r rs h = h

module _ (f g : ConsistencyEvaluation → Bool) where
  -- Each row that is kept, and of which `g` holds, is found by its key among the kept ones.
  pub found_kept :
      (rows : List ConsistencyEvaluation)
      → All
          (λ r. f r ≡ true → g r ≡ true → any (λ q. g q && same_key r q) (keep f rows) ≡ true)
          rows
  found_kept [] = tt
  found_kept (r ∷ rs) = (
    λ h k. rw h (rw (same_key_refl r, k) refl),
    All-imp (λ q. f q ≡ true → g q ≡ true → any (λ x. g x && same_key q x) (keep f rs) ≡ true) _ rs
        (λ q later h k. any-grown (λ x. g x && same_key q x) (f r) r (keep f rs) (later h k))
        (found_kept rs),
  )
