-- ===== src/Codegen/Path/Clean.antt =====
-- What `sanitize_relative_path` returns: components that stay below the workspace.
use kosmo.Base.{
  ℕ, Bool, true, false, ◌&&◌, List, [], ◌∷◌, ◌==◌, any, All, All-drop, keep, is_empty, ok, ◌≡◌, ◌≢◌,
  refl, arith, Bool-cases, inl, inr,
}
use kosmo.Base.Text.{
  Text, codes, push_head, text_eq_iff, strip, has_char, replace_char, starts_with, split, join,
}
use kosmo.Codegen.Path.{
  slash, backslash, collapse_from, drop_prefix, is_component, is_parent, normalize, joined,
  sanitize_relative_path,
}

abbrev pub IsNot : ℕ → ℕ → Type 0
IsNot a c = (c == a) ≡ false

-- A component that names neither its directory nor the one above, and holds no separator.
pub record IsPlain (p : Text) : Type 0 where
  pub nonempty : is_empty p ≡ false
  pub not_here : p ≢ codes "."
  pub not_parent : p ≢ codes ".."
  pub no_slash : All (IsNot slash) p
  pub no_backslash : All (IsNot backslash) p
  pub no_nul : All (IsNot 0) p

replace-IsNot : (s : Text) → All (IsNot backslash) (replace_char backslash slash s)
unfolding replace_char
replace-IsNot [] = tt
replace-IsNot (c ∷ s) = (ground arith, replace-IsNot s)

has_char-IsNot : (a : ℕ) (s : Text) → has_char a s ≡ false → All (IsNot a) s
unfolding has_char
has_char-IsNot a [] h = tt
has_char-IsNot a (c ∷ s) h = ground (arith, has_char-IsNot a s)

replace-no_nul : (s : Text) → All (IsNot 0) s → All (IsNot 0) (replace_char backslash slash s)
unfolding replace_char
replace-no_nul [] h = tt
replace-no_nul (c ∷ s) h = (ground arith, replace-no_nul s h.1)

module _ (P : ℕ → Type 0) where
  All-collapse : (b : Bool) (s : Text) → All P s → All P (collapse_from b s)
  unfolding collapse_from
  All-collapse b [] h = tt
  All-collapse b (c ∷ s) h = elim (Bool-cases ((c == slash) && b)) [
    | inl e ↦ rw e (All-collapse (c == slash) s h.1)
    | inr e ↦ rw e (h.0, All-collapse (c == slash) s h.1)
  ]

  All-drop_prefix : (s : Text) → All P s → All P (drop_prefix s)
  unfolding drop_prefix
  All-drop_prefix s h = elim (Bool-cases (starts_with s (codes "./"))) [
    | inl e ↦ rw e (All-drop P 2 s h)
    | inr e ↦ rw e (elim (Bool-cases (starts_with s (codes "/"))) [
      | inl f ↦ rw f (All-drop P 1 s h)
      | inr f ↦ rw f h
    ])
  ]

  All-split : (d : ℕ) (s : Text) → All P s → All (All P) (split d s)
  unfolding split
  All-split d [] h = (tt, tt)
  All-split d (c ∷ s) h = elim (Bool-cases (c == d)) [
    | inl e ↦ rw e (tt, All-split d s h.1)
    | inr e ↦ rw e (pushed (split d s) (All-split d s h.1))
  ]
    where
      pushed : (ps : List Text) → All (All P) ps → All (All P) (push_head c ps)
      pushed [] k = ((h.0, tt), tt)
      pushed (p ∷ ps) k = ((h.0, k.0), k.1)

split-no_separator : (d : ℕ) (s : Text) → All (All (IsNot d)) (split d s)
unfolding split
split-no_separator d [] = (tt, tt)
split-no_separator d (c ∷ s) = elim (Bool-cases (c == d)) [
  | inl e ↦ rw e (tt, split-no_separator d s)
  | inr e ↦ rw e (pushed (split d s) (split-no_separator d s) e)
]
  where
    pushed :
        (ps : List Text)
        → All (All (IsNot d)) ps
        → (c == d) ≡ false
        → All (All (IsNot d)) (push_head c ps)
    pushed [] k e = ((e, tt), tt)
    pushed (p ∷ ps) k e = ((e, k.0), k.1)

-- The components that are kept are plain.
IsPlain-keep :
    (ps : List Text)
    → All (All (IsNot slash)) ps
    → All (All (IsNot backslash)) ps
    → All (All (IsNot 0)) ps
    → any is_parent ps ≡ false
    → All IsPlain (keep is_component ps)
IsPlain-keep [] hs hb hn u = tt
IsPlain-keep (p ∷ ps) hs hb hn u =
    let rest = IsPlain-keep ps hs.1 hb.1 hn.1 (ground arith) in
    elim (Bool-cases (is_component p)) [ inl e ↦ rw e (plain e, rest) | inr e ↦ rw e rest ]
  where
    plain : is_component p ≡ true → IsPlain p
    plain e = record {
      nonempty = ground arith;
      not_here = ground (arith, text_eq_iff p (codes "."));
      not_parent = ground (arith, text_eq_iff p (codes ".."));
      no_slash = hs.0;
      no_backslash = hb.0;
      no_nul = hn.0;
    }

normalize-All :
    (raw : Text)
    → has_char 0 raw ≡ false
    → All (IsNot backslash) (normalize raw) × All (IsNot 0) (normalize raw)
unfolding normalize
normalize-All raw h = (
  All-drop_prefix (IsNot backslash) _ (All-collapse (IsNot backslash) false _ (replace-IsNot raw)),
  All-drop_prefix (IsNot 0) _
      (All-collapse (IsNot 0) false _ (replace-no_nul raw (has_char-IsNot 0 raw h))),
)

joined-eq-ok :
    (ps : List Text) {r : Text} → joined ps ≡ ok r → (r ≡ join slash ps) × (is_empty ps ≡ false)
unfolding joined
joined-eq-ok [] h = cc
joined-eq-ok (p ∷ ps) h = (ground arith, refl)

-- The tests that an accepted path has passed.
accepted :
    (path : Text) {r : Text}
    → sanitize_relative_path path ≡ ok r
    → (has_char 0 (strip path) ≡ false)
      × (any is_parent (split slash (normalize (strip path))) ≡ false)
      × (joined (keep is_component (split slash (normalize (strip path)))) ≡ ok r)
unfolding sanitize_relative_path
accepted path h = ground arith

-- A path that is accepted is `a/b/…/z` for at least one component, and every component is plain:
-- none is empty, `.` or `..`, and none holds a slash, a backslash or a null byte.
pub sanitize_relative_path-IsPlain :
    (path : Text) {r : Text}
    → sanitize_relative_path path ≡ ok r
    → (ps : List Text) × (r ≡ join slash ps) × (is_empty ps ≡ false) × All IsPlain ps
sanitize_relative_path-IsPlain path h =
    let (no_nul, no_up, result) = accepted path h in
    let parts = split slash (normalize (strip path)) in
    let (clean, some_part) = joined-eq-ok (keep is_component parts) result in
    let (nb, nn) = normalize-All (strip path) no_nul in
    (
      keep is_component parts,
      clean,
      some_part,
      IsPlain-keep parts (split-no_separator slash (normalize (strip path)))
          (All-split (IsNot backslash) slash _ nb) (All-split (IsNot 0) slash _ nn) no_up,
    )
