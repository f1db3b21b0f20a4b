-- ===== src/Codegen/Path/Canonical.antt =====
-- Paths that `sanitize_relative_path` leaves as they are.
use mathlib.Core.Path.{◌≡⟨◌⟩◌, ◌∎, sym}
use mathlib.Core.List.{append-nil}
use kosmo.Base.{
  ℕ, Bool, true, false, List, [], ◌∷◌, ◌++◌, any, All, keep, is_empty, ok, ◌≡◌, refl, arith, ap,
  ==_iff, keep-All, All-any, All-append, ◌∙◌,
}
use kosmo.Base.Text.{Text, codes, text_eq_iff, strip, has_char, replace_char, split, join}
use kosmo.Codegen.Path.{
  slash, backslash, collapse_from, collapse_slashes, drop_prefix, is_component, is_parent,
  normalize, joined, sanitize_relative_path,
}
use kosmo.Codegen.Path.Clean.{IsNot, IsPlain}

replace_char_self : (s : Text) → All (IsNot backslash) s → replace_char backslash slash s ≡ s
unfolding replace_char
replace_char_self [] h = refl
replace_char_self (c ∷ s) h = ground (arith, replace_char_self s h.1)

has_char-false : (a : ℕ) (s : Text) → All (IsNot a) s → has_char a s ≡ false
unfolding has_char
has_char-false a [] h = refl
has_char-false a (c ∷ s) h = ground (arith, has_char-false a s h.1)

-- A component passes the collapsing unchanged, whatever stands before it.
collapse-append :
    (b : Bool) (p s : Text)
    → All (IsNot slash) p
    → is_empty p ≡ false
    → collapse_from b (p ++ s) ≡ p ++ collapse_from false s
unfolding collapse_from
collapse-append b [] s h e = cc
collapse-append b (c ∷ []) s h e = ground arith
collapse-append b (c ∷ d ∷ p) s h e = ground (arith, collapse-append false (d ∷ p) s h.1 refl)

split-append : (p s : Text) → All (IsNot slash) p → split slash (p ++ slash ∷ s) ≡ p ∷ split slash s
unfolding split
split-append [] s h = refl
split-append (c ∷ p) s h = rw h.0 (rw (split-append p s h.1))

split_one : (p : Text) → All (IsNot slash) p → split slash p ≡ p ∷ []
unfolding split
split_one [] h = refl
split_one (c ∷ p) h = rw h.0 (rw (split_one p h.1))

collapse-join :
    (b : Bool) (ps : List Text) → All IsPlain ps → collapse_from b (join slash ps) ≡ join slash ps
unfolding join collapse_from
collapse-join b [] h = refl
collapse-join b (p ∷ []) h =
    collapse_from b p
    ≡⟨ ap (collapse_from b) (sym (append-nil p)) ⟩ collapse_from b (p ++ [])
    ≡⟨ collapse-append b p [] h.0.no_slash h.0.nonempty ⟩ p ++ []
    ≡⟨ append-nil p ⟩ p ∎
collapse-join b (p ∷ q ∷ ps) h =
    collapse-append b p (slash ∷ join slash (q ∷ ps)) h.0.no_slash h.0.nonempty
    ∙ ap (λ (t : Text). p ++ slash ∷ t) (collapse-join true (q ∷ ps) h.1)

split-join :
    (ps : List Text) → All IsPlain ps → is_empty ps ≡ false → split slash (join slash ps) ≡ ps
unfolding join
split-join [] h e = cc
split-join (p ∷ []) h e = split_one p h.0.no_slash
split-join (p ∷ q ∷ ps) h e =
    split-append p (join slash (q ∷ ps)) h.0.no_slash
    ∙ ap (λ (t : List Text). p ∷ t) (split-join (q ∷ ps) h.1 refl)

-- A joined path begins with neither `/` nor `./`.
drop_prefix-append : (p s : Text) → IsPlain p → drop_prefix (p ++ slash ∷ s) ≡ p ++ slash ∷ s
unfolding drop_prefix
drop_prefix-append [] s h = cc h.nonempty
drop_prefix-append (c ∷ []) s h = ground (arith, h.no_slash, h.not_here, ==_iff c b'.')
drop_prefix-append (c ∷ d ∷ p) s h = ground (arith, h.no_slash)

drop_prefix_one : (p : Text) → IsPlain p → drop_prefix p ≡ p
unfolding drop_prefix
drop_prefix_one [] h = refl
drop_prefix_one (c ∷ []) h = ground (arith, h.no_slash)
drop_prefix_one (c ∷ d ∷ p) h = ground (arith, h.no_slash)

drop_prefix-join : (ps : List Text) → All IsPlain ps → drop_prefix (join slash ps) ≡ join slash ps
unfolding join
drop_prefix-join [] h = unfold drop_prefix in refl
drop_prefix-join (p ∷ []) h = drop_prefix_one p h.0
drop_prefix-join (p ∷ q ∷ ps) h = drop_prefix-append p (join slash (q ∷ ps)) h.0

module _ (a : ℕ) (not_slash : IsNot a slash) where
  join-IsNot : (ps : List Text) → All (All (IsNot a)) ps → All (IsNot a) (join slash ps)
  unfolding join
  join-IsNot [] h = tt
  join-IsNot (p ∷ []) h = h.0
  join-IsNot (p ∷ q ∷ ps) h =
      All-append (IsNot a) p (slash ∷ join slash (q ∷ ps)) h.0 (not_slash, join-IsNot (q ∷ ps) h.1)

All-map {ℓ κ μ} :
    {A : Type ℓ} {P : A → Type κ} {Q : A → Type μ} (f : (x : A) → P x → Q x) (xs : List A)
    → All P xs
    → All Q xs
All-map f [] h = tt
All-map f (x ∷ xs) h = (f x h.0, All-map f xs h.1)

is_component_of_IsPlain : (p : Text) → IsPlain p → is_component p ≡ true
is_component_of_IsPlain p h = ground (arith, h.nonempty, h.not_here, text_eq_iff p (codes "."))

not_is_parent_of_IsPlain : (p : Text) → IsPlain p → is_parent p ≡ false
not_is_parent_of_IsPlain p h = ground (arith, h.not_parent, text_eq_iff p (codes ".."))

module _ (ps : List Text) (plain : All IsPlain ps) where
  normalize-join : normalize (join slash ps) ≡ join slash ps
  unfolding normalize collapse_slashes
  normalize-join =
      rw
        (replace_char_self (join slash ps)
          (join-IsNot backslash refl ps (All-map (λ p h. h.no_backslash) ps plain)))
        (rw (collapse-join false ps plain) (drop_prefix-join ps plain))

nonempty-join :
    (ps : List Text) → is_empty ps ≡ false → All IsPlain ps → is_empty (join slash ps) ≡ false
unfolding join
nonempty-join [] e h = e
nonempty-join (p ∷ []) e h = h.0.nonempty
nonempty-join ([] ∷ q ∷ ps) e h = refl
nonempty-join ((c ∷ p) ∷ q ∷ ps) e h = refl

joined-some : (ps : List Text) → is_empty ps ≡ false → joined ps ≡ ok (join slash ps)
unfolding joined
joined-some [] h = cc
joined-some (p ∷ ps) h = refl

-- The tests that a path has to pass.
accept :
    (path raw : Text) (parts : List Text)
    → strip path ≡ raw
    → split slash (normalize raw) ≡ parts
    → is_empty raw ≡ false
    → has_char 0 raw ≡ false
    → any is_parent parts ≡ false
    → sanitize_relative_path path ≡ joined (keep is_component parts)
unfolding sanitize_relative_path
accept path raw parts stripped pieces some_char no_nul no_up =
    rw (stripped, pieces, some_char, no_nul, no_up)

-- A path whose components are plain, with no white space at its ends, is returned as it is.
pub sanitize_relative_path-join :
    (ps : List Text)
    → is_empty ps ≡ false
    → All IsPlain ps
    → strip (join slash ps) ≡ join slash ps
    → sanitize_relative_path (join slash ps) ≡ ok (join slash ps)
sanitize_relative_path-join ps some_part plain stripped =
    let whole = join slash ps in
    accept whole whole ps stripped
      (ap (split slash) (normalize-join ps plain) ∙ split-join ps plain some_part)
      (nonempty-join ps some_part plain)
      (has_char-false 0 whole (join-IsNot 0 refl ps (All-map (λ p h. h.no_nul) ps plain)))
      (All-any is_parent ps (All-map not_is_parent_of_IsPlain ps plain))
    ∙ ap joined (keep-All is_component ps (All-map is_component_of_IsPlain ps plain))
    ∙ joined-some ps some_part
