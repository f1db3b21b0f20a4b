-- ===== src/Codegen/Path/Inside.antt =====
-- `validate_safe_path` and `ensure_safe_path` agree.
use kosmo.Base.{
  true, ◌||◌, Option, none, some, [], ◌∷◌, ◌≡◌, refl, arith, ok, sym, ◌∙◌, Bool-cases, inl, inr, ap,
}
use kosmo.Base.Text.{Text, codes, strip, replace_char, starts_with}
use kosmo.Codegen.Path.{
  slash, backslash, is_absolute_path_str, FileSystem, target_resolved, is_inside, target_of,
  validate_safe_path, ensured, under_root, ensure_safe_path,
}

-- A leading backslash already makes a path absolute, so the two tests for `/` agree.
is_absolute-replace :
    (raw : Text)
    → (is_absolute_path_str raw || starts_with (replace_char backslash slash raw) (codes "/"))
      ≡ (is_absolute_path_str raw || starts_with raw (codes "/"))
unfolding is_absolute_path_str replace_char starts_with
is_absolute-replace [] = refl
is_absolute-replace (c ∷ []) = ground arith
is_absolute-replace (c ∷ d ∷ s) = ground arith

module _ (fs : FileSystem) where
  open fs use {Resolved, resolve, resolve_under, is_relative_to}

  inside_parts :
      (path root : Text)
      → validate_safe_path fs path root ≡ true
      → is_inside fs (resolve (strip root)) (target_of fs (resolve (strip root)) (strip path))
        ≡ true
  unfolding validate_safe_path
  inside_parts path root h = ground arith

  inside_cases :
      (r t : Option Resolved)
      → is_inside fs r t ≡ true
      → (x y : Resolved) × (r ≡ some x) × (t ≡ some y) × (is_relative_to y x ≡ true)
  unfolding is_inside
  inside_cases none t h = cc
  inside_cases (some x) none h = cc
  inside_cases (some x) (some y) h = (x, y, refl, refl, h)

  -- Under a root that resolves, both functions resolve the path in the same way.
  ensured-target :
      (path root : Text) (r p : Resolved)
      → validate_safe_path fs path root ≡ true
      → resolve root ≡ some r
      → target_of fs (some r) (strip path) ≡ some p
      → ensure_safe_path fs path root ≡ ok p
  unfolding ensure_safe_path target_of target_resolved ensured under_root
  ensured-target path root r p safe er et =
      elim (Bool-cases
        (is_absolute_path_str (strip path) || starts_with (strip path) (codes "/"))) [
          | inl e ↦
              let found = rw (is_absolute-replace (strip path), e) at et in rw (safe, er, e, found)
          | inr e ↦
              let found = rw (is_absolute-replace (strip path), e) at et in rw (safe, er, e, found)
        ]

  -- A path that `validate_safe_path` accepts, below a root that is written with no white space at
  -- its ends, is returned by `ensure_safe_path`, resolved, and what is returned lies in the
  -- resolved root.
  pub ensure_safe_path-inside :
      (path root : Text)
      → strip root ≡ root
      → validate_safe_path fs path root ≡ true
      → (r p : Resolved) × (resolve root ≡ some r)
        × (ensure_safe_path fs path root ≡ ok p)
        × (is_relative_to p r ≡ true)
  ensure_safe_path-inside path root stripped safe =
      let (r, p, er, et, inside) =
        inside_cases (resolve (strip root)) (target_of fs (resolve (strip root)) (strip path))
          (inside_parts path root safe) in
      let er' = ap resolve (sym stripped) ∙ er in
      (
        r,
        p,
        er',
        ensured-target path root r p safe er'
            (ap (λ (o : Option Resolved). target_of fs o (strip path)) (sym er) ∙ et),
        inside,
      )
