-- ===== src/Codegen/Plan/Rules.antt =====
-- What a valid plan is, said without the loop of `validate_plan`.
use kosmo.Base.{
  true, false, List, [], ◌∷◌, ◌++◌, All, is_empty, Result, ok, err, ◌≡◌, ◌↔◌, refl, arith, subst,
  sym, Bool-cases, inl, inr,
}
use kosmo.Base.Text.{Text, text_eq, text_eq_iff, member}
use kosmo.Codegen.Path.{UnsafePathError, sanitize_relative_path, FileSystem, validate_safe_path}
use kosmo.Codegen.Plan.{
  FileAction, create, modify, delete, FileOperation, ImplementationPlan, protected_workspace_files,
  normalized_manifest, check_action, check_sanitized, check_operation, check_operations,
  validate_operations, validate_plan,
}

-- What the action needs of its file: a new one is not there, one that is modified or deleted is,
-- and a protected one is not deleted.
abbrev pub ActionAllowed : List Text → Text → FileAction → Type 0
ActionAllowed manifest path create = member path manifest ≡ false
ActionAllowed manifest path modify = member path manifest ≡ true
ActionAllowed manifest path delete =
    (member path manifest ≡ true) × (member path protected_workspace_files ≡ false)

-- The paths are pairwise different.
abbrev pub Distinct : List Text → Type 0
Distinct [] = Unit
Distinct (p ∷ ps) = (member p ps ≡ false) × Distinct ps

module _ (fs : FileSystem) (root : Text) (manifest : List Text) where
  -- The paths, one for each operation, that the operations name and may act on.
  abbrev pub Targets : List FileOperation → List Text → Type 0
  Targets [] [] = Unit
  Targets [] (p ∷ ps) = ⊥
  Targets (op ∷ ops) [] = ⊥
  Targets (op ∷ ops) (p ∷ ps) =
      (validate_safe_path fs op.path root ≡ true)
      × (sanitize_relative_path op.path ≡ ok p)
      × ActionAllowed manifest p op.action
      × Targets ops ps

-- No path of the second list is in the first.
abbrev Apart : List Text → List Text → Type 0
Apart seen ps = All (λ p. member p seen ≡ false) ps

text_eq_sym : (s t : Text) → text_eq s t ≡ text_eq t s
text_eq_sym s t = ground (arith, text_eq_iff s t, text_eq_iff t s)

Apart-cons :
    (p : Text) (seen ps : List Text) → Apart (p ∷ seen) ps ↔ ((member p ps ≡ false) × Apart seen ps)
unfolding member
Apart-cons p seen [] = ground arith
Apart-cons p seen (q ∷ ps) = ground (arith, Apart-cons p seen ps, text_eq_sym p q)

check_action-nil :
    (manifest : List Text) (p : Text) (a : FileAction)
    → (is_empty (check_action manifest p a) ≡ true) ↔ ActionAllowed manifest p a
unfolding check_action
check_action-nil manifest p create = ground arith
check_action-nil manifest p modify = ground arith
check_action-nil manifest p delete = ground arith

empty-append {ℓ} :
    {A : Type ℓ} (xs ys : List A)
    → (is_empty (xs ++ ys) ≡ true) ↔ ((is_empty xs ≡ true) × (is_empty ys ≡ true))
empty-append [] ys = ground arith
empty-append (x ∷ xs) ys = ground arith

check_sanitized-nil :
    (manifest seen : List Text) (op : FileOperation) (r : Result UnsafePathError Text)
    → is_empty (check_sanitized manifest seen op r).0 ≡ true
    → (p : Text) × (r ≡ ok p)
      × ActionAllowed manifest p op.action
      × (member p seen ≡ false)
      × ((check_sanitized manifest seen op r).1 ≡ p ∷ seen)
unfolding check_sanitized
check_sanitized-nil manifest seen op (err e) h = cc
check_sanitized-nil manifest seen op (ok p) h = elim (Bool-cases (member p seen)) [
  | inl old ↦ cc (rw old at h)
  | inr new ↦ (p, refl, (check_action-nil manifest p op.action).0 (rw new at h), new, rw new)
]

module _ (fs : FileSystem) (root : Text) (manifest : List Text) where
  check_operation-nil :
      (seen : List Text) (op : FileOperation)
      → is_empty (check_operation fs root manifest seen op).0 ≡ true
      → (p : Text) × (validate_safe_path fs op.path root ≡ true)
        × (sanitize_relative_path op.path ≡ ok p)
        × ActionAllowed manifest p op.action
        × (member p seen ≡ false)
        × ((check_operation fs root manifest seen op).1 ≡ p ∷ seen)
  unfolding check_operation
  check_operation-nil seen op h = elim (Bool-cases (validate_safe_path fs op.path root)) [
    | inl safe ↦
        let (p, clean, allowed, new, seen') =
          check_sanitized-nil manifest seen op (sanitize_relative_path op.path) (rw safe at h) in
        (p, safe, clean, allowed, new, rw safe seen')
    | inr not_safe ↦ cc (rw not_safe at h)
  ]

  check_operation_of :
      (seen : List Text) (op : FileOperation) (p : Text)
      → validate_safe_path fs op.path root ≡ true
      → sanitize_relative_path op.path ≡ ok p
      → ActionAllowed manifest p op.action
      → member p seen ≡ false
      → (is_empty (check_operation fs root manifest seen op).0 ≡ true)
        × ((check_operation fs root manifest seen op).1 ≡ p ∷ seen)
  unfolding check_operation check_sanitized
  check_operation_of seen op p safe clean allowed new =
      rw (safe, clean, new) ((check_action-nil manifest p op.action).1 allowed, refl)

  -- The loop finds nothing exactly if the operations have targets that differ from one another
  -- and from those seen before.
  check_operations_sound :
      (seen : List Text) (ops : List FileOperation)
      → is_empty (check_operations fs root manifest seen ops) ≡ true
      → (ps : List Text) × Targets fs root manifest ops ps × Distinct ps × Apart seen ps
  unfolding check_operations
  check_operations_sound seen [] h = ([], tt, tt, tt)
  check_operations_sound seen (op ∷ ops) h =
      let (here, later) = (empty-append (check_operation fs root manifest seen op).0 _).0 h in
      let (p, safe, clean, allowed, new, seen') = check_operation-nil seen op here in
      let (ps, targets, distinct, apart) = check_operations_sound (p ∷ seen) ops (
        subst (λ (s : List Text). is_empty (check_operations fs root manifest s ops) ≡ true) seen'
          later) in
      let (fresh, apart') = (Apart-cons p seen ps).0 apart in
      (p ∷ ps, (safe, clean, allowed, targets), (fresh, distinct), (new, apart'))

  check_operations_complete :
      (seen : List Text) (ops : List FileOperation) (ps : List Text)
      → Targets fs root manifest ops ps
      → Distinct ps
      → Apart seen ps
      → is_empty (check_operations fs root manifest seen ops) ≡ true
  unfolding check_operations
  check_operations_complete seen [] ps t d a = refl
  check_operations_complete seen (op ∷ ops) [] t d a = elim t [ ]
  check_operations_complete seen (op ∷ ops) (p ∷ ps) t d a =
      let (here, seen') = check_operation_of seen op p t.0 t.1 t.2 a.0 in
      let later =
        check_operations_complete (p ∷ seen) ops ps t.3 d.1 ((Apart-cons p seen ps).1 (d.0, a.1)) in
      (empty-append (check_operation fs root manifest seen op).0 _).1 (
        here,
        subst (λ (s : List Text). is_empty (check_operations fs root manifest s ops) ≡ true)
            (sym seen') later,
      )

all-Apart : (ps : List Text) → Apart [] ps
unfolding member
all-Apart [] = tt
all-Apart (p ∷ ps) = (refl, all-Apart ps)

module _ (fs : FileSystem) (root : Text) (plan : ImplementationPlan) (files : List Text) where
  -- The plan has operations, and they have pairwise different targets that they may act on.
  abbrev pub IsValidPlan : Type 0
  IsValidPlan =
      (is_empty plan.operations ≡ false)
      × ((ps : List Text) × Targets fs root (normalized_manifest files) plan.operations ps
          × Distinct ps)

module _ (fs : FileSystem) (root : Text) (files : List Text) where
  validate_operations_sound :
      (ops : List FileOperation)
      → (validate_operations fs root ops files).is_valid ≡ true
      → (is_empty ops ≡ false)
        × ((ps : List Text) × Targets fs root (normalized_manifest files) ops ps × Distinct ps)
  unfolding validate_operations
  validate_operations_sound [] h = cc
  validate_operations_sound (op ∷ ops) h =
      let (ps, targets, distinct, _) =
        check_operations_sound fs root (normalized_manifest files) [] (op ∷ ops) h in
      (refl, (ps, targets, distinct))

  validate_operations_complete :
      (ops : List FileOperation) (ps : List Text)
      → is_empty ops ≡ false
      → Targets fs root (normalized_manifest files) ops ps
      → Distinct ps
      → (validate_operations fs root ops files).is_valid ≡ true
  unfolding validate_operations
  validate_operations_complete [] ps e t d = cc
  validate_operations_complete (op ∷ ops) ps e t d =
      check_operations_complete fs root (normalized_manifest files) [] (op ∷ ops) ps t d
        (all-Apart ps)

  -- `validate_plan` accepts a plan exactly if it has operations and each operation has a target
  -- of its own: its path is safe in the workspace and sanitizes to the target, the targets are
  -- pairwise different, a created one is not in the manifest, a modified or deleted one is, and a
  -- deleted one is not protected.
  pub validate_plan-IsValidPlan :
      (plan : ImplementationPlan)
      → ((validate_plan fs root plan files).is_valid ≡ true) ↔ IsValidPlan fs root plan files
  unfolding validate_plan
  validate_plan-IsValidPlan plan = (
    validate_operations_sound plan.operations,
    λ v. validate_operations_complete plan.operations v.1.0 v.0 v.1.1 v.1.2,
  )
