-- ===== src/Codegen/Path.antt =====
-- backend/src/kosmo/domain/codegen/path_safety.py: the paths of a generated workspace.
pub mod Clean
pub mod Canonical
pub mod Inside
use kosmo.Base.{
  ℕ, Bool, true, false, ◌&&◌, ◌||◌, not, Option, none, some, List, [], ◌∷◌, ◌++◌, ◌==◌, leb, any,
  keep, drop, is_empty, ◌≡◌, refl, if◌then◌else◌, Result, ok, err, is_some,
}
use kosmo.Base.Text.{
  Text, is_space, codes, text_eq, strip, has_char, replace_char, starts_with, split, join,
}

-- `UnsafePathError`, with its message.
pub record UnsafePathError : Type 0 where
  pub message : Text

abbrev pub slash : ℕ
slash = b'/'

abbrev pub backslash : ℕ
backslash = 92

-- `re.sub(r"/+", "/", s)`; the flag says that the character before was a slash.
pub collapse_from : Bool → Text → Text
collapse_from after [] = []
collapse_from after (c ∷ s) =
    let rest = collapse_from (c == slash) s in if (c == slash) && after then rest else c ∷ rest

pub collapse_slashes : Text → Text
unfolding collapse_from
collapse_slashes s = collapse_from false s

-- The `if`/`elif` that removes one leading `./` or `/`.
pub drop_prefix : Text → Text
unfolding starts_with
drop_prefix s =
    if starts_with s (codes "./")
    then drop 2 s
    else if starts_with s (codes "/")
    then drop 1 s
    else s

-- `[p for p in parts if p and p != "."]`.
abbrev pub is_component : Text → Bool
is_component p = not (is_empty p) && not (text_eq p (codes "."))

abbrev pub is_parent : Text → Bool
is_parent p = text_eq p (codes "..")

-- `raw.replace("\\", "/")`, its slashes collapsed and one prefix dropped.
pub normalize : Text → Text
unfolding replace_char collapse_slashes drop_prefix
normalize raw = drop_prefix (collapse_slashes (replace_char backslash slash raw))

joined : List Text → Result UnsafePathError Text
joined [] = err (record { message = codes "Path resolves to empty relative path" })
joined (p ∷ ps) = ok (join slash (p ∷ ps))

unfoldable pub sanitize_relative_path : Text → Result UnsafePathError Text
unfolding joined normalize split
sanitize_relative_path path =
    let raw = strip path in
    let parts = split slash (normalize raw) in
    if is_empty raw
    then err (record { message = codes "Empty path cannot be sanitized" })
    else if has_char 0 raw
    then err (record { message = codes "Null byte in path is not allowed" })
    else if any is_parent parts
    then err
        (record { message = codes "Directory traversal detected in path: '" ++ path ++ codes "'" })
    else joined (keep is_component parts)

-- `_is_absolute_path_str`; the last two prefixes of the tuple extend the first two.
is_letter : ℕ → Bool
is_letter c = (leb b'a' c && leb c b'z') || (leb b'A' c && leb c b'Z')

unfoldable pub has_drive : Text → Bool
unfolding is_letter
has_drive [] = false
has_drive (c ∷ []) = false
has_drive (c ∷ d ∷ s) = is_letter c && (d == b':')

unfoldable pub is_absolute_path_str : Text → Bool
unfolding starts_with has_drive
is_absolute_path_str raw =
    starts_with raw (codes "/")
    || (starts_with raw (codes "\\")
        || (starts_with raw (codes "//") || (starts_with raw (codes "\\\\") || has_drive raw)))

-- What `ensure_safe_path` raises: its own error, or one of `pathlib`.
pub data PathError : Type 0 where
  unsafe : UnsafePathError → PathError
  unresolved : PathError

-- What `pathlib` and the file system do, on a POSIX host: `Path(s).resolve()`, the same of
-- `root / s`, and `is_relative_to`. `none` is one of the exceptions that the code catches.
pub record FileSystem : Type 1 where
  pub Resolved : Type 0
  pub resolve : Text → Option Resolved
  pub resolve_under : Resolved → Text → Option Resolved
  pub is_relative_to : Resolved → Resolved → Bool

module _ (fs : FileSystem) where
  open fs use {Resolved, resolve, resolve_under, is_relative_to}

  -- `target_resolved`, for a path that was stripped.
  unfoldable pub target_resolved : Resolved → Text → Option Resolved
  target_resolved root raw =
      let path_obj = replace_char backslash slash raw in
      if is_absolute_path_str raw || starts_with path_obj (codes "/")
      then resolve raw
      else resolve_under root path_obj

  unfoldable pub is_inside : Option Resolved → Option Resolved → Bool
  is_inside (some root) (some target) = is_relative_to target root
  is_inside _ _ = false

  unfoldable pub target_of : Option Resolved → Text → Option Resolved
  target_of none raw = none
  target_of (some root) raw = target_resolved root raw

  -- `path_obj.parts` of a POSIX path leaves out empty and `.` components, so it has a `..` exactly
  -- if the split has one.
  unfoldable pub validate_safe_path : Text → Text → Bool
  validate_safe_path path workspace_root =
      let raw_path = strip path in
      let raw_root = strip workspace_root in
      let root = resolve raw_root in
      if is_empty raw_path || is_empty raw_root
      then false
      else if has_char 0 raw_path || has_char 0 raw_root
      then false
      else if any is_parent (split slash (replace_char backslash slash raw_path))
      then false
      else if has_drive raw_path
      then false
      else is_inside root (target_of root raw_path)

  -- `ensure_safe_path`. Outside the `try` an exception of `pathlib` reaches the caller.
  unfoldable pub ensured : Option Resolved → Result PathError Resolved
  ensured none = err unresolved
  ensured (some p) = ok p

  unfoldable pub under_root : Option Resolved → Text → Option Resolved
  under_root none raw = none
  under_root (some root) raw = resolve_under root (replace_char backslash slash raw)

  unfoldable pub ensure_safe_path : Text → Text → Result PathError Resolved
  ensure_safe_path path workspace_root =
      let raw_path = strip path in
      let root = resolve workspace_root in
      if not (validate_safe_path path workspace_root)
      then err (
          unsafe (record {
            message =
                codes "Unsafe path detected: '"
                ++ path
                ++ codes "' escapes workspace root '"
                ++ workspace_root
                ++ codes "'";
          }))
      else if is_some root
      then (if is_absolute_path_str raw_path || starts_with raw_path (codes "/")
          then ensured (resolve raw_path)
          else ensured (under_root root raw_path))
      else err unresolved
