-- ===== src/Base/Tables.antt =====
-- The rows of a repository, by their key.
use mathlib.Core.Path.{◌≡◌}
use mathlib.Core.Bool.{false}
use mathlib.Core.Option.{Option}
use native.Mathlib.Omega.{arith}
use kosmo.Base.Tests.{if◌then◌else◌}
use kosmo.Base.Text.{Text, text_eq, text_eq_iff}

-- A table with one row for each key.
abbrev pub Table {ℓ} : Type ℓ → Type ℓ
Table V = Text → Option V

module _ {ℓ} {V : Type ℓ} where
  unfoldable pub update : Text → Option V → Table V → Table V
  update k v m j = if text_eq k j then v else m j

  pub update_self : (k : Text) (v : Option V) (m : Table V) → update k v m k ≡ v
  unfolding update
  update_self k v m = ground (arith, text_eq_iff k k)

  pub update-ne :
      (k j : Text) (v : Option V) (m : Table V) → text_eq k j ≡ false → update k v m j ≡ m j
  unfolding update
  update-ne k j v m e = rw e
