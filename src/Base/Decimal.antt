-- ===== src/Base/Decimal.antt =====
-- `str(n)` of a number.
use Prim.Native.Nat.{ℕ, zero, suc, ◌+◌, ◌/◌, ◌%◌}
use mathlib.Core.List.{[], ◌∷◌}
use mathlib.Core.Path.{◌≡◌, refl}
use kosmo.Base.Tests.{ltb, if◌then◌else◌}
use kosmo.Base.Text.{Text, codes}

-- The digits before those that are written; the fuel is more than their number.
digits : ℕ → ℕ → Text → Text
digits zero n written = written
digits (suc fuel) n written =
    let more = digits fuel (n / 10) ((b'0' + n % 10) ∷ written) in
    if ltb n 10 then (b'0' + n) ∷ written else more

unfoldable pub decimal : ℕ → Text
unfolding digits
decimal n = digits (suc n) n []

decimal_runs : decimal 600 ≡ codes "600"
unfolding decimal
decimal_runs = refl
