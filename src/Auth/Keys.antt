-- ===== src/Auth/Keys.antt =====
-- A family of Redis keys under one prefix, each with a value and the second at which it expires.
use kosmo.Base.{ℕ, Option, none, some, List, [], ◌∷◌, ◌≡◌, arith, ltb, if◌then◌else◌}
use kosmo.Base.Text.{Text, text_eq, text_eq_iff}

abbrev pub Keys {ℓ} : Type ℓ → Type ℓ
Keys V = List (Text × V × ℕ)

module _ {ℓ} {V : Type ℓ} where
  -- `GET`: a key that has expired is not there.
  unfoldable pub get : ℕ → Text → Keys V → Option V
  get now k [] = none
  get now k ((j, v, expires) ∷ m) =
      if text_eq j k then (if ltb now expires then some v else none) else get now k m

  -- `DEL`.
  unfoldable pub del : Text → Keys V → Keys V
  del k [] = []
  del k ((j, v, expires) ∷ m) =
      let rest = del k m in if text_eq j k then rest else (j, v, expires) ∷ rest

  -- `SET` with `EX`: the value and the expiry are written anew.
  unfoldable pub put : Text → V → ℕ → Keys V → Keys V
  put k v expires m = (k, v, expires) ∷ del k m

  -- The second at which a key expires, of which `TTL` is what remains.
  unfoldable pub expiry : Text → Keys V → ℕ
  expiry k [] = 0
  expiry k ((j, v, expires) ∷ m) = if text_eq j k then expires else expiry k m

  pub get-del :
      (now : ℕ) (k j : Text) (m : Keys V)
      → get now j (del k m) ≡ (if text_eq k j then none else get now j m)
  unfolding get del
  get-del now k j [] = ground arith
  get-del now k j ((i, v, expires) ∷ m) =
      ground (arith, get-del now k j m, text_eq_iff i k, text_eq_iff i j, text_eq_iff k j)

  pub get-put :
      (now : ℕ) (k j : Text) (v : V) (expires : ℕ) (m : Keys V)
      → get now j (put k v expires m)
        ≡ (if text_eq k j then (if ltb now expires then some v else none) else get now j m)
  unfolding get put
  get-put now k j v expires m = ground (arith, get-del now k j m)
