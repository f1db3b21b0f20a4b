-- ===== src/Auth/TokenStore.antt =====
-- backend/src/kosmo/infrastructure/persistence/redis/token_store.py. Each prefix of the source is a
-- family of keys of its own; a pipeline with `transaction=True` is one step. The JSON text of a grace
-- entry is kept as the pair that it encodes.
pub mod Laws
use kosmo.Base.{
  ℕ, zero, suc, ◌+◌, Bool, true, false, not, Option, none, some, is_some, List, [], ◌∷◌, ◌++◌, ◌==◌,
  if◌then◌else◌,
}
use kosmo.Base.Text.{Text, codes, has_char}
use kosmo.Auth.Keys.{Keys, get, put, del}
use kosmo.Auth.Types.{TokenPair, RefreshConsumeResult}

-- A grace entry: the mark of a rotation in progress, or the pair that came of it.
pub data GraceEntry : Type 0 where
  rotating : GraceEntry
  rotated : TokenPair → GraceEntry

pub record TokenStore : Type 0 where
  pub refresh : Keys Text
  pub revoked_access : Keys (Unit {0})
  pub family : Keys Text
  pub grace : Keys GraceEntry

abbrev pub family_separator : ℕ
family_separator = b'|'

abbrev pub grace_poll_max_attempts : ℕ
grace_poll_max_attempts = 30

-- The value of a refresh key, and its parts.
unfoldable pub encode : Text → Option Text → Text
encode subject none = subject
encode subject (some family) = subject ++ family_separator ∷ family

before_separator : Text → Text
before_separator [] = []
before_separator (c ∷ s) = if c == family_separator then [] else c ∷ before_separator s

after_separator : Text → Text
after_separator [] = []
after_separator (c ∷ s) = if c == family_separator then s else after_separator s

unfoldable pub decode : Text → RefreshConsumeResult
unfolding before_separator after_separator
decode raw =
    if has_char family_separator raw
    then record { subject = before_separator raw; family_id = some (after_separator raw) }
    else record { subject = raw; family_id = none }

module _ (now : ℕ) where
  set_family : Option Text → Text → ℕ → Keys Text → Keys Text
  set_family none subject ttl m = m
  set_family (some f) subject ttl m = put f subject (now + ttl) m

  unfoldable pub register_refresh : Text → Text → ℕ → Option Text → TokenStore → TokenStore
  unfolding set_family
  register_refresh jti subject ttl_seconds family_id s = if ttl_seconds == 0 then s else record s {
    refresh = put jti (encode subject family_id) (now + ttl_seconds) s.refresh;
    family = set_family family_id subject ttl_seconds s.family;
  }

  -- What follows the pipeline: a token that was not there has its mark removed.
  consumed_value : Text → Option Text → TokenStore → Option RefreshConsumeResult × TokenStore
  consumed_value jti none s = (none, record s { grace = del jti s.grace })
  consumed_value jti (some raw) s = (some (decode raw), s)

  unfoldable pub consume_refresh : Text → TokenStore → Option RefreshConsumeResult × TokenStore
  unfolding consumed_value
  consume_refresh jti s =
      consumed_value jti (get now jti s.refresh)
        (record s { refresh = del jti s.refresh; grace = put jti rotating (now + 30) s.grace })

  unfoldable pub store_grace_period : Text → TokenPair → ℕ → TokenStore → TokenStore
  store_grace_period old_jti token_pair ttl_seconds s =
      if ttl_seconds == 0
      then s
      else record s { grace = put old_jti (rotated token_pair) (now + ttl_seconds) s.grace }

  -- The polling loop. `seen i` is the store that the i-th read finds: other requests may have
  -- changed it while this one slept. The result comes with the store seen last.
  poll : ℕ → ℕ → (ℕ → TokenStore) → Text → Option TokenPair × TokenStore
  poll zero i seen old_jti = (none, seen i)
  poll (suc attempts) i seen old_jti = elim (get now old_jti (seen i).grace) [
    | none ↦ (none, seen i)
    | some entry ↦ elim entry [
      | rotating ↦ poll attempts (suc i) seen old_jti
      | rotated pair ↦ (some pair, seen i)
    ]
  ]

  unfoldable pub get_grace_period : (ℕ → TokenStore) → Text → Option TokenPair × TokenStore
  unfolding poll
  get_grace_period seen old_jti = poll grace_poll_max_attempts 0 seen old_jti

  unfoldable pub revoke_access : Text → ℕ → TokenStore → TokenStore
  revoke_access jti ttl_seconds s =
      if ttl_seconds == 0
      then s
      else record s { revoked_access = put jti tt (now + ttl_seconds) s.revoked_access }

  unfoldable pub is_access_revoked : Text → TokenStore → Bool
  is_access_revoked jti s = is_some (get now jti s.revoked_access)

  unfoldable pub revoke_refresh : Text → TokenStore → TokenStore
  revoke_refresh jti s = record s { refresh = del jti s.refresh }

  unfoldable pub is_family_alive : Text → TokenStore → Bool
  is_family_alive family_id s = is_some (get now family_id s.family)

  unfoldable pub revoke_family : Text → TokenStore → TokenStore
  revoke_family family_id s = record s { family = del family_id s.family }
