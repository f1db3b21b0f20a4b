-- ===== src/Auth/TokenStore/Laws.antt =====
-- The refresh tokens and grace entries that the Redis store keeps.
use kosmo.Base.{ℕ, suc, ◌+◌, true, false, Option, none, some, [], ◌∷◌, ◌++◌, ◌≡◌, refl, arith}
use kosmo.Base.Text.{Text, has_char, text_eq_iff}
use kosmo.Auth.Keys.{Keys, get, put, del, get-del}
use kosmo.Auth.TokenStore.{
  rotating, TokenStore, family_separator, encode, before_separator, after_separator, decode,
  consume_refresh, poll, get_grace_period, revoke_family, is_family_alive,
}

before_separator-append :
    (s f : Text)
    → has_char family_separator s ≡ false
    → before_separator (s ++ family_separator ∷ f) ≡ s
unfolding before_separator has_char
before_separator-append [] f h = refl
before_separator-append (c ∷ s) f h = ground (arith, before_separator-append s f)

after_separator-append :
    (s f : Text)
    → has_char family_separator s ≡ false
    → after_separator (s ++ family_separator ∷ f) ≡ f
unfolding after_separator has_char
after_separator-append [] f h = refl
after_separator-append (c ∷ s) f h = ground (arith, after_separator-append s f)

has_separator : (s f : Text) → has_char family_separator (s ++ family_separator ∷ f) ≡ true
unfolding has_char
has_separator [] f = refl
has_separator (c ∷ s) f = ground (arith, has_separator s f)

-- What is stored under a refresh token is read back, if the subject holds no separator.
pub decode-encode :
    (subject : Text) (family : Option Text)
    → has_char family_separator subject ≡ false
    → decode (encode subject family) ≡ record { subject = subject; family_id = family }
unfolding decode encode
decode-encode subject none h = rw h
decode-encode subject (some f) h = rw (
  has_separator subject f,
  before_separator-append subject f h,
  after_separator-append subject f h,
)

-- The store after a token was consumed, and after one that was not there was asked for.
abbrev pub marked : ℕ → Text → TokenStore → TokenStore
marked now jti s = record s {
  refresh = del jti s.refresh;
  grace = put jti rotating (now + 30) s.grace;
}

abbrev pub forgotten : ℕ → Text → TokenStore → TokenStore
forgotten now jti s = record s {
  refresh = del jti s.refresh;
  grace = del jti (put jti rotating (now + 30) s.grace);
}

pub get-del_self {ℓ} : {V : Type ℓ} (t : ℕ) (k : Text) (m : Keys V) → get t k (del k m) ≡ none
get-del_self t k m = rw (get-del t k k m) (ground (arith, text_eq_iff k k))

module _ (now : ℕ) (jti : Text) (s : TokenStore) where
  pub consume_refresh-none :
      get now jti s.refresh ≡ none → consume_refresh now jti s ≡ (none, forgotten now jti s)
  unfolding consume_refresh
  consume_refresh-none e = rw e

  pub consume_refresh-some :
      {raw : Text}
      → get now jti s.refresh ≡ some raw
      → consume_refresh now jti s ≡ (some (decode raw), marked now jti s)
  unfolding consume_refresh
  consume_refresh-some e = rw e

  poll-none : (n i : ℕ) → get now jti s.grace ≡ none → poll now (suc n) i (λ i. s) jti ≡ (none, s)
  unfolding poll
  poll-none n i e = rw (e, poll)

  -- With no entry there is nothing to wait for.
  pub get_grace_period-none :
      get now jti s.grace ≡ none → get_grace_period now (λ i. s) jti ≡ (none, s)
  unfolding get_grace_period
  get_grace_period-none e = poll-none 29 0 e

pub revoke_family-dead :
    (t : ℕ) (f : Text) (s : TokenStore) → is_family_alive t f (revoke_family t f s) ≡ false
unfolding is_family_alive revoke_family
revoke_family-dead t f s = rw (get-del t f f s.family) (ground (arith, text_eq_iff f f))
