-- ===== src/Auth/Login/Lockout.antt =====
-- Failed logins are counted, and lock the account.
use kosmo.Base.{ℕ, zero, suc, ◌+◌, ◌-◌, ◌<◌, ◌≤◌, none, some, List, err, ◌≡◌, refl, arith, ◌∙◌, ap}
use kosmo.Base.Text.{Text, text_eq_iff}
use kosmo.Auth.Keys.{Keys, get, put, expiry, get-put}
use kosmo.Auth.Types.{invalid_credentials, account_locked}
use kosmo.Auth.Login.{
  LoginState, Hasher, window_seconds, max_failures, count_of, record_failure, lockout_seconds,
  by_email, checked_user, normalized_email, authorize,
}

expiry-put : (k : Text) (v expires : ℕ) (m : Keys ℕ) → expiry k (put k v expires m) ≡ expires
unfolding expiry put
expiry-put k v expires m = ground (arith, text_eq_iff k k)

-- After a failure the count is one more than before, for the whole window.
get-record_failure :
    (now u : ℕ) (k : Text) (m : Keys ℕ)
    → u < now + window_seconds
    → get u k (record_failure now k m) ≡ some (count_of (get now k m) + 1)
unfolding record_failure
get-record_failure now u k m within =
    get-put u k k (count_of (get now k m) + 1) (now + window_seconds) m
    ∙ ground (arith, text_eq_iff k k)

lockout-under :
    (now : ℕ) (k : Text) (m : Keys ℕ)
    → count_of (get now k m) < max_failures
    → lockout_seconds now k m ≡ none
unfolding lockout_seconds
lockout-under now k m few = ground arith

lockout-over :
    (now : ℕ) (k : Text) (m : Keys ℕ) {count expires : ℕ}
    → get now k m ≡ some count
    → max_failures ≤ count
    → expiry k m ≡ expires
    → now < expires
    → lockout_seconds now k m ≡ some (expires - now)
unfolding lockout_seconds
lockout-over now k m e many x live = rw (e, x) (ground arith)

module _ (hasher : Hasher) (lower : Text → Text) (email : Text) where
  -- A locked account is refused whatever the password, and only the audit log changes.
  authorize-locked :
      (now : ℕ) (code password challenge : Text) (scopes : List Text) (s : LoginState) {n : ℕ}
      → lockout_seconds now (normalized_email lower email) s.attempts ≡ some n
      → (authorize hasher lower now code email password challenge scopes s).0
        ≡ err (account_locked n)
  unfolding authorize
  authorize-locked now code password challenge scopes s e = rw e

  -- A failed login is counted.
  authorize-fails :
      (now : ℕ) (code password challenge : Text) (scopes : List Text) (s : LoginState)
      → lockout_seconds now (normalized_email lower email) s.attempts ≡ none
      → checked_user hasher lower now password (by_email (normalized_email lower email) s.users)
        ≡ none
      → let after = authorize hasher lower now code email password challenge scopes s in
        (after.0 ≡ err invalid_credentials)
        × (after.1.users ≡ s.users)
        × (after.1.attempts ≡ record_failure now (normalized_email lower email) s.attempts)
  unfolding authorize
  authorize-fails now code password challenge scopes s open_account wrong =
      rw (open_account, wrong) (refl, refl, refl)

module _ (hasher : Hasher) (lower : Text → Text) (email code password challenge : Text)
    (scopes : List Text) (now : ℕ) where
  -- The state after some logins in the same second.
  abbrev pub after_logins : ℕ → LoginState → LoginState
  after_logins zero s = s
  after_logins (suc n) s =
      (authorize hasher lower now code email password challenge scopes (after_logins n s)).1

  module _ (s : LoginState) (clean : get now (normalized_email lower email) s.attempts ≡ none)
      (wrong : checked_user hasher lower now password
          (by_email (normalized_email lower email) s.users)
        ≡ none) where
    counted :
        (n : ℕ)
        → n < 10
        → ((after_logins n s).users ≡ s.users)
          × (count_of (get now (normalized_email lower email) (after_logins n s).attempts) ≡ n)
    counted zero h = (refl, rw clean)
    counted (suc n) h =
        let key = normalized_email lower email in
        let before = after_logins n s in
        let (users, count) = counted n (omega arith) in
        let (_, same, more) =
          authorize-fails hasher lower email now code password challenge scopes before
            (lockout-under now key before.attempts (omega arith)) (rw users wrong) in
        (
          same ∙ users,
          ap (λ m. count_of (get now key m)) more
              ∙ ap count_of (get-record_failure now now key before.attempts (omega arith))
              ∙ omega (arith, count),
        )

    -- Ten failed logins in one second lock an account that had none counted: for the next 900
    -- seconds every login is refused, with the right password too, and the error tells the seconds
    -- that remain.
    pub authorize-locked_out :
        (u : ℕ) (code' password' challenge' : Text) (scopes' : List Text)
        → u < now + window_seconds
        → (authorize hasher lower u code' email password' challenge' scopes' (after_logins 10 s)).0
          ≡ err (account_locked (now + window_seconds - u))
    authorize-locked_out u code' password' challenge' scopes' within =
        let key = normalized_email lower email in
        let before = after_logins 9 s in
        let (users, count) = counted 9 (omega arith) in
        let (_, _, last) =
          authorize-fails hasher lower email now code password challenge scopes before
            (lockout-under now key before.attempts (omega arith)) (rw users wrong) in
        authorize-locked hasher lower email u code' password' challenge' scopes' (after_logins 10 s)
          (lockout-over u key (after_logins 10 s).attempts
            (ap (get u key) last ∙ get-record_failure now u key before.attempts within)
            (omega arith)
            (ap (expiry key) last
              ∙ unfold record_failure in expiry-put key _ (now + window_seconds) before.attempts)
            within)
