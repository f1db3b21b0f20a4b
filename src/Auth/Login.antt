-- ===== src/Auth/Login.antt =====
-- The login: backend/src/kosmo/application/auth/authorize.py and exchange.py, over the stores of
-- infrastructure/persistence/redis/login_attempt_store.py and authorization_code_store.py. The
-- password hasher, the SHA-256 challenge and `str.lower` are parameters; the code that
-- `secrets.token_urlsafe` draws is an argument. An entry of the code store is kept as the record that
-- its JSON text encodes.
pub mod Lockout
pub mod Exchange
pub mod Register
pub mod Authorized
pub mod Accepted
mod Tests
use kosmo.Base.{
  ℕ, ◌+◌, ◌-◌, max, Bool, true, false, not, ◌&&◌, Option, none, some, is_some, List, [], ◌∷◌, ◌++◌,
  Result, ok, err, ltb, leb, if◌then◌else◌,
}
use kosmo.Base.Text.{Text, text_eq, strip}
use kosmo.Auth.Keys.{Keys, get, put, del, expiry}
use kosmo.Auth.Types.{
  AuthorizationCode, TokenPair, User, AuthError, invalid_credentials, account_locked,
  authorization_code, pkce_mismatch, AuditEvent, AuditOutcome, success, failure, EventType, login,
  locked_out,
}
use kosmo.Auth.Sessions.{Sessions, Jwt, Drawn, issue_token_pair}

pub record LoginState : Type 0 where
  pub users : List User
  pub attempts : Keys ℕ
  pub codes : Keys AuthorizationCode
  pub audit : List AuditEvent

pub record Hasher : Type 0 where
  pub verify : Text → Text → Bool
  pub needs_rehash : Text → Bool
  pub hash : Text → Text

abbrev pub window_seconds : ℕ
window_seconds = 900

abbrev pub max_failures : ℕ
max_failures = 10

abbrev pub authorization_code_ttl_seconds : ℕ
authorization_code_ttl_seconds = 60

-- `RedisLoginAttemptStore`.
abbrev pub count_of : Option ℕ → ℕ
count_of none = 0
count_of (some n) = n

module _ (now : ℕ) where
  unfoldable pub record_failure : Text → Keys ℕ → Keys ℕ
  record_failure identifier m =
      put identifier (count_of (get now identifier m) + 1) (now + window_seconds) m

  unfoldable pub clear : Text → Keys ℕ → Keys ℕ
  clear identifier m = del identifier m

  lockout_at : Option ℕ → ℕ → Option ℕ
  lockout_at none ttl = none
  lockout_at (some count) ttl =
      if leb max_failures count then (if ltb 0 ttl then some ttl else none) else none

  unfoldable pub lockout_seconds : Text → Keys ℕ → Option ℕ
  unfolding lockout_at
  lockout_seconds identifier m = lockout_at (get now identifier m) (expiry identifier m - now)

  -- `RedisAuthorizationCodeStore`: `SET` with `NX` leaves a code that is there.
  unfoldable pub store_code : AuthorizationCode → Keys AuthorizationCode → Keys AuthorizationCode
  store_code entry m =
      if is_some (get now entry.code m)
      then m
      else put entry.code entry (now + max (entry.expires_at - now) 1) m

  unfoldable pub consume_code :
      Text → Keys AuthorizationCode → Option AuthorizationCode × Keys AuthorizationCode
  consume_code code m = (get now code m, del code m)

unfoldable pub by_email : Text → List User → Option User
by_email email [] = none
by_email email (u ∷ us) = if text_eq u.email email then some u else by_email email us

unfoldable pub update_password : Text → Text → List User → List User
update_password user_id hashed [] = []
update_password user_id hashed (u ∷ us) =
    (if text_eq u.id user_id then record u { hashed_password = hashed } else u)
    ∷ update_password user_id hashed us

-- `email.strip().lower()`.
pub normalized_email : (Text → Text) → Text → Text
normalized_email lower email = lower (strip email)

module _ (hasher : Hasher) (lower : Text → Text) (now : ℕ) where
  login_event : EventType → AuditOutcome → Option Text → Text → AuditEvent
  login_event event_type outcome actor email = record {
    event_type = event_type;
    outcome = outcome;
    occurred_at = now;
    actor_id = actor;
    actor_email = some email;
  }

  -- The user whose password it is, if the account is active.
  unfoldable pub checked_user : Text → Option User → Option User
  checked_user password none = none
  checked_user password (some user) =
      if user.is_active && hasher.verify user.hashed_password password then some user else none

  rehashed : User → Text → List User → List User
  rehashed user password users =
      if hasher.needs_rehash user.hashed_password
      then update_password user.id (hasher.hash password) users
      else users

  -- The `try` block, and its handler.
  attempt :
      Text
      → Text
      → Text
      → Text
      → List Text
      → Option User
      → LoginState
      → Result AuthError AuthorizationCode × LoginState
  unfolding rehashed login_event
  attempt code email password code_challenge scopes none s = (
    err invalid_credentials,
    record s {
      attempts = record_failure now email s.attempts;
      audit = s.audit ++ login_event login failure none email ∷ [];
    },
  )
  attempt code email password code_challenge scopes (some user) s =
      let entry : AuthorizationCode = record {
        code = code;
        subject = user.id;
        code_challenge = code_challenge;
        expires_at = now + authorization_code_ttl_seconds;
        scopes = scopes;
      } in
      (
        ok entry,
        record {
          users = rehashed user password s.users;
          attempts = clear now email s.attempts;
          codes = store_code now entry s.codes;
          audit = s.audit ++ login_event login success (some user.id) email ∷ [];
        },
      )

  unless_locked :
      Option ℕ
      → Text
      → Text
      → Text
      → Text
      → List Text
      → LoginState
      → Result AuthError AuthorizationCode × LoginState
  unfolding attempt checked_user login_event
  unless_locked (some remaining) code email password code_challenge scopes s = (
    err (account_locked remaining),
    record s { audit = s.audit ++ login_event locked_out failure none email ∷ [] },
  )
  unless_locked none code email password code_challenge scopes s =
      attempt code email password code_challenge scopes
        (checked_user password (by_email email s.users)) s

  -- `AuthorizeWithPkce.execute`.
  unfoldable pub authorize :
      Text
      → Text
      → Text
      → Text
      → List Text
      → LoginState
      → Result AuthError AuthorizationCode × LoginState
  unfolding unless_locked
  authorize code email password code_challenge scopes s =
      unless_locked (lockout_seconds now (normalized_email lower email) s.attempts) code
        (normalized_email lower email) password code_challenge scopes s

-- What an exchange changes: the codes and the sessions.
pub record ExchangeState : Type 0 where
  pub codes : Keys AuthorizationCode
  pub sessions : Sessions

module _ (jwt : Jwt) (s256_challenge : Text → Text) (now : ℕ) where
  unfoldable pub verify_s256 : Text → Text → Bool
  verify_s256 verifier challenge = text_eq (s256_challenge verifier) challenge

  exchanged :
      Drawn
      → Text
      → Option AuthorizationCode
      → ExchangeState
      → Result AuthError TokenPair × ExchangeState
  exchanged drawn code_verifier none s = (err authorization_code, s)
  exchanged drawn code_verifier (some entry) s =
      if ltb entry.expires_at now
      then (err authorization_code, s)
      else if not (verify_s256 code_verifier entry.code_challenge)
      then (err pkce_mismatch, s)
      else (let (pair, sessions') =
            issue_token_pair jwt now drawn entry.subject entry.scopes none s.sessions in
          (ok pair, record s { sessions = sessions' }))

  -- `ExchangeAuthorizationCode.execute`.
  unfoldable pub exchange :
      Drawn → Text → Text → ExchangeState → Result AuthError TokenPair × ExchangeState
  unfolding exchanged
  exchange drawn code code_verifier s =
      let (entry, codes') = consume_code now code s.codes in
      exchanged drawn code_verifier entry (record s { codes = codes' })
