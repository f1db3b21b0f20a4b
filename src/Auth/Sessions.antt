-- ===== src/Auth/Sessions.antt =====
-- backend/src/kosmo/application/auth/use_cases.py: issuing, verifying, rotating and revoking the
-- tokens of a session. `issue` is that of infrastructure/security/jwt_codec.py. The identifiers that
-- `ULID()` draws are arguments, and so is the clock.
pub mod Rotation
pub mod Replay
pub mod Revocation
use kosmo.Base.{
  ℕ, ◌+◌, ◌-◌, ◌&&◌, min, max, Bool, true, false, not, Option, none, some, List, [], ◌∷◌, ◌++◌,
  Result, ok, err, is_some, is_empty, if◌then◌else◌,
}
use kosmo.Base.Text.{Text, text_eq, codes}
use kosmo.Auth.Types.{
  TokenType, access, refresh, IssuedToken, TokenPair, TokenClaims, RefreshConsumeResult, Principal,
  AuthError, invalid_token, token_expired, token_revoked, token_reused, AuditEvent, AuditOutcome,
  success, failure, EventType, reused, refreshed, logout,
}
use kosmo.Auth.TokenStore.{
  TokenStore, register_refresh, consume_refresh, store_grace_period, get_grace_period,
  revoke_access, is_access_revoked, revoke_refresh, is_family_alive, revoke_family,
}

-- The state that the use cases change: Redis and the audit log, its newest event last.
pub record Sessions : Type 0 where
  pub tokens : TokenStore
  pub audit : List AuditEvent

-- `JwtSettings`, the JWT library behind the two ports, and the identifiers drawn by one execution.
pub record Jwt : Type 0 where
  pub access_ttl_seconds : ℕ
  pub refresh_ttl_seconds : ℕ
  pub encode : TokenClaims → Text
  pub verify : ℕ → Text → TokenType → Result AuthError TokenClaims

pub record Drawn : Type 0 where
  pub family : Text
  pub access_jti : Text
  pub refresh_jti : Text

-- `a or b` on optional texts: the empty text counts as absent.
unfoldable pub or_else : Option Text → Option Text → Option Text
or_else none other = other
or_else (some []) other = other
or_else (some (c ∷ s)) other = some (c ∷ s)

-- `family_id or ULID().hex`.
abbrev value_or : Option Text → Text → Text
value_or none family = family
value_or (some []) family = family
value_or (some (c ∷ s)) family = c ∷ s

module _ (jwt : Jwt) (now : ℕ) where
  ttl_for : TokenType → ℕ
  ttl_for access = jwt.access_ttl_seconds
  ttl_for refresh = jwt.refresh_ttl_seconds

  unfoldable pub issue : Text → Text → List Text → TokenType → Option Text → IssuedToken
  unfolding ttl_for
  issue jti subject scopes token_type family_id = record {
    token = jwt.encode (record {
      subject = subject;
      jti = jti;
      issued_at = now;
      expires_at = now + ttl_for token_type;
      token_type = token_type;
      scopes = scopes;
      family_id = family_id;
    });
    jti = jti;
    expires_at = now + ttl_for token_type;
    token_type = token_type;
    family_id = family_id;
  }

  -- `max(int((expires_at - now).total_seconds()), 0)`.
  abbrev pub seconds_until : ℕ → ℕ
  seconds_until expires_at = expires_at - now

  unfoldable pub issue_token_pair :
      Drawn → Text → List Text → Option Text → Sessions → TokenPair × Sessions
  issue_token_pair drawn subject scopes family_id s =
      let family = value_or family_id drawn.family in
      let access_token = issue drawn.access_jti subject scopes access (some family) in
      let refresh_token = issue drawn.refresh_jti subject scopes refresh (some family) in
      (
        record { access = access_token; refresh = refresh_token },
        record s {
          tokens =
              register_refresh now refresh_token.jti subject
                (seconds_until refresh_token.expires_at) (some family) s.tokens;
        },
      )

  -- `family_id is not None and not await is_family_alive(family_id)`.
  unfoldable pub is_dead : Option Text → TokenStore → Bool
  is_dead none t = false
  is_dead (some family) t = not (is_family_alive now family t)

  unfoldable pub verified_claims :
      TokenStore → Result AuthError TokenClaims → Result AuthError Principal
  verified_claims t (err e) = err e
  verified_claims t (ok claims) =
      if is_access_revoked now claims.jti t
      then err token_revoked
      else if is_dead claims.family_id t
      then err token_revoked
      else ok (record { subject = claims.subject; scopes = claims.scopes })

  unfoldable pub verify_access_token : Text → Sessions → Result AuthError Principal
  unfolding verified_claims
  verify_access_token token s = verified_claims s.tokens (jwt.verify now token access)

  event : EventType → AuditOutcome → Text → AuditEvent
  event event_type outcome subject = record {
    event_type = event_type;
    outcome = outcome;
    occurred_at = now;
    actor_id = some subject;
    actor_email = none;
  }

  unfoldable pub revoke_family_of : Option Text → TokenStore → TokenStore
  revoke_family_of none t = t
  revoke_family_of (some family) t = revoke_family now family t

  -- The branch of a token that is not registered: what the grace period holds, a reuse of a live
  -- session, or a token that was never known. The store is the one that the last read found.
  pub grace_branch :
      TokenClaims → Option TokenPair × TokenStore → Sessions → Result AuthError TokenPair × Sessions
  unfolding event
  grace_branch claims (some pair, t) s =
      if is_dead (or_else pair.refresh.family_id claims.family_id) t
      then (err token_revoked, record s { tokens = t })
      else (ok pair, record s { tokens = t })
  grace_branch claims (none, t) s =
      if is_some claims.family_id && not (is_dead claims.family_id t)
      then (
        err token_reused,
        record {
          tokens = revoke_family_of claims.family_id t;
          audit = s.audit ++ event reused failure claims.subject ∷ [];
        },
      )
      else (err invalid_token, record s { tokens = t })

  -- The branch of a registered token.
  pub rotate :
      Drawn
      → List Text
      → TokenClaims
      → RefreshConsumeResult
      → Sessions
      → Result AuthError TokenPair × Sessions
  unfolding event
  rotate drawn scopes claims consumed s =
      let family = or_else consumed.family_id claims.family_id in
      let access_token = issue drawn.access_jti claims.subject scopes access family in
      let new_refresh = issue drawn.refresh_jti claims.subject scopes refresh family in
      let refresh_ttl = seconds_until new_refresh.expires_at in
      let pair : TokenPair = record { access = access_token; refresh = new_refresh } in
      if not (text_eq consumed.subject claims.subject)
      then (err invalid_token, record s { tokens = revoke_family_of claims.family_id s.tokens })
      else if is_dead family s.tokens
      then (err token_revoked, s)
      else (
        ok pair,
        record {
          tokens =
              store_grace_period now claims.jti pair (min 30 (max refresh_ttl 1))
                (register_refresh now new_refresh.jti claims.subject refresh_ttl family s.tokens);
          audit = s.audit ++ event refreshed success claims.subject ∷ [];
        },
      )

  -- `waits t i` is the store that the i-th poll of the grace period finds, `t` being the one that
  -- this execution left behind.
  consumed_branch :
      (TokenStore → ℕ → TokenStore)
      → Drawn
      → List Text
      → TokenClaims
      → Option RefreshConsumeResult × TokenStore
      → Sessions
      → Result AuthError TokenPair × Sessions
  unfolding grace_branch rotate
  consumed_branch waits drawn scopes claims (none, t) s =
      grace_branch claims (get_grace_period now (waits t) claims.jti) s
  consumed_branch waits drawn scopes claims (some consumed, t) s =
      rotate drawn scopes claims consumed (record s { tokens = t })

  claims_branch :
      (TokenStore → ℕ → TokenStore)
      → Drawn
      → List Text
      → Result AuthError TokenClaims
      → Sessions
      → Result AuthError TokenPair × Sessions
  claims_branch waits drawn scopes (err e) s = (err e, s)
  claims_branch waits drawn scopes (ok claims) s =
      consumed_branch waits drawn scopes claims (consume_refresh now claims.jti s.tokens) s

  unfoldable pub refresh_token_pair :
      (TokenStore → ℕ → TokenStore)
      → Drawn
      → Text
      → List Text
      → Sessions
      → Result AuthError TokenPair × Sessions
  unfolding claims_branch consumed_branch
  refresh_token_pair waits drawn refresh_token scopes s =
      claims_branch waits drawn scopes (jwt.verify now refresh_token refresh) s

  -- The first half of a logout: the claims of the access token if it is given and valid, and
  -- whether it had expired.
  access_claims_branch :
      Result AuthError TokenClaims
      → TokenStore
      → Result AuthError (Option TokenClaims × Bool) × TokenStore
  access_claims_branch (ok claims) t = (
    ok (some claims, false),
    revoke_family_of claims.family_id
        (revoke_access now claims.jti (seconds_until claims.expires_at) t),
  )
  access_claims_branch (err token_expired) t = (ok (none, true), t)
  access_claims_branch (err e) t = (err e, t)

  revoke_access_token :
      Text → TokenStore → Result AuthError (Option TokenClaims × Bool) × TokenStore
  unfolding access_claims_branch
  revoke_access_token access_token t =
      if is_empty access_token
      then (ok (none, false), t)
      else access_claims_branch (jwt.verify now access_token access) t

  unknown_or : Option TokenClaims → Text → Text
  unknown_or none subject = subject
  unknown_or (some claims) subject = claims.subject

  logged_out : Text → Sessions → Result AuthError (Unit {0}) × Sessions
  unfolding event
  logged_out subject s = (ok tt, record s { audit = s.audit ++ event logout success subject ∷ [] })

  -- The second half, with a refresh token.
  refresh_claims_branch :
      Option TokenClaims
      → Result AuthError TokenClaims
      → Sessions
      → Result AuthError (Unit {0}) × Sessions
  unfolding unknown_or logged_out
  refresh_claims_branch access_claims (err e) s = (err e, s)
  refresh_claims_branch access_claims (ok claims) s =
      logged_out (unknown_or access_claims claims.subject) (record s {
        tokens = revoke_family_of claims.family_id (revoke_refresh now claims.jti s.tokens);
      })

  -- The second half, after the access token.
  second_half :
      Text
      → Option Text
      → Result AuthError (Option TokenClaims × Bool)
      → Sessions
      → Result AuthError (Unit {0}) × Sessions
  unfolding refresh_claims_branch unknown_or logged_out
  second_half access_token refresh_token (err e) s = (err e, s)
  second_half access_token (some refresh_token) (ok (access_claims, expired)) s =
      refresh_claims_branch access_claims (jwt.verify now refresh_token refresh) s
  second_half access_token none (ok (access_claims, expired)) s =
      if expired
      then (err token_expired, s)
      else if is_empty access_token
      then (err invalid_token, s)
      else logged_out (unknown_or access_claims (codes "unknown")) s

  unfoldable pub revoke_session :
      Text → Option Text → Sessions → Result AuthError (Unit {0}) × Sessions
  unfolding revoke_access_token second_half
  revoke_session access_token refresh_token s =
      let (first, t) = revoke_access_token access_token s.tokens in
      second_half access_token refresh_token first (record s { tokens = t })
