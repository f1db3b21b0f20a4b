-- ===== src/Auth/Sessions/Revocation.antt =====
-- A logout ends its session: no token of the family is accepted or refreshed any more.
use kosmo.Base.{
  ℕ, Bool, false, Option, none, some, is_empty, Result, ok, err, ◌≡◌, arith, Result-cases, inl, inr,
}
use kosmo.Base.Text.{Text}
use kosmo.Auth.Keys.{get-del}
use kosmo.Auth.Types.{access, refresh, TokenClaims, AuthError, token_revoked}
use kosmo.Auth.TokenStore.{TokenStore, is_family_alive, revoke_refresh, revoke_family}
use kosmo.Auth.Sessions.{
  Sessions, Jwt, is_dead, revoke_family_of, verified_claims, verify_access_token, revoke_session,
  revoke_access_token, second_half,
}
use kosmo.Auth.Sessions.Rotation.{revoke_family_of-dead}

module _ (jwt : Jwt) (now : ℕ) where
  dead-revoke_family_of :
      (u : ℕ) (f : Text) (g : Option Text) (t : TokenStore)
      → is_family_alive u f t ≡ false
      → is_family_alive u f (revoke_family_of jwt now g t) ≡ false
  unfolding is_family_alive revoke_family_of revoke_family
  dead-revoke_family_of u f none t h = h
  dead-revoke_family_of u f (some g) t h = rw (get-del u g f t.family) (ground arith)

  dead-second_half :
      (u : ℕ) (f access_token : Text) (refresh_token : Option Text)
      (first : Result AuthError (Option TokenClaims × Bool)) (s : Sessions)
      → is_family_alive u f s.tokens ≡ false
      → is_family_alive u f (second_half jwt now access_token refresh_token first s).1.tokens
        ≡ false
  unfolding second_half
  dead-second_half u f access_token refresh_token (err e) s h = h
  dead-second_half u f access_token (some token) (ok (c, expired)) s h =
      elim (Result-cases (jwt.verify now token refresh)) [
        | inl (claims, e) ↦ rw e (
            dead-revoke_family_of u f claims.family_id _
              (unfold is_family_alive revoke_refresh in h))
        | inr (x, e) ↦ rw e h
      ]
  dead-second_half u f access_token none (ok (c, expired)) s h = ground arith

  module _ (access_token family : Text) (claims : TokenClaims)
      (given : is_empty access_token ≡ false)
      (verified : jwt.verify now access_token access ≡ ok claims)
      (in_family : claims.family_id ≡ some family) where
    is_family_alive-revoke_session :
        (refresh_token : Option Text) (s : Sessions) (u : ℕ)
        → is_family_alive u family (revoke_session jwt now access_token refresh_token s).1.tokens
          ≡ false
    unfolding revoke_session
    is_family_alive-revoke_session refresh_token s u =
        dead-second_half u family access_token refresh_token
          (revoke_access_token jwt now access_token s.tokens).0
          (record s { tokens = (revoke_access_token jwt now access_token s.tokens).1 })
          (rw (given, verified) (rw in_family (revoke_family_of-dead jwt now u family _)))

    verified_claims-dead :
        (u : ℕ) (t : TokenStore) (other : TokenClaims)
        → other.family_id ≡ some family
        → is_family_alive u family t ≡ false
        → verified_claims jwt u t (ok other) ≡ err token_revoked
    unfolding verified_claims is_dead
    verified_claims-dead u t other of_family dead = rw (of_family, dead) (ground arith)

    -- A logout with a valid access token ends the session, also if its second half fails: every
    -- access token of the session is refused as revoked from then on.
    pub revoke_session-ends :
        (refresh_token : Option Text) (s : Sessions) (u : ℕ) (token : Text) (other : TokenClaims)
        → jwt.verify u token access ≡ ok other
        → other.family_id ≡ some family
        → verify_access_token jwt u token (revoke_session jwt now access_token refresh_token s).1
          ≡ err token_revoked
    unfolding verify_access_token
    revoke_session-ends refresh_token s u token other other_verified of_family = rw other_verified (
        verified_claims-dead u (revoke_session jwt now access_token refresh_token s).1.tokens other
          of_family (is_family_alive-revoke_session refresh_token s u))
