-- ===== src/Auth/Login/Accepted.antt =====
-- From a login to a request that is let in: application/auth/authorize.py, exchange.py and
-- use_cases.py, one after the other.
use kosmo.Base.{ℕ, ◌+◌, some, List}
use kosmo.Base.Text.{Text}
use kosmo.Auth.Types.{access, TokenClaims}
use kosmo.Auth.TokenStore.{TokenStore}
use kosmo.Auth.Sessions.{Sessions, Jwt, Drawn}

module _ (jwt : Jwt) (now : ℕ) (drawn : Drawn) (subject : Text) (scopes : List Text) where
  abbrev pub access_claims : TokenClaims
  access_claims = record {
    subject = subject;
    jti = drawn.access_jti;
    issued_at = now;
    expires_at = now + jwt.access_ttl_seconds;
    token_type = access;
    scopes = scopes;
    family_id = some drawn.family;
  }
