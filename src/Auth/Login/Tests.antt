-- ===== src/Auth/Login/Tests.antt =====
-- Instances of the rules from a login to an accepted request.
use kosmo.Base.{false, true, some, [], ◌∷◌, ok}
use kosmo.Base.Text.{codes, text_eq}
use kosmo.Auth.Types.{AuthorizationCode, TokenClaims, User, access}
use kosmo.Auth.Sessions.{Sessions, Jwt, Drawn}
use kosmo.Auth.Login.{LoginState, Hasher, authorize}

-- A hasher that keeps the password as it is.
abbrev open_hasher : Hasher
open_hasher = record { verify = λ h p. text_eq h p; needs_rehash = λ h. false; hash = λ p. p }

abbrev drawn : Drawn
drawn = record { family = codes "fam"; access_jti = codes "a2"; refresh_jti = codes "j2" }

-- The claims of the token that is issued at 40.
abbrev claims : TokenClaims
claims = record {
  subject = codes "u1";
  jti = codes "a2";
  issued_at = 40;
  expires_at = 100;
  token_type = access;
  scopes = [];
  family_id = some (codes "fam");
}

-- A library whose every token carries these claims.
abbrev jwt : Jwt
jwt = record {
  access_ttl_seconds = 60;
  refresh_ttl_seconds = 500;
  encode = λ c. c.jti;
  verify = λ now token kind. ok claims;
}

abbrev ana : User
ana = record {
  id = codes "u1";
  email = codes "a@b.c";
  hashed_password = codes "right";
  is_active = true;
}

abbrev registered : LoginState
registered = record { users = ana ∷ []; attempts = []; codes = []; audit = [] }

abbrev no_sessions : Sessions
no_sessions = record {
  tokens = record { refresh = []; revoked_access = []; family = []; grace = [] };
  audit = [];
}

abbrev entry : AuthorizationCode
entry = record {
  code = codes "c";
  subject = codes "u1";
  code_challenge = codes "v";
  expires_at = 69;
  scopes = [];
}

abbrev logged_in : LoginState
logged_in =
    (authorize open_hasher (λ t. t) 9 (codes "c") (codes "a@b.c") (codes "right") (codes "v") []
      registered).1
