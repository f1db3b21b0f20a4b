-- ===== src/Auth/Tests.antt =====
-- Runs and instances of the session rules.
use kosmo.Base.{true, false, none, some, [], ◌∷◌, ok, err, ◌≡◌, refl, arith}
use kosmo.Base.Text.{Text, codes, has_char, text_eq, strip, lstrip, is_space}
use kosmo.Auth.Keys.{get, put, del}
use kosmo.Auth.Types.{
  access, refresh, TokenPair, TokenClaims, token_revoked, token_reused, account_locked,
  authorization_code,
}
use kosmo.Auth.TokenStore.{
  decode, register_refresh, consume_refresh, store_grace_period, is_family_alive,
}
use kosmo.Auth.Sessions.{
  Sessions, Jwt, Drawn, or_else, issue, is_dead, issue_token_pair, refresh_token_pair,
  verify_access_token, revoke_session,
}
use kosmo.Auth.Sessions.Rotation.{undisturbed, refresh_token_pair-gone}
use kosmo.Auth.Sessions.Replay.{Rotates, refresh_token_pair-Rotates, refresh_token_pair-reused}
use kosmo.Auth.Sessions.Revocation.{revoke_session-ends}
use kosmo.Auth.Login.Register.{register, user_already_exists, authorize-register}
use kosmo.Auth.Login.{
  LoginState, Hasher, by_email, lockout_seconds, checked_user, authorize, ExchangeState, exchange,
  verify_s256, consume_code,
}
use kosmo.Auth.Login.Lockout.{after_logins, authorize-locked_out}
use kosmo.Auth.Login.Exchange.{exchange_once}

abbrev claims : TokenClaims
claims = record {
  subject = codes "usr_1";
  jti = codes "j1";
  issued_at = 0;
  expires_at = 1000;
  token_type = refresh;
  scopes = [];
  family_id = some (codes "fam");
}

-- A library whose every token carries the same claims.
abbrev jwt : Jwt
jwt = record {
  access_ttl_seconds = 60;
  refresh_ttl_seconds = 500;
  encode = λ c. c.jti;
  verify = λ now token kind. ok claims;
}

abbrev drawn : Drawn
drawn = record { family = codes "fam"; access_jti = codes "a2"; refresh_jti = codes "j2" }

abbrev start : Sessions
start = record {
  tokens = record {
    refresh = (codes "j1", codes "usr_1|fam", 1000) ∷ [];
    revoked_access = [];
    family = (codes "fam", codes "usr_1", 1000) ∷ [];
    grace = [];
  };
  audit = [];
}

refresh_token_pair-gone_example :
    get 5
      (codes "j1")
      (refresh_token_pair jwt 0 undisturbed drawn (codes "t") [] start).1.tokens.refresh
    ≡ none
refresh_token_pair-gone_example =
    refresh_token_pair-gone jwt 0 drawn (codes "t") [] claims refl start 5 refl

abbrev pair : TokenPair
pair = record {
  access = record {
    token = codes "a2";
    jti = codes "a2";
    expires_at = 60;
    token_type = access;
    family_id = some (codes "fam");
  };
  refresh = record {
    token = codes "j2";
    jti = codes "j2";
    expires_at = 500;
    token_type = refresh;
    family_id = some (codes "fam");
  };
}

rotated_pair : (refresh_token_pair jwt 0 undisturbed drawn (codes "t") [] start).0 ≡ ok pair
unfolding refresh_token_pair consume_refresh decode has_char get put del or_else issue is_dead
    is_family_alive
rotated_pair = refl

refresh_token_pair-Rotates_example :
    (raw : Text) × (get 0 (codes "j1") start.tokens.refresh ≡ some raw)
    × Rotates jwt 0 drawn [] claims (decode raw) start.tokens pair
refresh_token_pair-Rotates_example =
    refresh_token_pair-Rotates jwt 0 drawn (codes "t") [] claims refl start rotated_pair

still_alive :
    is_family_alive 10
      (codes "fam")
      (refresh_token_pair jwt 0 undisturbed drawn (codes "t") [] start).1.tokens
    ≡ true
unfolding refresh_token_pair consume_refresh decode has_char get put del or_else issue is_dead
    is_family_alive store_grace_period register_refresh
still_alive = refl

refresh_token_pair-reused_example :
    ((refresh_token_pair jwt 10 undisturbed drawn
        (codes "t")
        []
        (refresh_token_pair jwt 0 undisturbed drawn (codes "t") [] start).1).0
      ≡ err token_reused)
    × (is_family_alive 20
          (codes "fam")
          (refresh_token_pair jwt 10 undisturbed drawn
            (codes "t")
            []
            (refresh_token_pair jwt 0 undisturbed drawn (codes "t") [] start).1).1.tokens
        ≡ false)
refresh_token_pair-reused_example =
    refresh_token_pair-reused jwt claims (codes "fam") refl 0 10 drawn drawn (codes "t") [] [] start
      20 refl refl refl still_alive

revoke_session-ends_example :
    verify_access_token jwt 7 (codes "u") (revoke_session jwt 5 (codes "t") none start).1
    ≡ err token_revoked
revoke_session-ends_example =
    revoke_session-ends jwt 5 (codes "t") (codes "fam") claims refl refl refl none start 7
      (codes "u") claims refl refl

abbrev hasher : Hasher
hasher = record { verify = λ h p. false; needs_rehash = λ h. false; hash = λ p. p }

abbrev nobody : LoginState
nobody = record { users = []; attempts = []; codes = []; audit = [] }

authorize-locked_out_example :
    (authorize hasher
      (λ t. t)
      100
      (codes "c")
      (codes "a@b.c")
      (codes "right")
      []
      []
      (after_logins hasher
        (λ t. t)
        (codes "a@b.c")
        (codes "c")
        (codes "wrong")
        []
        []
        0
        10
        nobody)).0
    ≡ err (account_locked 800)
unfolding get checked_user by_email
authorize-locked_out_example =
    authorize-locked_out hasher (λ t. t) (codes "a@b.c") (codes "c") (codes "wrong") [] [] 0 nobody
      refl refl 100 (codes "c") (codes "right") [] [] (omega arith)

abbrev stored : ExchangeState
stored = record {
  codes =
      (
        codes "code",
        record {
          code = codes "code";
          subject = codes "usr_1";
          code_challenge = codes "v";
          expires_at = 60;
          scopes = [];
        },
        60,
      )
      ∷ [];
  sessions = start;
}

exchange_once_example :
    (exchange jwt
      (λ v. v)
      6
      drawn
      (codes "code")
      (codes "v")
      (exchange jwt (λ v. v) 5 drawn (codes "code") (codes "wrong") stored).1).0
    ≡ err authorization_code
exchange_once_example =
    exchange_once jwt (λ v. v) 5 6 drawn drawn (codes "code") (codes "wrong") (codes "v") stored

exchanged_pair : (exchange jwt (λ v. v) 0 drawn (codes "code") (codes "v") stored).0 ≡ ok pair
unfolding exchange consume_code get verify_s256 issue_token_pair issue
exchanged_pair = refl

-- A hasher that keeps the password as it is.
abbrev open_hasher : Hasher
open_hasher = record { verify = λ h p. text_eq h p; needs_rehash = λ h. false; hash = λ p. p }

authorize-register_example :
    ((authorize open_hasher
        (λ t. t)
        9
        (codes "c")
        (codes " a@b.c")
        (codes "right")
        (codes "v")
        []
        (register open_hasher
          (λ t. t)
          5
          (codes "u1")
          (codes "Ana")
          (codes " a@b.c")
          (codes "right")
          nobody).1).0
      ≡ ok (record {
        code = codes "c";
        subject = codes "u1";
        code_challenge = codes "v";
        expires_at = 69;
        scopes = [];
      }))
    × ((register open_hasher
          (λ t. t)
          9
          (codes "u2")
          (codes "Ana")
          (codes " a@b.c")
          (codes "other")
          (register open_hasher
            (λ t. t)
            5
            (codes "u1")
            (codes "Ana")
            (codes " a@b.c")
            (codes "right")
            nobody).1).0
        ≡ err user_already_exists)
unfolding strip lstrip is_space by_email lockout_seconds get
authorize-register_example =
    authorize-register open_hasher (λ t. t) 5 9 (codes "u1") (codes "Ana") (codes " a@b.c")
      (codes "right") (codes "c") (codes "v") (codes "u2") (codes "other") [] nobody refl refl refl
      refl
