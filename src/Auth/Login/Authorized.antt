-- ===== src/Auth/Login/Authorized.antt =====
-- From a login to the exchange of its code: application/auth/authorize.py and exchange.py, one after
-- the other.
use kosmo.Base.{
  ℕ, ◌+◌, ◌-◌, max, false, Option, none, some, is_some, List, Result, ok, err, ltb, if◌then◌else◌,
  ◌≡◌, refl, arith, ap, subst,
}
use kosmo.Base.Text.{Text, text_eq_iff}
use kosmo.Auth.Keys.{Keys, get, get-put}
use kosmo.Auth.Types.{
  AuthorizationCode, TokenPair, User, AuthError, authorization_code, pkce_mismatch,
}
use kosmo.Auth.Sessions.{Sessions, Jwt, Drawn, issue_token_pair}
use kosmo.Auth.Login.{
  LoginState, Hasher, attempt, unless_locked, authorize, store_code, verify_s256,
}

-- An authorization code, as it is found later in the store.
abbrev pub IsStored : ℕ → ℕ → Text → AuthorizationCode → Keys AuthorizationCode → Type 0
IsStored now later code entry m =
    get later code m ≡ (if ltb later (now + 60) then some entry else none)

get-store_code :
    (now later : ℕ) (code subject code_challenge : Text) (scopes : List Text)
    (m : Keys AuthorizationCode)
    → is_some (get now code m) ≡ false
    → let entry : AuthorizationCode = record {
      code = code;
      subject = subject;
      code_challenge = code_challenge;
      expires_at = now + 60;
      scopes = scopes;
    } in
      IsStored now later code entry (store_code now entry m)
unfolding store_code
get-store_code now later code subject code_challenge scopes m free =
    let entry : AuthorizationCode = record {
      code = code;
      subject = subject;
      code_challenge = code_challenge;
      expires_at = now + 60;
      scopes = scopes;
    } in
    let ttl : now + max (now + 60 - now) 1 ≡ now + 60 = omega arith in
    let same = (text_eq_iff code code).1 refl in
    rw (free, get-put later code code entry (now + max (now + 60 - now) 1) m, same, ttl) refl

module _ (hasher : Hasher) (lower : Text → Text) (now later : ℕ) (code code_challenge : Text) where
  -- The entry of a login is that of its arguments, and in the store.
  abbrev pub IsEntered : List Text → AuthorizationCode → LoginState → Type 0
  IsEntered scopes entry s' =
      (entry.code_challenge ≡ code_challenge)
      × (entry.expires_at ≡ now + 60)
      × (entry.scopes ≡ scopes)
      × IsStored now later code entry s'.codes

  attempt-IsEntered :
      (email password : Text) (scopes : List Text) (found : Option User) (s s' : LoginState)
      (entry : AuthorizationCode)
      → is_some (get now code s.codes) ≡ false
      → attempt hasher lower now code email password code_challenge scopes found s ≡ (ok entry, s')
      → IsEntered scopes entry s'
  unfolding attempt
  attempt-IsEntered email password scopes none s s' entry free h = cc
  attempt-IsEntered email password scopes (some user) s s' entry free h =
      let made : AuthorizationCode = record {
        code = code;
        subject = user.id;
        code_challenge = code_challenge;
        expires_at = now + 60;
        scopes = scopes;
      } in
      let answered : ok made ≡ ok entry = ap (λ o. o.0) h in
      let same : made ≡ entry = cc in
      let kept : store_code now made s.codes ≡ s'.codes = ap (λ o. o.1.codes) h in
      subst (λ e. IsEntered scopes e s') same
        (
          refl,
          refl,
          refl,
          subst (λ m. IsStored now later code made m) kept
              (get-store_code now later code user.id code_challenge scopes s.codes free),
        )

  unless_locked-IsEntered :
      (remaining : Option ℕ) (email password : Text) (scopes : List Text) (s s' : LoginState)
      (entry : AuthorizationCode)
      → is_some (get now code s.codes) ≡ false
      → unless_locked hasher lower now remaining code email password code_challenge scopes s
        ≡ (ok entry, s')
      → IsEntered scopes entry s'
  unfolding unless_locked
  unless_locked-IsEntered (some n) email password scopes s s' entry free h = cc
  unless_locked-IsEntered none email password scopes s s' entry free h =
      attempt-IsEntered email password scopes _ s s' entry free h

  -- The code of a login that is answered is in the store for 60 seconds.
  pub authorize-IsEntered :
      (email password : Text) (scopes : List Text) (s s' : LoginState) (entry : AuthorizationCode)
      → is_some (get now code s.codes) ≡ false
      → authorize hasher lower now code email password code_challenge scopes s ≡ (ok entry, s')
      → IsEntered scopes entry s'
  unfolding authorize
  authorize-IsEntered email password scopes s s' entry free h =
      unless_locked-IsEntered _ _ password scopes s s' entry free h

module _ (jwt : Jwt) (s256_challenge : Text → Text) (later : ℕ) (drawn : Drawn) where
  -- The answer to the exchange of an entry that a login made.
  abbrev pub answer : ℕ → Text → List Text → Text → Text → Sessions → Result AuthError TokenPair
  answer now subject scopes code_challenge verifier sessions =
      if ltb later (now + 60)
      then (if verify_s256 jwt s256_challenge later verifier code_challenge
          then ok (issue_token_pair jwt later drawn subject scopes none sessions).0
          else err pkce_mismatch)
      else err authorization_code
