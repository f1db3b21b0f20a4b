-- ===== src/Auth/Login/Register.antt =====
-- backend/src/kosmo/application/auth/register.py: the registration of a user, and the login after it.
-- The id that is drawn is an argument; the name of a user is read nowhere else.
use kosmo.Base.{
  ℕ, ◌+◌, true, false, Option, none, some, List, [], ◌∷◌, ◌++◌, Result, ok, err, is_empty, ◌≡◌,
  refl, arith, if◌then◌else◌,
}
use kosmo.Base.Text.{Text, text_eq, text_eq_iff, strip}
use kosmo.Auth.Types.{User, success, failure, register as registering}
use kosmo.Auth.Login.{
  LoginState, Hasher, by_email, normalized_email, lockout_seconds, login_event, checked_user,
  attempt, unless_locked, authorize,
}

-- The `ValueError` of an empty name, and `UserAlreadyExistsError`.
pub data RegisterError : Type 0 where
  empty_name user_already_exists : RegisterError

module _ (hasher : Hasher) (lower : Text → Text) (now : ℕ) where
  unfoldable pub created :
      Text → Text → Text → Option User → LoginState → Result RegisterError User × LoginState
  unfolding login_event
  created id email password (some existing) s = (
    err user_already_exists,
    record s {
      audit =
          s.audit ++ login_event hasher lower now registering failure (some existing.id) email ∷ [];
    },
  )
  created id email password none s =
      let user : User = record {
        id = id;
        email = email;
        hashed_password = hasher.hash password;
        is_active = true;
      } in
      (
        ok user,
        record s {
          users = s.users ++ (user ∷ []);
          audit = s.audit ++ login_event hasher lower now registering success (some id) email ∷ [];
        },
      )

  -- `RegisterUser.execute`.
  unfoldable pub register :
      Text → Text → Text → Text → LoginState → Result RegisterError User × LoginState
  unfolding created normalized_email
  register id name email password s =
      if is_empty (strip name)
      then (err empty_name, s)
      else created id (normalized_email lower email) password
          (by_email (normalized_email lower email) s.users) s

by_email-append :
    (email : Text) (us : List User) (u : User)
    → by_email email us ≡ none
    → text_eq u.email email ≡ true
    → by_email email (us ++ (u ∷ [])) ≡ some u
unfolding by_email
by_email-append email [] u h e = rw e refl
by_email-append email (v ∷ us) u h e = ground (arith, by_email-append email us u, h, e)

module _ (hasher : Hasher) (lower : Text → Text) (now later : ℕ) where
  -- A user that registers with a name that is not blank and an e-mail that is not taken can log in
  -- with the e-mail and the password, unless the e-mail is locked out: the authorization code is of
  -- the new user and expires after 60 seconds. A second registration of the e-mail is refused.
  pub authorize-register :
      (id name email password code code_challenge id' password' : Text) (scopes : List Text)
      (s : LoginState)
      → is_empty (strip name) ≡ false
      → by_email (normalized_email lower email) s.users ≡ none
      → hasher.verify (hasher.hash password) password ≡ true
      → lockout_seconds later (normalized_email lower email) s.attempts ≡ none
      → ((authorize hasher lower later code email password code_challenge scopes
            (register hasher lower now id name email password s).1).0
          ≡ ok (record {
            code = code;
            subject = id;
            code_challenge = code_challenge;
            expires_at = later + 60;
            scopes = scopes;
          }))
        × ((register hasher lower later id' name email password'
              (register hasher lower now id name email password s).1).0
            ≡ err user_already_exists)
  unfolding register created authorize unless_locked attempt checked_user
  authorize-register id name email password code code_challenge id' password' scopes s named free
        verified unlocked =
      let email' = normalized_email lower email in
      let user : User = record {
        id = id;
        email = email';
        hashed_password = hasher.hash password;
        is_active = true;
      } in
      let found = by_email-append email' s.users user free ((text_eq_iff email' email').1 refl) in
      rw (named, free, unlocked, found, verified) (refl, refl)
