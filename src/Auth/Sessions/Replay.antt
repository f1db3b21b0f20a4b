-- ===== src/Auth/Sessions/Replay.antt =====
-- Which tokens are refreshed, and what a refresh of a used token does to its session.
use kosmo.Base.{
  ℕ, true, false, Option, none, some, List, ok, err, ◌≡◌, refl, arith, ◌∙◌, Option-cases, inl, inr,
}
use kosmo.Base.Text.{Text, text_eq, text_eq_iff}
use kosmo.Auth.Keys.{get}
use kosmo.Auth.Types.{refresh, TokenPair, TokenClaims, RefreshConsumeResult, token_reused}
use kosmo.Auth.TokenStore.{TokenStore, decode, is_family_alive}
use kosmo.Auth.TokenStore.Laws.{marked, forgotten}
use kosmo.Auth.Sessions.{
  Sessions, Jwt, Drawn, or_else, issue, is_dead, grace_branch, rotate, refresh_token_pair,
}
use kosmo.Auth.Sessions.Rotation.{
  undisturbed, refresh-unregistered, refresh-registered, refresh_token_pair-gone,
  revoke_family_of-dead,
}

module _ (jwt : Jwt) (now : ℕ) (drawn : Drawn) (scopes : List Text) (claims : TokenClaims) where
  grace_branch-none :
      (t : TokenStore) (s : Sessions) {pair : TokenPair}
      → (grace_branch jwt now claims (none, t) s).0 ≡ ok pair
      → ⊥
  unfolding grace_branch
  grace_branch-none t s h = ground arith

  -- A rotation that succeeds.
  abbrev pub Rotates : RefreshConsumeResult → TokenStore → TokenPair → Type 0
  Rotates consumed t pair =
      let family = or_else consumed.family_id claims.family_id in
      (consumed.subject ≡ claims.subject)
      × (is_dead jwt now family t ≡ false)
      × (pair.refresh.jti ≡ drawn.refresh_jti)
      × (pair.access.jti ≡ drawn.access_jti)
      × (pair.refresh.family_id ≡ family)
      × (pair.access.family_id ≡ family)

  rotate-Rotates :
      (consumed : RefreshConsumeResult) (s : Sessions) {pair : TokenPair}
      → (rotate jwt now drawn scopes claims consumed s).0 ≡ ok pair
      → Rotates consumed s.tokens pair
  unfolding rotate issue
  rotate-Rotates consumed s h = ground (arith, text_eq_iff consumed.subject claims.subject)

  is_dead-marked :
      (jti : Text) (f : Option Text) (t : TokenStore)
      → is_dead jwt now f (marked now jti t) ≡ is_dead jwt now f t
  unfolding is_dead is_family_alive
  is_dead-marked jti none t = refl
  is_dead-marked jti (some f) t = refl

module _ (jwt : Jwt) (now : ℕ) (drawn : Drawn) (token : Text) (scopes : List Text)
    (claims : TokenClaims) (verified : jwt.verify now token refresh ≡ ok claims) where
  -- With no other request at work, a pair is returned only for a token that is registered, for its
  -- own subject and in a session that is alive; the pair has the identifiers drawn for it and stays
  -- in that session. The grace period never serves one.
  pub refresh_token_pair-Rotates :
      (s : Sessions) {pair : TokenPair}
      → (refresh_token_pair jwt now undisturbed drawn token scopes s).0 ≡ ok pair
      → (raw : Text) × (get now claims.jti s.tokens.refresh ≡ some raw)
        × Rotates jwt now drawn scopes claims (decode raw) s.tokens pair
  refresh_token_pair-Rotates s h = elim (Option-cases (get now claims.jti s.tokens.refresh)) [
    | inl e ↦ absurd (
        grace_branch-none jwt now drawn scopes claims (forgotten now claims.jti s.tokens) s
          (rw (refresh-unregistered jwt now drawn token scopes claims verified s e) at h))
    | inr (raw, e) ↦
        let r =
          rotate-Rotates jwt now drawn scopes claims (decode raw)
            (record s { tokens = marked now claims.jti s.tokens })
            (rw (refresh-registered jwt now drawn token scopes claims verified s e) at h) in
        (raw, e, rw is_dead-marked at r)
  ]

module _ (jwt : Jwt) (claims : TokenClaims) (family : Text)
    (in_family : claims.family_id ≡ some family) where
  grace_branch-reused :
      (now : ℕ) (t : TokenStore) (s : Sessions) (u : ℕ)
      → is_family_alive now family t ≡ true
      → ((grace_branch jwt now claims (none, t) s).0 ≡ err token_reused)
        × (is_family_alive u family (grace_branch jwt now claims (none, t) s).1.tokens ≡ false)
  unfolding grace_branch is_dead
  grace_branch-reused now t s u alive =
      rw (in_family, alive) (refl, revoke_family_of-dead jwt now u family t)

  is_family_alive-forgotten :
      (now : ℕ) (jti : Text) (t : TokenStore)
      → is_family_alive now family (forgotten now jti t) ≡ is_family_alive now family t
  unfolding is_family_alive
  is_family_alive-forgotten now jti t = refl

  -- A token that was refreshed once, with whatever outcome, is presented again while its session is
  -- alive: the session is revoked at once and for good, also within the thirty seconds of the
  -- grace period.
  pub refresh_token_pair-reused :
      (now later : ℕ) (drawn drawn' : Drawn) (token : Text) (scopes scopes' : List Text)
      (s : Sessions) (u : ℕ)
      → jwt.verify now token refresh ≡ ok claims
      → jwt.verify later token refresh ≡ ok claims
      → text_eq drawn.refresh_jti claims.jti ≡ false
      → is_family_alive later family
          (refresh_token_pair jwt now undisturbed drawn token scopes s).1.tokens
        ≡ true
      → ((refresh_token_pair jwt later undisturbed drawn' token scopes'
            (refresh_token_pair jwt now undisturbed drawn token scopes s).1).0
          ≡ err token_reused)
        × (is_family_alive u family
              (refresh_token_pair jwt later undisturbed drawn' token scopes'
                (refresh_token_pair jwt now undisturbed drawn token scopes s).1).1.tokens
            ≡ false)
  refresh_token_pair-reused now later drawn drawn' token scopes scopes' s u first second fresh
        alive =
      let s' = (refresh_token_pair jwt now undisturbed drawn token scopes s).1 in
      let gone = refresh_token_pair-gone jwt now drawn token scopes claims first s later fresh in
      rw (refresh-unregistered jwt later drawn' token scopes' claims second s' gone) (
        grace_branch-reused later (forgotten later claims.jti s'.tokens) s' u
          (is_family_alive-forgotten later claims.jti s'.tokens ∙ alive))
