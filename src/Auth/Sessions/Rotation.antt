-- ===== src/Auth/Sessions/Rotation.antt =====
-- What a refresh leaves behind, and what a second refresh with the same token gets.
use kosmo.Base.{
  ℕ, ◌+◌, ◌==◌, false, not, ◌&&◌, Option, none, some, is_some, List, ok, ◌≡◌, refl, arith, ◌∙◌,
  Bool-cases, Option-cases, inl, inr,
}
use kosmo.Base.Text.{Text, text_eq}
use kosmo.Auth.Keys.{get, get-put}
use kosmo.Auth.Types.{refresh, TokenPair, TokenClaims, RefreshConsumeResult}
use kosmo.Auth.TokenStore.{
  TokenStore, encode, decode, register_refresh, store_grace_period, is_family_alive, revoke_family,
}
use kosmo.Auth.TokenStore.Laws.{
  marked, forgotten, get-del_self, consume_refresh-none, consume_refresh-some,
  get_grace_period-none,
}
use kosmo.Auth.Sessions.{
  Sessions, Jwt, Drawn, or_else, issue, is_dead, revoke_family_of, grace_branch, rotate,
  consumed_branch, claims_branch, refresh_token_pair,
}

-- No other request touches the store while this one sleeps.
abbrev pub undisturbed : TokenStore → ℕ → TokenStore
undisturbed t i = t

-- What the branches leave alone.
refresh-revoke_family_of :
    (jwt : Jwt) (now : ℕ) (f : Option Text) (t : TokenStore)
    → (revoke_family_of jwt now f t).refresh ≡ t.refresh
unfolding revoke_family_of revoke_family
refresh-revoke_family_of jwt now none t = refl
refresh-revoke_family_of jwt now (some f) t = refl

refresh-store_grace_period :
    (now : ℕ) (jti : Text) (pair : TokenPair) (ttl : ℕ) (t : TokenStore)
    → (store_grace_period now jti pair ttl t).refresh ≡ t.refresh
unfolding store_grace_period
refresh-store_grace_period now jti pair ttl t = ground arith

get-register_refresh :
    (u now : ℕ) (jti subject : Text) (ttl : ℕ) (f : Option Text) (t : TokenStore) (old : Text)
    → text_eq jti old ≡ false
    → get u old (register_refresh now jti subject ttl f t).refresh ≡ get u old t.refresh
unfolding register_refresh
get-register_refresh u now jti subject ttl f t old e = elim (Bool-cases (ttl == 0)) [
  | inl z ↦ rw z
  | inr z ↦ rw z (get-put u jti old (encode subject f) (now + ttl) t.refresh ∙ rw e)
]

pub revoke_family_of-dead :
    (jwt : Jwt) (now t : ℕ) (f : Text) (s : TokenStore)
    → is_family_alive t f (revoke_family_of jwt now (some f) s) ≡ false
unfolding is_family_alive revoke_family_of revoke_family
revoke_family_of-dead jwt now t f s = rw (get-del_self t f s.family)

module _ (jwt : Jwt) (now : ℕ) (drawn : Drawn) (scopes : List Text) (claims : TokenClaims) where
  rotate-gone :
      (consumed : RefreshConsumeResult) (s : Sessions) (u : ℕ)
      → text_eq drawn.refresh_jti claims.jti ≡ false
      → get u claims.jti s.tokens.refresh ≡ none
      → get u claims.jti (rotate jwt now drawn scopes claims consumed s).1.tokens.refresh ≡ none
  unfolding rotate issue
  rotate-gone consumed s u fresh gone =
      elim (Bool-cases (text_eq consumed.subject claims.subject)) [
        | inr e ↦ rw e (rw (refresh-revoke_family_of jwt now claims.family_id s.tokens) gone)
        | inl e ↦
            elim (Bool-cases
              (is_dead jwt now (or_else consumed.family_id claims.family_id) s.tokens)) [
                | inl d ↦ rw (e, d) gone
                | inr d ↦
                    rw (e, d)
                      (rw refresh-store_grace_period (
                        get-register_refresh u now drawn.refresh_jti claims.subject _
                          (or_else consumed.family_id claims.family_id) s.tokens claims.jti fresh
                        ∙ gone))
              ]
      ]

  grace_branch-gone :
      (t : TokenStore) (s : Sessions) (u : ℕ)
      → get u claims.jti t.refresh ≡ none
      → get u claims.jti (grace_branch jwt now claims (none, t) s).1.tokens.refresh ≡ none
  unfolding grace_branch
  grace_branch-gone t s u gone =
      elim (Bool-cases (is_some claims.family_id && not (is_dead jwt now claims.family_id t))) [
        | inl e ↦ rw e (rw (refresh-revoke_family_of jwt now claims.family_id t) gone)
        | inr e ↦ rw e gone
      ]

module _ (jwt : Jwt) (now : ℕ) (drawn : Drawn) (token : Text) (scopes : List Text) where
  module _ (claims : TokenClaims) (verified : jwt.verify now token refresh ≡ ok claims) where
    -- Nothing is left of the grace period of a token that is not registered.
    pub refresh-unregistered :
        (s : Sessions)
        → get now claims.jti s.tokens.refresh ≡ none
        → refresh_token_pair jwt now undisturbed drawn token scopes s
          ≡ grace_branch jwt now claims (none, forgotten now claims.jti s.tokens) s
    unfolding refresh_token_pair claims_branch consumed_branch
    refresh-unregistered s e = rw verified (
        rw (consume_refresh-none now claims.jti s.tokens e) (
          rw (
            get_grace_period-none now claims.jti (forgotten now claims.jti s.tokens)
              (get-del_self now claims.jti _))))

    pub refresh-registered :
        (s : Sessions) {raw : Text}
        → get now claims.jti s.tokens.refresh ≡ some raw
        → refresh_token_pair jwt now undisturbed drawn token scopes s
          ≡ rotate jwt now drawn scopes claims
              (decode raw)
              (record s { tokens = marked now claims.jti s.tokens })
    unfolding refresh_token_pair claims_branch consumed_branch
    refresh-registered s e = rw verified (rw (consume_refresh-some now claims.jti s.tokens e))

    -- A refresh token is good for one refresh: whatever the outcome, it is not registered afterwards,
    -- now or later, if the identifier drawn for the new token is another.
    pub refresh_token_pair-gone :
        (s : Sessions) (u : ℕ)
        → text_eq drawn.refresh_jti claims.jti ≡ false
        → get u claims.jti
            (refresh_token_pair jwt now undisturbed drawn token scopes s).1.tokens.refresh
          ≡ none
    refresh_token_pair-gone s u fresh = elim (Option-cases (get now claims.jti s.tokens.refresh)) [
      | inl e ↦ rw (refresh-unregistered s e) (
          grace_branch-gone jwt now drawn scopes claims (forgotten now claims.jti s.tokens) s u
            (get-del_self u claims.jti s.tokens.refresh))
      | inr (raw, e) ↦ rw (refresh-registered s e) (
          rotate-gone jwt now drawn scopes claims (decode raw)
            (record s { tokens = marked now claims.jti s.tokens }) u fresh
            (get-del_self u claims.jti s.tokens.refresh))
    ]
