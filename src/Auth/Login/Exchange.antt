-- ===== src/Auth/Login/Exchange.antt =====
-- An authorization code is exchanged at most once.
use kosmo.Base.{ℕ, Option, none, some, err, ◌≡◌, refl, arith, ◌∙◌, ap}
use kosmo.Base.Text.{Text}
use kosmo.Auth.Keys.{get, del}
use kosmo.Auth.TokenStore.Laws.{get-del_self}
use kosmo.Auth.Types.{AuthorizationCode, authorization_code}
use kosmo.Auth.Sessions.{Jwt, Drawn}
use kosmo.Auth.Login.{ExchangeState, consume_code, exchanged, exchange}

module _ (jwt : Jwt) (s256_challenge : Text → Text) where
  codes-exchanged :
      (now : ℕ) (drawn : Drawn) (verifier : Text) (entry : Option AuthorizationCode)
      (s : ExchangeState)
      → (exchanged jwt s256_challenge now drawn verifier entry s).1.codes ≡ s.codes
  unfolding exchanged
  codes-exchanged now drawn verifier none s = refl
  codes-exchanged now drawn verifier (some entry) s = ground arith

  -- Whatever came of the exchange of a code, a wrong verifier included, a second exchange of the
  -- same code, at any time and with any verifier, is refused.
  pub exchange_once :
      (now later : ℕ) (drawn drawn' : Drawn) (code verifier verifier' : Text) (s : ExchangeState)
      → (exchange jwt s256_challenge later drawn' code verifier'
          (exchange jwt s256_challenge now drawn code verifier s).1).0
        ≡ err authorization_code
  unfolding exchange consume_code
  exchange_once now later drawn drawn' code verifier verifier' s =
      let gone =
        ap (get later code) (
          codes-exchanged now drawn verifier (get now code s.codes)
            (record s { codes = del code s.codes }))
        ∙ get-del_self later code s.codes in
      rw gone (unfold exchanged in refl)
