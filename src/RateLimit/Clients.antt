-- ===== src/RateLimit/Clients.antt =====
-- Whose address counts, for backend/src/kosmo/infrastructure/api/dependencies/rate_limit.py.
use kosmo.Base.{
  Bool, true, false, not, ◌&&◌, Option, ◌≡◌, ◌⊎◌, refl, if◌then◌else◌, any, is_empty, arith,
  Bool-cases, inl, inr, and-eq-true,
}
use kosmo.Base.Text.{Text, codes, strip, member}
use kosmo.RateLimit.{
  LimiterSettings, IpLibrary, trusts, proxies_of, is_trusted_proxy, proxies_setting,
  resolve_client_ip,
}

-- The outcomes of the choice of an address.
pub data Resolves (lib : IpLibrary) (settings : Option LimiterSettings) (host header : Text)
    (ip : Text) : Type 0 where
  unknown_host : is_empty host ≡ true → ip ≡ codes "unknown" → Resolves lib settings host header ip
  own_address : is_empty host ≡ false → ip ≡ host → Resolves lib settings host header ip
  forwarded :
      is_empty host ≡ false
      → (member host (proxies_of (proxies_setting settings)) ≡ true)
        ⊎ ((lib.is_address host ≡ true)
            × (any (trusts lib host) (proxies_of (proxies_setting settings)) ≡ true))
      → lib.is_address (strip header) ≡ true
      → ip ≡ strip header
      → Resolves lib settings host header ip

module _ (lib : IpLibrary) (host cfg : Text) where
  is_trusted_proxy_listed :
      is_empty host ≡ false
      → is_trusted_proxy lib host cfg ≡ true
      → (member host (proxies_of cfg) ≡ true)
        ⊎ ((lib.is_address host ≡ true) × (any (trusts lib host) (proxies_of cfg) ≡ true))
  unfolding is_trusted_proxy
  is_trusted_proxy_listed e h = elim (Bool-cases (member host (proxies_of cfg))) [
    | inl m ↦ inl m
    | inr m ↦
        inr ((and-eq-true _ _).0 (listed_or (is_empty host) (member host (proxies_of cfg)) _ e m h))
  ]
    where
      listed_or :
          (a b c : Bool)
          → a ≡ false
          → b ≡ false
          → (if a then false else if b then true else c) ≡ true
          → c ≡ true
      listed_or a b c ha hb h = ground (arith, ha, hb, h)

-- A request counts for the address of its connection, or for the one in its header: for that one only
-- if the header holds a valid address and the connection comes from a trusted proxy, which the
-- settings list or which they match as an address or a network.
pub resolve_client_ip-Resolves :
    (lib : IpLibrary) (settings : Option LimiterSettings) (host header : Text)
    → Resolves lib settings host header (resolve_client_ip lib settings host header)
unfolding resolve_client_ip
resolve_client_ip-Resolves lib settings host header =
    at (is_empty host) (is_trusted_proxy lib host (proxies_setting settings))
      (is_empty (strip header)) (lib.is_address (strip header)) refl refl refl
  where
    at :
        (a b c d : Bool)
        → is_empty host ≡ a
        → is_trusted_proxy lib host (proxies_setting settings) ≡ b
        → lib.is_address (strip header) ≡ d
        → Resolves lib settings host header
            (if a then codes "unknown" else if b && (not c && d) then strip header else host)
    at true b c d ha hb hd = unknown_host ha refl
    at false true false true ha hb hd =
        forwarded ha (is_trusted_proxy_listed lib host (proxies_setting settings) ha hb) hd refl
    at false true false false ha hb hd = own_address ha refl
    at false true true d ha hb hd = own_address ha refl
    at false false c d ha hb hd = own_address ha refl
