-- ===== src/RateLimit.antt =====
-- backend/src/kosmo/infrastructure/api/dependencies/rate_limit.py: the limits on requests from one
-- address and on generations of one project. Both count in Redis by the same script, and differ in
-- the key, the limit and the window. Python's ipaddress is the record IpLibrary.
pub mod Clients
pub mod Windows
mod Tests
use kosmo.Base.{
  ℕ, suc, ◌+◌, ◌-◌, max, Bool, true, false, not, ◌&&◌, ◌||◌, Option, none, some, List, [], ◌∷◌,
  ◌++◌, map, ltb, if◌then◌else◌, keep, any, is_empty,
}
use kosmo.Base.Text.{Text, codes, text_eq, strip, split, has_char, member, filled}
use kosmo.Base.Tables.{Table, update}

-- The settings that the limiters read.
pub record LimiterSettings : Type 0 where
  pub rate_limit_required : Bool
  pub env : Text
  pub trusted_proxies : Text
  pub generation_rate_limit_per_hour : Option ℕ

unfoldable pub should_fail_closed : Option LimiterSettings → Bool
should_fail_closed none = false
should_fail_closed (some s) =
    s.rate_limit_required || (text_eq s.env (codes "production") || text_eq s.env (codes "staging"))

-- `ip_address` accepts a text; a text is in a network, or is the same address as another: `none`
-- where the second text is not valid and a ValueError is raised.
pub record IpLibrary : Type 0 where
  pub is_address : Text → Bool
  pub in_network : Text → Text → Option Bool
  pub same_address : Text → Text → Option Bool

abbrev pub or_no : Option Bool → Bool
or_no none = false
or_no (some b) = b

-- One turn of the loop over the proxies.
unfoldable pub trusts : IpLibrary → Text → Text → Bool
trusts lib host proxy =
    or_no (if has_char b'/' proxy then lib.in_network host proxy else lib.same_address host proxy)

unfoldable pub proxies_of : Text → List Text
proxies_of trusted_proxies_cfg =
    keep (λ p. not (is_empty p)) (map strip (split b',' trusted_proxies_cfg))

unfoldable pub is_trusted_proxy : IpLibrary → Text → Text → Bool
unfolding trusts
is_trusted_proxy lib host trusted_proxies_cfg =
    let proxies = proxies_of trusted_proxies_cfg in
    if is_empty host
    then false
    else if member host proxies
    then true
    else lib.is_address host && any (trusts lib host) proxies

abbrev pub default_trusted_proxies : Text
default_trusted_proxies = codes "127.0.0.1,::1,testclient,10.0.0.0/8,172.16.0.0/12,192.168.0.0/16"

unfoldable pub proxies_setting : Option LimiterSettings → Text
proxies_setting none = default_trusted_proxies
proxies_setting (some s) = s.trusted_proxies

-- `header` is x-kosmo-client-ip; a connection without a client has the empty host.
unfoldable pub resolve_client_ip : IpLibrary → Option LimiterSettings → Text → Text → Text
unfolding is_trusted_proxy
resolve_client_ip lib settings host header =
    let header_ip = strip header in
    if is_empty host
    then codes "unknown"
    else if is_trusted_proxy lib host (proxies_setting settings)
        && (not (is_empty header_ip) && lib.is_address header_ip)
    then header_ip
    else host

-- A counter in Redis and the second at which it expires.
pub record Window : Type 0 where
  pub count : ℕ
  pub expires : ℕ

unfoldable pub live : ℕ → Option Window → Option Window
live now none = none
live now (some w) = if ltb now w.expires then some w else none

-- The script: `INCR`, and `EXPIRE` when the counter is new.
unfoldable pub incr : ℕ → ℕ → Option Window → Window
incr window now none = record { count = 1; expires = now + window }
incr window now (some w) = record { count = suc w.count; expires = w.expires }

unfoldable pub counted_window : ℕ → ℕ → Text → Table Window → Window
unfolding incr live
counted_window window now key counters = incr window now (live now (counters key))

-- Redis answers both calls; or it fails in the script, which may have run, or in the `TTL`; or what it
-- answers to one of the two is no integer.
pub data Link : Type 0 where
  up : Link
  down : Bool → Link
  down_on_ttl : Link
  no_count : Link
  no_ttl : Link

-- `internal_error` is an exception that the limiter does not catch.
pub data HttpError : Type 0 where
  service_unavailable : HttpError
  internal_error : HttpError
  too_many_requests : ℕ → HttpError

-- Whether to refuse when Redis fails, and whether an answer that is no integer raises: only
-- ProjectGenerationRateLimiter catches what `int` raises.
pub record Policy : Type 0 where
  pub fail_closed : Bool
  pub int_raises : Bool

unfoldable pub redis_unavailable : Bool → Option HttpError
redis_unavailable fail_closed = if fail_closed then some service_unavailable else none

unfoldable pub uncounted : Bool → Option HttpError
uncounted int_raises = if int_raises then some internal_error else none

-- The answer to a request that has been counted; `none` lets it pass.
unfoldable pub judged : ℕ → ℕ → Policy → Link → Window → Option HttpError
unfolding redis_unavailable
judged limit now policy link w =
    if ltb limit w.count
    then elim link [
      | up ↦ some (too_many_requests (max (w.expires - now) 1))
      | no_ttl ↦ if policy.int_raises then some internal_error else some (too_many_requests 60)
      | _ ↦ redis_unavailable policy.fail_closed
    ]
    else none

-- A request under a key, with Redis.
unfoldable pub limited :
    (limit window now : ℕ) → Policy → Link → Text → Table Window → Option HttpError × Table Window
unfolding counted_window judged uncounted
limited limit window now policy (down ran) key counters = (
  redis_unavailable policy.fail_closed,
  if ran then update key (some (counted_window window now key counters)) counters else counters,
)
limited limit window now policy no_count key counters = (
  uncounted policy.int_raises,
  update key (some (counted_window window now key counters)) counters,
)
limited limit window now policy link key counters =
    let w = counted_window window now key counters in
    (judged limit now policy link w, update key (some w) counters)

unfoldable pub with_redis :
    (limit window now : ℕ)
    → Policy
    → Option Link
    → Text
    → Table Window
    → Option HttpError × Table Window
unfolding limited
with_redis limit window now policy none key counters =
    (redis_unavailable policy.fail_closed, counters)
with_redis limit window now policy (some link) key counters =
    limited limit window now policy link key counters

-- `IpRateLimiter.__call__`; without `redis` the link is `none`.
unfoldable pub ip_rate_limiter :
    IpLibrary
    → (requests_per_minute : ℕ) → Option LimiterSettings
    → (path host header : Text) → ℕ
    → Option Link
    → Table Window
    → Option HttpError × Table Window
unfolding with_redis resolve_client_ip should_fail_closed
ip_rate_limiter lib requests_per_minute settings path host header now redis counters =
    let client_ip = resolve_client_ip lib settings host header in
    with_redis requests_per_minute 60 now
      (record { fail_closed = should_fail_closed settings; int_raises = true }) redis
      (codes "auth:ip_rate:" ++ (path ++ (codes ":" ++ client_ip))) counters

-- Where the project of a request is looked for; a feature gives the project of its row.
pub record ProjectRequest : Type 0 where
  pub argument : Text
  pub path_project_id : Option Text
  pub state_project_id : Option Text
  pub path_feature_id : Option Text

abbrev pub first_filled : Option Text → Text → Text
first_filled none t = t
first_filled (some []) t = t
first_filled (some (c ∷ s)) t = c ∷ s

unfoldable pub feature_project : (Text → Option Text) → Option Text → Text
feature_project project_of_feature none = codes "unknown"
feature_project project_of_feature (some f) =
    first_filled (project_of_feature f) (codes "feat_" ++ f)

unfoldable pub rate_project : (Text → Option Text) → ProjectRequest → Text
unfolding feature_project
rate_project project_of_feature r = first_filled (some r.argument) (
    first_filled r.path_project_id (
      first_filled r.state_project_id
        (feature_project project_of_feature (filled r.path_feature_id))))

unfoldable pub limit_of : Option ℕ → Option LimiterSettings → ℕ
limit_of (some n) settings = n
limit_of none none = 120
limit_of none (some s) = elim s.generation_rate_limit_per_hour [ none ↦ 120 | some n ↦ n ]

-- `ProjectGenerationRateLimiter.__call__`, with a container.
unfoldable pub project_rate_limiter :
    (Text → Option Text)
    → Option ℕ
    → Option LimiterSettings
    → ProjectRequest
    → ℕ
    → Option Link
    → Table Window
    → Option HttpError × Table Window
unfolding with_redis rate_project limit_of should_fail_closed
project_rate_limiter project_of_feature requests_per_hour settings request now redis counters =
    with_redis (limit_of requests_per_hour settings) 3600 now
      (record { fail_closed = should_fail_closed settings; int_raises = false }) redis
      (codes "gen:rate:" ++ rate_project project_of_feature request) counters
