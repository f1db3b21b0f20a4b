-- ===== src/RateLimit/Tests.antt =====
-- Runs of backend/src/kosmo/infrastructure/api/dependencies/rate_limit.py.
use kosmo.Base.{ℕ, true, false, Option, none, some, List, [], ◌∷◌, ◌≡◌, ◌⊎◌, refl, arith}
use kosmo.Base.Text.{Text, codes, text_eq, split, strip, has_char, member, is_space}
use kosmo.Base.Tables.{Table, update}
use kosmo.RateLimit.{
  LimiterSettings, IpLibrary, resolve_client_ip, Window, up, no_count, Policy, too_many_requests,
  limited, judged, counted_window, incr, live, rate_project, project_rate_limiter, proxies_of,
  proxies_setting,
}
use kosmo.RateLimit.Windows.{IsCounted, admitted, admitted-eq-min, limited_fail_closed}

abbrev closed_policy : Policy
closed_policy = record { fail_closed = true; int_raises = true }

abbrev no_counters : Table Window
no_counters key = none

abbrev caller : Text
caller = codes "auth:ip_rate:/login:10.0.0.7"

abbrev bursts : List ℕ
bursts = 101 ∷ 101 ∷ 150 ∷ 159 ∷ []

admitted-eq-min_example : admitted 3 60 closed_policy caller (100 ∷ bursts) no_counters ≡ 3
unfolding live
admitted-eq-min_example =
    admitted-eq-min 3 60 closed_policy caller 100 bursts no_counters refl
      (omega arith, (omega arith, (omega arith, (omega arith, tt))))

limited_fail_closed_example :
    ((closed_policy.int_raises ≡ false) × (up ≡ no_count))
    ⊎ IsCounted 3 100 caller no_counters (limited 3 60 100 closed_policy up caller no_counters).1
unfolding limited judged counted_window live incr
limited_fail_closed_example =
    limited_fail_closed 3 60 100 closed_policy caller no_counters refl up refl

-- One proxy, listed by its address; a text is an address when it has a dot.
abbrev dotted : IpLibrary
dotted = record {
  is_address = has_char b'.';
  in_network = λ a b. none;
  same_address = λ a b. some (text_eq a b);
}

abbrev production : Option LimiterSettings
production = some (record {
  rate_limit_required = false;
  env = codes "production";
  trusted_proxies = codes "10.0.0.1, ::1";
  generation_rate_limit_per_hour = none;
})

behind_the_proxy :
    resolve_client_ip dotted production (codes "10.0.0.1") (codes " 9.9.9.9 ") ≡ codes "9.9.9.9"
unfolding resolve_client_ip strip split proxies_of member proxies_setting is_space has_char
behind_the_proxy = refl

forged_header :
    resolve_client_ip dotted production (codes "8.8.8.8") (codes "9.9.9.9") ≡ codes "8.8.8.8"
unfolding resolve_client_ip strip split proxies_of member proxies_setting is_space has_char
forged_header = refl

-- The second generation of an hour, with a limit of one.
one_generation :
    (project_rate_limiter
      (λ f. none)
      (some 1)
      production
      (record {
        argument = [];
        path_project_id = none;
        state_project_id = none;
        path_feature_id = some (codes "f1");
      })
      50
      (some up)
      (update
        (codes "gen:rate:feat_f1")
        (some (record { count = 1; expires = 3000 }))
        no_counters)).0
    ≡ some (too_many_requests 2950)
unfolding project_rate_limiter limited update rate_project
one_generation = refl
