-- ===== src/RateLimit/Windows.antt =====
-- How many requests a window lets pass, for
-- backend/src/kosmo/infrastructure/api/dependencies/rate_limit.py.
use kosmo.Base.{
  ℕ, suc, ◌+◌, ◌-◌, ◌<◌, ◌≤◌, min, max, true, false, Option, none, some, List, [], ◌∷◌, ◌≡◌, refl,
  ap, sym, ◌∙◌, ltb, if◌then◌else◌, All, length, arith, Bool-cases, inl, inr, ◌⊎◌,
}
use kosmo.Base.Text.{Text, text_eq}
use kosmo.Base.Tables.{Table, update, update_self, update-ne}
use kosmo.RateLimit.{
  Window, live, incr, counted_window, Link, up, down, down_on_ttl, no_count, no_ttl, Policy,
  uncounted, HttpError, too_many_requests, redis_unavailable, judged, limited,
}

abbrev pub passes : Option HttpError → ℕ
passes none = 1
passes (some e) = 0

-- The requests under a key that pass, of those at some times; Redis answers.
abbrev pub admitted : (limit window : ℕ) → Policy → Text → List ℕ → Table Window → ℕ
admitted limit window policy key [] counters = 0
admitted limit window policy key (now ∷ times) counters =
    let r = limited limit window now policy up key counters in
    passes r.0 + admitted limit window policy key times r.1

passes-judged :
    (limit now : ℕ) (policy : Policy) (w : Window)
    → passes (judged limit now policy up w) ≡ (if ltb limit w.count then 0 else 1)
unfolding judged
passes-judged limit now policy w = elim (Bool-cases (ltb limit w.count)) [
  | inl e ↦ rw e refl
  | inr e ↦ rw e refl
]

live-lt :
    (now : ℕ) (w : Window) (o : Option Window) → o ≡ some w → now < w.expires → live now o ≡ some w
unfolding live
live-lt now w o e l = rw e (ground (arith, l))

module _ (limit window : ℕ) (policy : Policy) (key : Text) where
  admitted_live :
      (times : List ℕ) (w : Window) (counters : Table Window)
      → counters key ≡ some w
      → All (λ t. t < w.expires) times
      → admitted limit window policy key times counters ≡ min (length times) (limit - w.count)
  unfolding limited counted_window incr
  admitted_live [] w counters e h = omega arith
  admitted_live (t ∷ times) w counters e h =
      let w' : Window = record { count = suc w.count; expires = w.expires } in
      let same : counted_window window t key counters ≡ w' =
        ap (incr window t) (live-lt t w (counters key) e h.0) in
      let rest =
        admitted_live times w' (update key (some (counted_window window t key counters)) counters)
          (update_self key (some (counted_window window t key counters)) counters ∙ ap some same)
          h.1 in
      let first =
        passes-judged limit t policy (counted_window window t key counters)
        ∙ ap (λ v. if ltb limit v.count then 0 else 1) same in
      ground (arith, rest, first)

  -- Of the requests under one key from the first of a window until it expires, as many pass as the
  -- limit says, and all of them when they are not more; Redis answers.
  pub admitted-eq-min :
      (start : ℕ) (times : List ℕ) (counters : Table Window)
      → live start (counters key) ≡ none
      → All (λ t. t < start + window) times
      → admitted limit window policy key (start ∷ times) counters ≡ min (suc (length times)) limit
  unfolding limited counted_window incr
  admitted-eq-min start times counters e h =
      let w' : Window = record { count = 1; expires = start + window } in
      let same : counted_window window start key counters ≡ w' = ap (incr window start) e in
      let rest =
        admitted_live times w'
          (update key (some (counted_window window start key counters)) counters)
          (update_self key (some (counted_window window start key counters)) counters
            ∙ ap some same)
          h in
      let first =
        passes-judged limit start policy (counted_window window start key counters)
        ∙ ap (λ v. if ltb limit v.count then 0 else 1) same in
      ground (arith, rest, first)

judged_over :
    (limit now : ℕ) (policy : Policy) (w : Window)
    → ltb limit w.count ≡ true
    → judged limit now policy up w ≡ some (too_many_requests (max (w.expires - now) 1))
unfolding judged
judged_over limit now policy w e = rw (e, judged) refl

judged_within :
    (limit now : ℕ) (policy : Policy) (link : Link) (w : Window)
    → ltb limit w.count ≡ false
    → judged limit now policy link w ≡ none
unfolding judged
judged_within limit now policy link w e = rw (e, judged) refl

retry_seconds :
    (limit now n : ℕ) (policy : Policy) (w : Window)
    → judged limit now policy up w ≡ some (too_many_requests n)
    → n ≡ max (w.expires - now) 1
retry_seconds limit now n policy w h = elim (Bool-cases (ltb limit w.count)) [
  | inl e ↦ let f = sym (judged_over limit now policy w e) ∙ h in cc
  | inr e ↦ let f = sym (judged_within limit now policy up w e) ∙ h in cc
]

live_expired :
    (now : ℕ) (w : Window) (o : Option Window) → o ≡ some w → w.expires ≤ now → live now o ≡ none
unfolding live
live_expired now w o e l = rw e (ground (arith, l))

-- A refused request names at least one second, and the next request after that time passes.
pub limited_again :
    (limit window now n : ℕ) (policy : Policy) (key : Text) (counters : Table Window)
    → 1 ≤ limit
    → (limited limit window now policy up key counters).0 ≡ some (too_many_requests n)
    → (1 ≤ n)
      × ((limited limit window
            (now + n)
            policy
            up
            key
            (limited limit window now policy up key counters).1).0
          ≡ none)
unfolding limited counted_window incr
limited_again limit window now n policy key counters l h =
    let w = counted_window window now key counters in
    let after = update key (some w) counters in
    let seconds = retry_seconds limit now n policy w h in
    let gone : live (now + n) (after key) ≡ none =
      live_expired (now + n) w (after key) (update_self key (some w) counters)
        (omega (arith, seconds)) in
    let fresh : counted_window window (now + n) key after
        ≡ record { count = 1; expires = (now + n) + window } =
      ap (incr window (now + n)) gone in
    (
      omega (arith, seconds),
      ap (judged limit (now + n) policy up) fresh
          ∙ judged_within limit (now + n) policy up
              (record { count = 1; expires = (now + n) + window }) (ground (arith, l)),
    )

some_is_none : (e : HttpError) → some e ≡ none → ⊥
some_is_none e h = cc

judged_over_closed :
    (limit now : ℕ) (policy : Policy) (link : Link) (w : Window)
    → policy.fail_closed ≡ true
    → ltb limit w.count ≡ true
    → judged limit now policy link w ≡ none
    → ⊥
unfolding judged redis_unavailable
judged_over_closed limit now policy up w c e h =
    some_is_none _ (sym (judged_over limit now policy w e) ∙ h)
judged_over_closed limit now policy (down ran) w c e h = ground (arith, c, e, h)
judged_over_closed limit now policy down_on_ttl w c e h = ground (arith, c, e, h)
judged_over_closed limit now policy no_count w c e h = ground (arith, c, e, h)
judged_over_closed limit now policy no_ttl w c e h = ground (arith, c, e, h)

judged_fail_closed :
    (limit now : ℕ) (policy : Policy) (link : Link) (w : Window)
    → policy.fail_closed ≡ true
    → judged limit now policy link w ≡ none
    → w.count ≤ limit
judged_fail_closed limit now policy link w c h = elim (Bool-cases (ltb limit w.count)) [
  | inl e ↦ absurd (judged_over_closed limit now policy link w c e h)
  | inr e ↦ ground (arith, e)
]

-- The requests that a key counts at a time.
abbrev pub count_at : ℕ → Option Window → ℕ
count_at now none = 0
count_at now (some w) = if ltb now w.expires then w.count else 0

count-incr :
    (window now : ℕ) (o : Option Window)
    → (incr window now (live now o)).count ≡ suc (count_at now o)
unfolding incr live
count-incr window now none = refl
count-incr window now (some w) = elim (Bool-cases (ltb now w.expires)) [
  | inl e ↦ rw e refl
  | inr e ↦ rw e refl
]

-- The counters of a request that passes: one more under its key, within the limit, and the others
-- as they were.
abbrev pub IsCounted : (limit now : ℕ) → Text → Table Window → Table Window → Type 0
IsCounted limit now key counters counters' =
    ((w : Window) × (counters' key ≡ some w)
      × (w.count ≡ suc (count_at now (counters key)))
      × (w.count ≤ limit))
    × ((k : Text) → text_eq key k ≡ false → counters' k ≡ counters k)

module _ (limit window now : ℕ) (policy : Policy) (key : Text) (counters : Table Window)
    (closed : policy.fail_closed ≡ true) where
  judged-IsCounted :
      (link : Link)
      → judged limit now policy link (counted_window window now key counters) ≡ none
      → IsCounted limit now key counters
          (update key (some (counted_window window now key counters)) counters)
  unfolding counted_window
  judged-IsCounted link h =
      let w = counted_window window now key counters in
      (
        (
          w,
          update_self key (some w) counters,
          count-incr window now (counters key),
          judged_fail_closed limit now policy link w closed h,
        ),
        λ k e. update-ne key k (some w) counters e,
      )

  -- Where a limiter has to fail closed, a request passes only when Redis has counted it, one more than
  -- the requests that the key counts then, and the count is within the limit; but for
  -- ProjectGenerationRateLimiter, which also lets it pass when the count is no integer.
  pub limited_fail_closed :
      (link : Link)
      → (limited limit window now policy link key counters).0 ≡ none
      → ((policy.int_raises ≡ false) × (link ≡ no_count))
        ⊎ IsCounted limit now key counters (limited limit window now policy link key counters).1
  unfolding limited redis_unavailable uncounted
  limited_fail_closed up h = inr (judged-IsCounted up h)
  limited_fail_closed down_on_ttl h = inr (judged-IsCounted down_on_ttl h)
  limited_fail_closed no_ttl h = inr (judged-IsCounted no_ttl h)
  limited_fail_closed no_count h = inl (ground (arith, h), refl)
  limited_fail_closed (down ran) h = absurd (ground (arith, closed, h))
