-- ===== src/OtpQuota/Early.antt =====
-- otp-send-quota.ts: why the waiting time that a refusal names is not too long.
use wp_auto.Base.{
  ℕ, zero, suc, ◌+◌, ◌-◌, ◌*◌, ◌≤◌, ◌<◌, ◌≡◌, ◌≢◌, String, Bytes, ◌&&◌, Option, none, some, List,
  [], ◌∷◌, arith, length, get_elem?, filter, count, count-filter, IsSortedBy, AtLeast,
  sort_by-IsSortedBy, filter-IsSortedBy, count_mono, count-sort_by, ltb, ok, Bool-cases,
  Option-cases, inl, inr, ◌⊎◌, text_eq, bytes_eq, >>=-eq-ok,
}
use wp_auto.OtpQuota.{
  Limits, Dimension, recipient_hour, recipient_day, global_day, Reservation, allowed, denied,
  Denial, hour, day, within, sent_to, retry_after, later, global_events, day_events, hour_events,
  rule, rules, purge, decide, reserve,
}
use wp_auto.OtpQuota.Retry.{at, wait, rule-full, reserve-denied}
use wp_auto.OtpQuota.Windows.{
  rules-none, length-global_events, length-day_events, length-hour_events,
}

count-all :
    (w t n : ℕ) (events : List Reservation)
    → AtLeast at n events
    → t < n + w
    → length events ≤ count (within w t) events
count-all w t n [] a h = omega arith
count-all w t n (y ∷ ys) (b, a) h = ground (arith, count-all w t n ys a h)

-- As long as the entry at `i` has not, neither have those from it on.
count-before :
    (w t i : ℕ) (events : List Reservation) (x : Reservation)
    → IsSortedBy at events
    → get_elem? events i ≡ some x
    → t < x.reserved_at + w
    → length events ≤ count (within w t) events + i
count-before w t i [] x s e h = cc
count-before w t zero (y ∷ ys) x (a, s) e h = ground (arith, count-all w t (at y) ys a)
count-before w t (suc i) (y ∷ ys) x (a, s) e h = ground (arith, count-before w t i ys x s e h)

-- `t` is a second or more before the end of the wait.
abbrev Early : ℕ → ℕ → Denial → Type 0
Early now t d = t + 1000 ≤ now + d.retry_after_seconds * 1000

retry_after-early :
    (w now t : ℕ) (x : Reservation)
    → now < t
    → t + 1000 ≤ now + retry_after w now x * 1000
    → t < x.reserved_at + w
retry_after-early w now t x passed h = omega arith

later-some :
    (found : Option Denial) (new d : Denial)
    → later found new ≡ some d
    → (found ≡ some d) ⊎ (new ≡ d)
later-some none new d h = inr (ground arith)
later-some (some old) new d h = ground arith

-- A rule that names the wait is full until then.
rule-Early :
    (now t : ℕ) (dim : Dimension) (events : List Reservation) (most w : ℕ) (found : Option Denial)
    (d : Denial)
    → IsSortedBy at events
    → now < t
    → rule now dim events most w found ≡ ok (some d)
    → Early now t d
    → (found ≡ some d) ⊎ (most ≤ count (within w t) events)
unfolding rule
rule-Early now t dim events most w found d s passed h early =
    elim (Bool-cases (ltb (length events) most)) [
      | inl room ↦ inl (ground arith)
      | inr full ↦ elim (Option-cases (get_elem? events (length events - most))) [
        | inl e ↦ cc (rw (full, e, rule) at h)
        | inr (x, e) ↦
            let same : later found (wait dim w now x) ≡ some d =
              cc (h, rule-full now dim events most w found x full e) in
            elim (later-some found (wait dim w now x) d same) [
              | inl old ↦ inl old
              | inr new ↦
                  let due : t < x.reserved_at + w =
                    retry_after-early w now t x passed (rw (← new) at early) in
                  let kept = count-before w t (length events - most) events x s e due in
                  inr (ground arith)
            ]
      ]
    ]

module _ (c : Bytes) (now t : ℕ) (rows : List Reservation) (passed : now ≤ t) where
  -- What was counted at `now` and is in its window still is counted at `t`.
  hour_events-kept :
      count (within hour t) (hour_events c now rows) ≤ length (hour_events c t (purge t rows))
  hour_events-kept = omega (
    arith,
    length-hour_events c t (purge t rows),
    count-filter (λ r. within day t r && (sent_to c r && within hour t r)) (within (day + day) t)
        rows,
    count_mono (λ r. within day now r && (sent_to c r && (within hour now r && within hour t r)))
        (λ r. within (day + day) t r && (within day t r && (sent_to c r && within hour t r))) rows
        (λ r h. ground arith),
    count-filter (within hour t) (within hour now) (day_events c now rows),
    count-filter (λ r. within hour now r && within hour t r) (sent_to c) (global_events now rows),
    count-sort_by at (λ r. sent_to c r && (within hour now r && within hour t r))
        (filter (within day now) rows),
    count-filter (λ r. sent_to c r && (within hour now r && within hour t r)) (within day now) rows,
  )

  day_events-kept :
      count (within day t) (day_events c now rows) ≤ length (day_events c t (purge t rows))
  day_events-kept = omega (
    arith,
    length-day_events c t (purge t rows),
    count-filter (λ r. within day t r && sent_to c r) (within (day + day) t) rows,
    count_mono (λ r. within day now r && (sent_to c r && within day t r))
        (λ r. within (day + day) t r && (within day t r && sent_to c r)) rows (λ r h. ground arith),
    count-filter (within day t) (sent_to c) (global_events now rows),
    count-sort_by at (λ r. sent_to c r && within day t r) (filter (within day now) rows),
    count-filter (λ r. sent_to c r && within day t r) (within day now) rows,
  )

  global_events-kept :
      count (within day t) (global_events now rows) ≤ length (global_events t (purge t rows))
  global_events-kept = omega (
    arith,
    length-global_events t (purge t rows),
    count-filter (within day t) (within (day + day) t) rows,
    count_mono (λ r. within day now r && within day t r)
        (λ r. within (day + day) t r && within day t r) rows (λ r h. ground arith),
    count-sort_by at (within day t) (filter (within day now) rows),
    count-filter (within day t) (within day now) rows,
  )

-- Some rule is full at `t`.
rules-Early :
    (l : Limits) (c : Bytes) (now t : ℕ) (rows : List Reservation) (d : Denial)
    → now < t
    → rules l c now rows ≡ ok (some d)
    → Early now t d
    → rules l c t (purge t rows) ≢ ok none
unfolding rules
rules-Early l c now t rows d passed h early room =
    let (a, first, h₁) =
      >>=-eq-ok (rule now recipient_hour (hour_events c now rows) l.recipient_hourly_max hour none)
        _ h in
    let (b, second, third) =
      >>=-eq-ok (rule now recipient_day (day_events c now rows) l.recipient_daily_max day a) _ h₁ in
    let global-sorted = sort_by-IsSortedBy at (filter (within day now) rows) in
    let day-sorted = filter-IsSortedBy at (sent_to c) (global_events now rows) global-sorted in
    let hour-sorted = filter-IsSortedBy at (within hour now) (day_events c now rows) day-sorted in
    let (hourly, daily, global) = rules-none l c t (purge t rows) room in
    let le : now ≤ t = omega arith in
    elim (rule-Early now t global_day (global_events now rows) l.global_daily_max day b d
      global-sorted passed third early) [
        | inr full ↦ absurd (omega (arith, global_events-kept c now t rows le))
        | inl e ↦
            elim (rule-Early now t recipient_day (day_events c now rows) l.recipient_daily_max day a
              d day-sorted passed (rw e at second) early) [
                | inr full ↦ absurd (omega (arith, day_events-kept c now t rows le))
                | inl e' ↦
                    elim (rule-Early now t recipient_hour (hour_events c now rows)
                      l.recipient_hourly_max hour none d hour-sorted passed (rw e' at first)
                      early) [
                        | inr full ↦ absurd (omega (arith, hour_events-kept c now t rows le))
                        | inl impossible ↦ cc
                      ]
              ]
      ]

pub reserve-allowed :
    (l : Limits) (hmac : String → Bytes) (email : String) (now : ℕ) (id id' : String)
    (rows : List Reservation)
    → (reserve l hmac email (some now) id rows).0 ≡ ok (allowed id')
    → rules l (hmac email) now (purge now rows) ≡ ok none
unfolding reserve decide
reserve-allowed l hmac email now id id' rows h = ground arith

-- The wait that a refusal names is not a second too long: at a later instant that is a second or more
-- before its end, the same address is still not allowed, as long as the table is as the refusal left it.
pub reserve_before_wait :
    (l : Limits) (hmac : String → Bytes) (email : String) (now t : ℕ) (id id' : String)
    (rows rows' : List Reservation) (d : Denial)
    → reserve l hmac email (some now) id rows ≡ (ok (denied d), rows')
    → now < t
    → t + 1000 ≤ now + d.retry_after_seconds * 1000
    → (reserve l hmac email (some t) id' rows').0 ≢ ok (allowed id')
reserve_before_wait l hmac email now t id id' rows rows' d refused passed early granted =
    let (found, left) = reserve-denied l hmac email now id rows rows' d refused in
    let full = rules-Early l (hmac email) now t (purge now rows) d passed found early in
    full (rw left at (reserve-allowed l hmac email t id' id' rows' granted))
