-- ===== src/OtpQuota/Retry.antt =====
-- otp-send-quota.ts: the waiting time that a refusal names, `retryAfterSeconds`.
use wp_auto.Base.{
  ℕ, zero, suc, ◌+◌, ◌-◌, ◌*◌, ◌≤◌, ◌<◌, ◌≡◌, String, Bytes, false, ◌&&◌, Option, none, some, List,
  [], ◌∷◌, arith, length, get_elem?, count-le-length, any-filter, AtLeast-get_elem?, filter, count,
  any, count-filter, count-filter-le, IsSortedBy, sort_by-IsSortedBy, filter-IsSortedBy, count_mono,
  count-sort_by, ltb, ok, Bool-cases, Option-cases, inl, inr, text_eq, bytes_eq, >>=-eq-ok,
}
use wp_auto.OtpQuota.{
  Limits, Dimension, recipient_hour, recipient_day, global_day, Reservation, allowed, denied,
  Denial, hour, day, within, sent_to, retry_after, later, global_events, day_events, hour_events,
  rule, rules, purge, has_id, decide, reserve,
}
use wp_auto.OtpQuota.Windows.{length-global_events, length-day_events, length-hour_events}
use wp_auto.OtpQuota.Validation.{IsValid}

abbrev pub at : Reservation → ℕ
at r = r.reserved_at

-- In a sorted list, once the entry at `i` has left its window, so have all before it.
count-after :
    (w t i : ℕ) (events : List Reservation) (x : Reservation)
    → IsSortedBy at events
    → get_elem? events i ≡ some x
    → x.reserved_at + w ≤ t
    → count (within w t) events + suc i ≤ length events
count-after w t i [] x s e h = cc
count-after w t zero (y ∷ ys) x s e h = ground (arith, count-le-length (within w t) ys)
count-after w t (suc i) (y ∷ ys) x (a, s) e h =
    ground (arith, count-after w t i ys x s e h, AtLeast-get_elem? at (at y) i ys x a e)

-- The waiting time of a denial, if there is one, is over by `t`.
abbrev OverBy : ℕ → ℕ → Option Denial → Type 0
OverBy now t none = Unit
OverBy now t (some d) = now + d.retry_after_seconds * 1000 ≤ t

later-OverBy :
    (now t : ℕ) (found : Option Denial) (d : Denial)
    → OverBy now t (later found d)
    → OverBy now t found × (now + d.retry_after_seconds * 1000 ≤ t)
later-OverBy now t none d h = (tt, h)
later-OverBy now t (some old) d h = ground arith

retry_after-over :
    (window now t : ℕ) (x : Reservation)
    → now + retry_after window now x * 1000 ≤ t
    → x.reserved_at + window ≤ t
retry_after-over window now t x h = omega arith

abbrev pub wait : Dimension → ℕ → ℕ → Reservation → Denial
wait d w now x = record { dimension = d; retry_after_seconds = retry_after w now x }

-- What a rule answers when its list is full.
pub rule-full :
    (now : ℕ) (d : Dimension) (events : List Reservation) (most w : ℕ) (found : Option Denial)
    (x : Reservation)
    → ltb (length events) most ≡ false
    → get_elem? events (length events - most) ≡ some x
    → rule now d events most w found ≡ ok (later found (wait d w now x))
unfolding rule
rule-full now d events most w found x full e = rw (full, e)

-- By then a rule has room again, and the waits found before it are over too.
rule-OverBy :
    (now t : ℕ) (d : Dimension) (events : List Reservation) (most w : ℕ)
    (found found' : Option Denial)
    → IsSortedBy at events
    → 1 ≤ most
    → rule now d events most w found ≡ ok found'
    → OverBy now t found'
    → OverBy now t found × (count (within w t) events < most)
unfolding rule
rule-OverBy now t d events most w found found' s m h over =
    elim (Bool-cases (ltb (length events) most)) [
      | inl room ↦
          let same : found ≡ found' = ground arith in
          (rw same over, ground (arith, count-le-length (within w t) events))
      | inr full ↦ elim (Option-cases (get_elem? events (length events - most))) [
        | inl e ↦ cc (rw (full, e, rule) at h)
        | inr (x, e) ↦
            let same : found' ≡ later found (wait d w now x) =
              cc (h, rule-full now d events most w found x full e) in
            let (before, here) = later-OverBy now t found (wait d w now x) (rw same at over) in
            let gone =
              count-after w t (length events - most) events x s e
                (retry_after-over w now t x here) in
            (before, ground arith)
      ]
    ]

-- A rule that has room leaves what was found.
rule-room :
    (now : ℕ) (d : Dimension) (events : List Reservation) (most w : ℕ) (found : Option Denial)
    → length events < most
    → rule now d events most w found ≡ ok found
unfolding rule
rule-room now d events most w found h = ground arith

rules-room :
    (l : Limits) (c : Bytes) (now : ℕ) (rows : List Reservation)
    → length (hour_events c now rows) < l.recipient_hourly_max
    → length (day_events c now rows) < l.recipient_daily_max
    → length (global_events now rows) < l.global_daily_max
    → rules l c now rows ≡ ok none
unfolding rules
rules-room l c now rows h d g = rw (
  rule-room now recipient_hour (hour_events c now rows) l.recipient_hourly_max hour none h,
  rule-room now recipient_day (day_events c now rows) l.recipient_daily_max day none d,
  rule-room now global_day (global_events now rows) l.global_daily_max day none g,
)

module _ (l : Limits) (c : Bytes) (now t : ℕ) (rows : List Reservation) (passed : now ≤ t) where
  -- What is counted at `t` was counted at `now`, and is in its window still.
  hour_events-later :
      length (hour_events c t (purge t rows)) ≤ count (within hour t) (hour_events c now rows)
  hour_events-later = omega (
    arith,
    length-hour_events c t (purge t rows),
    count-filter-le (λ r. within day t r && (sent_to c r && within hour t r)) (within (day + day) t)
        rows,
    count_mono (λ r. within day t r && (sent_to c r && within hour t r))
        (λ r. within day now r && (sent_to c r && (within hour now r && within hour t r))) rows
        (λ r h. ground arith),
    count-filter (within hour t) (within hour now) (day_events c now rows),
    count-filter (λ r. within hour now r && within hour t r) (sent_to c) (global_events now rows),
    count-sort_by at (λ r. sent_to c r && (within hour now r && within hour t r))
        (filter (within day now) rows),
    count-filter (λ r. sent_to c r && (within hour now r && within hour t r)) (within day now) rows,
  )

  day_events-later :
      length (day_events c t (purge t rows)) ≤ count (within day t) (day_events c now rows)
  day_events-later = omega (
    arith,
    length-day_events c t (purge t rows),
    count-filter-le (λ r. within day t r && sent_to c r) (within (day + day) t) rows,
    count_mono (λ r. within day t r && sent_to c r)
        (λ r. within day now r && (sent_to c r && within day t r)) rows (λ r h. ground arith),
    count-filter (within day t) (sent_to c) (global_events now rows),
    count-sort_by at (λ r. sent_to c r && within day t r) (filter (within day now) rows),
    count-filter (λ r. sent_to c r && within day t r) (within day now) rows,
  )

  global_events-later :
      length (global_events t (purge t rows)) ≤ count (within day t) (global_events now rows)
  global_events-later = omega (
    arith,
    length-global_events t (purge t rows),
    count-filter-le (within day t) (within (day + day) t) rows,
    count_mono (within day t) (λ r. within day now r && within day t r) rows (λ r h. ground arith),
    count-sort_by at (within day t) (filter (within day now) rows),
    count-filter (within day t) (within day now) rows,
  )

  rules-later :
      (found : Option Denial)
      → IsValid l
      → rules l c now rows ≡ ok found
      → OverBy now t found
      → rules l c t (purge t rows) ≡ ok none
  unfolding rules
  rules-later found v h over =
      let (a, first, h₁) =
        >>=-eq-ok
          (rule now recipient_hour (hour_events c now rows) l.recipient_hourly_max hour none) _ h in
      let (b, second, third) =
        >>=-eq-ok (rule now recipient_day (day_events c now rows) l.recipient_daily_max day a) _
          h₁ in
      let global-sorted = sort_by-IsSortedBy at (filter (within day now) rows) in
      let day-sorted = filter-IsSortedBy at (sent_to c) (global_events now rows) global-sorted in
      let hour-sorted = filter-IsSortedBy at (within hour now) (day_events c now rows) day-sorted in
      let (over-b, global) =
        rule-OverBy now t global_day (global_events now rows) l.global_daily_max day b found
          global-sorted v.overall.0 third over in
      let (over-a, daily) =
        rule-OverBy now t recipient_day (day_events c now rows) l.recipient_daily_max day a b
          day-sorted v.daily.0 second over-b in
      let (_, hourly) =
        rule-OverBy now t recipient_hour (hour_events c now rows) l.recipient_hourly_max hour none a
          hour-sorted v.hourly.0 first over-a in
      rules-room l c t (purge t rows) (omega (arith, hour_events-later))
        (omega (arith, day_events-later)) (omega (arith, global_events-later))

-- A refusal leaves the purged rows, and comes from the rules.
pub reserve-denied :
    (l : Limits) (hmac : String → Bytes) (email : String) (now : ℕ) (id : String)
    (rows rows' : List Reservation) (d : Denial)
    → reserve l hmac email (some now) id rows ≡ (ok (denied d), rows')
    → (rules l (hmac email) now (purge now rows) ≡ ok (some d)) × (rows' ≡ purge now rows)
unfolding reserve decide
reserve-denied l hmac email now id rows rows' d h = ground arith

-- A refusal is exact about the wait: when the seconds that it names have passed and nobody else has
-- reserved meanwhile, the same address is allowed, under any identifier that is not taken.
pub reserve_after_wait :
    (l : Limits) (hmac : String → Bytes) (email : String) (now t : ℕ) (id id' : String)
    (rows rows' : List Reservation) (d : Denial)
    → IsValid l
    → reserve l hmac email (some now) id rows ≡ (ok (denied d), rows')
    → now + d.retry_after_seconds * 1000 ≤ t
    → any (has_id id') rows' ≡ false
    → (reserve l hmac email (some t) id' rows').0 ≡ ok (allowed id')
unfolding reserve decide
reserve_after_wait l hmac email now t id id' rows rows' d v refused over fresh =
    let (found, left) = reserve-denied l hmac email now id rows rows' d refused in
    let passed : now ≤ t = omega arith in
    let room = rules-later l (hmac email) now t (purge now rows) passed (some d) v found over in
    let room' : rules l (hmac email) t (purge t rows') ≡ ok none = rw left room in
    rw (room', any-filter (has_id id') (within (day + day) t) rows' fresh)
