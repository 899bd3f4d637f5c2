-- ===== src/OtpQuota/Windows.antt =====
-- otp-send-quota.ts: what `reserve` promises, that no window of time holds more than its limit.
use wp_auto.Base.{
  ℕ, ◌+◌, ◌≤◌, ◌<◌, ◌≡◌, ◌∙◌, String, Bytes, Bool, true, ◌&&◌, Option, none, some, List, [], ◌∷◌,
  ◌++◌, arith, length, filter, count, any, count-append, count-filter, count-filter-le, count_mono,
  length-filter, count-sort_by, length-sort_by, ltb, leb, ok, Bool-cases, Result-cases, inl, inr,
  text_eq, bytes_eq, >>=-eq-ok, commit,
}
use wp_auto.OtpQuota.{
  Limits, Dimension, Reservation, Denial, hour, day, within, sent_to, global_events, day_events,
  hour_events, rule, rules, purge, new_reservation, has_id, decide, hide, reserve,
}

-- The rows of a window of time that starts at `start`.
abbrev pub in_window : ℕ → ℕ → Reservation → Bool
in_window start width r = leb start r.reserved_at && ltb r.reserved_at (start + width)

abbrev pub sent_in : Bytes → ℕ → ℕ → Reservation → Bool
sent_in recipient start width r = sent_to recipient r && in_window start width r

-- No hour and no day, wherever it starts, holds more reservations than its limit.
pub record IsWithin (l : Limits) (rows : List Reservation) : Type 0 where
  pub hourly :
      (recipient : Bytes) (start : ℕ)
      → count (sent_in recipient start hour) rows ≤ l.recipient_hourly_max
  pub daily :
      (recipient : Bytes) (start : ℕ)
      → count (sent_in recipient start day) rows ≤ l.recipient_daily_max
  pub overall : (start : ℕ) → count (in_window start day) rows ≤ l.global_daily_max

pub purge-IsWithin :
    (l : Limits) (now : ℕ) (rows : List Reservation) → IsWithin l rows → IsWithin l (purge now rows)
purge-IsWithin l now rows v = record {
  hourly = λ c s.
      omega (arith, count-filter-le (sent_in c s hour) (within (day + day) now) rows, v.hourly c s);
  daily = λ c s.
      omega (arith, count-filter-le (sent_in c s day) (within (day + day) now) rows, v.daily c s);
  overall = λ s.
      omega (arith, count-filter-le (in_window s day) (within (day + day) now) rows, v.overall s);
}

-- The sizes of the lists that the rules read, as counts of rows.
pub length-global_events :
    (now : ℕ) (rows : List Reservation)
    → length (global_events now rows) ≡ count (within day now) rows
length-global_events now rows =
    length-sort_by (λ r. r.reserved_at) (filter (within day now) rows)
    ∙ length-filter (within day now) rows

pub length-day_events :
    (c : Bytes) (now : ℕ) (rows : List Reservation)
    → length (day_events c now rows) ≡ count (λ r. within day now r && sent_to c r) rows
length-day_events c now rows =
    length-filter (sent_to c) (global_events now rows)
    ∙ count-sort_by (λ r. r.reserved_at) (sent_to c) (filter (within day now) rows)
    ∙ count-filter (sent_to c) (within day now) rows

pub length-hour_events :
    (c : Bytes) (now : ℕ) (rows : List Reservation)
    → length (hour_events c now rows)
      ≡ count (λ r. within day now r && (sent_to c r && within hour now r)) rows
length-hour_events c now rows =
    length-filter (within hour now) (day_events c now rows)
    ∙ count-filter (within hour now) (sent_to c) (global_events now rows)
    ∙ count-sort_by (λ r. r.reserved_at) (λ r. sent_to c r && within hour now r)
        (filter (within day now) rows)
    ∙ count-filter (λ r. sent_to c r && within hour now r) (within day now) rows

-- A rule that leaves no denial found room.
rule-none :
    (now : ℕ) (d : Dimension) (events : List Reservation) (most window : ℕ) (found : Option Denial)
    → rule now d events most window found ≡ ok none
    → (found ≡ none) × (length events < most)
unfolding rule
rule-none now d events most window none h = ground arith
rule-none now d events most window (some o) h = ground arith

pub rules-none :
    (l : Limits) (c : Bytes) (now : ℕ) (rows : List Reservation)
    → rules l c now rows ≡ ok none
    → (length (hour_events c now rows) < l.recipient_hourly_max)
      × (length (day_events c now rows) < l.recipient_daily_max)
      × (length (global_events now rows) < l.global_daily_max)
unfolding rules
rules-none l c now rows h =
    let (a, first, h₁) = >>=-eq-ok (rule now _ (hour_events c now rows) _ hour none) _ h in
    let (b, second, h₂) = >>=-eq-ok (rule now _ (day_events c now rows) _ day a) _ h₁ in
    let (b-none, global) = rule-none now _ _ _ _ b h₂ in
    let (a-none, daily) = rule-none now _ _ _ _ a (rw b-none at second) in
    let (_, hourly) = rule-none now _ _ _ _ none (rw a-none at first) in (hourly, daily, global)

-- One more row keeps a count within its limit, if there was room where the row is counted.
count-one_more :
    (p : Reservation → Bool) (rows : List Reservation) (new : Reservation) (most : ℕ)
    → count p rows ≤ most
    → (p new ≡ true → count p rows < most)
    → count p (rows ++ new ∷ []) ≤ most
count-one_more p rows new most h room = ground (arith, count-append p rows (new ∷ []))

module _ (l : Limits) (c : Bytes) (now : ℕ) (id : String) (rows : List Reservation)
    (v : IsWithin l rows) (room : rules l c now rows ≡ ok none) where
  -- A window that holds the present instant lies in what the rules counted.
  new_hourly :
      (d : Bytes) (start : ℕ)
      → sent_in d start hour (new_reservation id c now) ≡ true
      → count (sent_in d start hour) rows < l.recipient_hourly_max
  new_hourly d start h =
      let same : c ≡ d = (bytes_eq.same_iff c d).0 (ground arith) in
      omega (
        arith,
        (rules-none l c now rows room).0,
        length-hour_events c now rows,
        count_mono (sent_in d start hour)
            (λ r. within day now r && (sent_to c r && within hour now r)) rows
            (λ r q. rw same (ground arith)),
      )

  new_daily :
      (d : Bytes) (start : ℕ)
      → sent_in d start day (new_reservation id c now) ≡ true
      → count (sent_in d start day) rows < l.recipient_daily_max
  new_daily d start h =
      let same : c ≡ d = (bytes_eq.same_iff c d).0 (ground arith) in
      omega (
        arith,
        (rules-none l c now rows room).1,
        length-day_events c now rows,
        count_mono (sent_in d start day) (λ r. within day now r && sent_to c r) rows
            (λ r q. rw same (ground arith)),
      )

  new_overall :
      (start : ℕ)
      → in_window start day (new_reservation id c now) ≡ true
      → count (in_window start day) rows < l.global_daily_max
  new_overall start h = omega (
    arith,
    (rules-none l c now rows room).2,
    length-global_events now rows,
    count_mono (in_window start day) (within day now) rows (λ r q. ground arith),
  )

  new_reservation-IsWithin : IsWithin l (rows ++ new_reservation id c now ∷ [])
  new_reservation-IsWithin = record {
    hourly = λ d s. count-one_more (sent_in d s hour) rows _ _ (v.hourly d s) (new_hourly d s);
    daily = λ d s. count-one_more (sent_in d s day) rows _ _ (v.daily d s) (new_daily d s);
    overall = λ s. count-one_more (in_window s day) rows _ _ (v.overall s) (new_overall s);
  }

-- What the transaction leaves, by what the rules found.
reserve-IsWithin_found :
    (l : Limits) (c : Bytes) (now : ℕ) (id : String) (rows old : List Reservation)
    (found : Option Denial)
    → IsWithin l rows
    → IsWithin l old
    → rules l c now rows ≡ ok found
    → IsWithin l (commit old (hide (decide l c now id rows found))).1
unfolding decide
reserve-IsWithin_found l c now id rows old (some d) v w r = v
reserve-IsWithin_found l c now id rows old none v w r = elim (Bool-cases (any (has_id id) rows)) [
  | inl taken ↦ rw (taken, decide) w
  | inr fresh ↦ rw (fresh, decide) (new_reservation-IsWithin l c now id rows v r)
]

-- Whatever the clock says and however the call ends, `reserve` keeps every hour and every day, wherever
-- it starts, within the limits of the recipient and the overall limit.
pub reserve-IsWithin :
    (l : Limits) (hmac : String → Bytes) (email : String) (clock : Option ℕ) (id : String)
    (rows : List Reservation)
    → IsWithin l rows
    → IsWithin l (reserve l hmac email clock id rows).1
unfolding reserve
reserve-IsWithin l hmac email none id rows v = v
reserve-IsWithin l hmac email (some now) id rows v =
    elim (Result-cases (rules l (hmac email) now (purge now rows))) [
      | inl (found, e) ↦ rw e (
          reserve-IsWithin_found l (hmac email) now id (purge now rows) rows found
            (purge-IsWithin l now rows v) v e)
      | inr (e, failed) ↦ rw failed v
    ]
