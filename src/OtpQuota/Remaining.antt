-- ===== src/OtpQuota/Remaining.antt =====
-- otp-send-quota.ts: `remaining` against `reserve`.
use wp_auto.Base.{
  ℕ, suc, ◌+◌, ◌-◌, ◌<◌, ◌≡◌, refl, true, String, Bytes, some, List, [], ◌∷◌, arith, count,
  count-append, ◌++◌, ◌-◌, ok, text_eq, bytes_eq,
}
use wp_auto.OtpQuota.{
  remaining, new_reservation, Limits, Reservation, allowed, day, within, purge, decide, reserve,
}
use wp_auto.OtpQuota.Early.{reserve-allowed}
use wp_auto.OtpQuota.Windows.{rules-none, length-global_events}

count-purge :
    (now : ℕ) (rows : List Reservation)
    → count (within day now) (purge now rows) ≡ count (within day now) rows
count-purge now [] = refl
count-purge now (r ∷ rs) = ground (arith, count-purge now rs)

-- An allowed call adds one row to the purged table.
allowed-rows :
    (l : Limits) (hmac : String → Bytes) (email : String) (now : ℕ) (id : String)
    (rows rows' : List Reservation)
    → reserve l hmac email (some now) id rows ≡ (ok (allowed id), rows')
    → rows' ≡ purge now rows ++ new_reservation id (hmac email) now ∷ []
unfolding reserve decide
allowed-rows l hmac email now id rows rows' h = ground arith

-- An allowed reservation takes exactly one from what remains of the day, so there was some left; with
-- nothing left none is allowed.
pub remaining-reserve :
    (l : Limits) (hmac : String → Bytes) (email : String) (now : ℕ) (id : String)
    (rows rows' : List Reservation)
    → reserve l hmac email (some now) id rows ≡ (ok (allowed id), rows')
    → (n : ℕ) × (remaining l hmac true now rows ≡ ok (suc n))
      × (remaining l hmac true now rows' ≡ ok n)
unfolding remaining
remaining-reserve l hmac email now id rows rows' h =
    let before = count (within day now) rows in
    let room =
      (rules-none l (hmac email) now (purge now rows)
        (reserve-allowed l hmac email now id id rows (ground arith))).2 in
    let fits : before < l.global_daily_max =
      omega (arith, length-global_events now (purge now rows), count-purge now rows) in
    let grown : count (within day now) rows' ≡ before + 1 =
      rw (allowed-rows l hmac email now id rows rows' h) (
        ground (
          arith,
          count-append (within day now) (purge now rows) (new_reservation id (hmac email) now ∷ []),
          count-purge now rows,
        )) in
    (l.global_daily_max - before - 1, ground arith, ground arith)
