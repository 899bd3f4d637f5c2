-- ===== src/OtpQuota/Once.antt =====
-- otp-send-quota.ts: a reservation is claimed at most once and finished at most once.
use wp_auto.Base.{
  update_where, count-update_le, ℕ, ◌+◌, ◌≤◌, ◌≡◌, String, Bytes, Bool, true, false, ◌&&◌, List, [],
  ◌∷◌, ◌++◌, arith, count, count-append, count-filter-le, count_mono, ok, err, Bool-cases, inl, inr,
  text_eq, ◌==◌,
}
use wp_auto.OtpQuota.{
  Limits, Reservation, outcome_not_saved, DeliveryOutcome, within, purge, new_reservation, has_id,
  is_none, is_reserved, claimable, attempt, claim, finishable, settle, finish,
}
use wp_auto.OtpQuota.Lifecycle.{
  Event, reserves, claims, finishes, step, run, IsConsistent, reserve_cases,
}

-- The event reserves no row under this identifier.
abbrev pub Spares : String → Event → Type 0
Spares id (reserves email clock j) = (j == id) ≡ false
Spares id (claims j now) = Unit
Spares id (finishes j o) = Unit

abbrev pub AllSpare : String → List Event → Type 0
AllSpare id [] = Unit
AllSpare id (e ∷ es) = Spares id e × AllSpare id es

-- What no call can bring back for `id`: a test on rows that fails for other identifiers, and that
-- neither an attempt nor a delivery makes true.
record IsSpent (id : String) (q : Reservation → Bool) : Type 0 where
  owned : (r : Reservation) → q r ≡ true → has_id id r ≡ true
  attempted : (now : ℕ) (r : Reservation) → q (attempt now r) ≡ true → q r ≡ true
  settled : (o : DeliveryOutcome) (r : Reservation) → q (settle o r) ≡ true → q r ≡ true

module _ (l : Limits) (hmac : String → Bytes) (id : String) (q : Reservation → Bool)
    (spent : IsSpent id q) where
  count-added :
      (c : Bytes) (j : String) (now : ℕ) (rows : List Reservation)
      → (j == id) ≡ false
      → count q rows ≡ 0
      → count q (rows ++ new_reservation j c now ∷ []) ≡ 0
  count-added c j now rows s z = elim (Bool-cases (q (new_reservation j c now))) [
    | inl e ↦ cc (s, spent.owned (new_reservation j c now) e)
    | inr e ↦ ground (arith, count-append q rows (new_reservation j c now ∷ []))
  ]

  step-spent :
      (rows : List Reservation) (e : Event)
      → Spares id e
      → count q rows ≡ 0
      → count q (step l hmac rows e) ≡ 0
  unfolding claim finish
  step-spent rows (reserves email clock j) s z =
      reserve_cases (λ t. count q t ≡ 0) l hmac email clock j rows z
        (λ now. omega (arith, count-filter-le q (within _ now) rows))
        (λ now fresh.
          count-added (hmac email) j now (purge now rows) s
            (omega (arith, count-filter-le q (within _ now) rows)))
  step-spent rows (claims j now) s z =
      omega (arith, count-update_le (claimable j now) q (attempt now) rows (spent.attempted now))
  step-spent rows (finishes j o) s z =
      omega (arith, count-update_le (finishable j) q (settle o) rows (spent.settled o))

  run-spent :
      (rows : List Reservation) (es : List Event)
      → AllSpare id es
      → count q rows ≡ 0
      → count q (run l hmac rows es) ≡ 0
  unfolding run
  run-spent rows [] s z = z
  run-spent rows (e ∷ es) (s, ss) z = run-spent (step l hmac rows e) es ss (step-spent rows e s z)

-- A row under this identifier that nobody has claimed.
abbrev unclaimed : String → Reservation → Bool
unclaimed id r = has_id id r && is_none r.attempted_at

-- A row under this identifier with no outcome.
abbrev unsettled : String → Reservation → Bool
unsettled id r = has_id id r && is_reserved r.outcome

-- An UPDATE that falsifies `q` where it applies leaves the other rows of the identifier.
count-update_spent :
    (id : String) (p q : Reservation → Bool) (f : Reservation → Reservation)
    (rows : List Reservation)
    → ((r : Reservation) → p r ≡ true → (has_id id r ≡ true) × (q (f r) ≡ false))
    → ((r : Reservation) → q r ≡ true → has_id id r ≡ true)
    → count q (update_where p f rows) + count p rows ≤ count (has_id id) rows
unfolding update_where
count-update_spent id p q f [] h k = omega arith
count-update_spent id p q f (r ∷ rs) h k =
    ground (arith, count-update_spent id p q f rs h k, h r, k r)

unclaimed-IsSpent : (id : String) → IsSpent id (unclaimed id)
unclaimed-IsSpent id = record {
  owned = λ r h. ground arith;
  attempted = λ now r h. ground arith;
  settled = λ o r h. h;
}

unsettled-IsSpent : (id : String) → IsSpent id (unsettled id)
unsettled-IsSpent id = record {
  owned = λ r h. ground arith;
  attempted = λ now r h. h;
  settled = λ o r h. ground arith;
}

claim-unclaimed :
    (id : String) (now : ℕ) (rows : List Reservation)
    → count (has_id id) rows ≤ 1
    → (claim id now rows).0 ≡ true
    → count (unclaimed id) (claim id now rows).1 ≡ 0
unfolding claim
claim-unclaimed id now rows u h = ground (
  arith,
  count-update_spent id (claimable id now) (unclaimed id) (attempt now) rows (λ r p. ground arith)
      (λ r q. ground arith),
)

finish-unsettled :
    (id : String) (o : DeliveryOutcome) (rows : List Reservation)
    → count (has_id id) rows ≤ 1
    → (finish id o rows).0 ≡ ok tt
    → count (unsettled id) (finish id o rows).1 ≡ 0
unfolding finish
finish-unsettled id o rows u h = ground (
  arith,
  count-update_spent id (finishable id) (unsettled id) (settle o) rows (λ r p. ground arith)
      (λ r q. ground arith),
)

-- A reservation is claimed at most once: after a claim that succeeds, and any further calls that do not
-- reserve its identifier anew, every claim of it is refused.
pub claim_once :
    (l : Limits) (hmac : String → Bytes) (id : String) (now later : ℕ) (rows : List Reservation)
    (es : List Event)
    → IsConsistent rows
    → (claim id now rows).0 ≡ true
    → AllSpare id es
    → (claim id later (run l hmac (claim id now rows).1 es)).0 ≡ false
unfolding claim
claim_once l hmac id now later rows es v h s =
    let rows' = run l hmac (claim id now rows).1 es in
    let z : count (unclaimed id) rows' ≡ 0 =
      run-spent l hmac id (unclaimed id) (unclaimed-IsSpent id) (claim id now rows).1 es s
        (claim-unclaimed id now rows (v.unique id) h) in
    ground (arith, z, count_mono (claimable id later) (unclaimed id) rows' (λ r p. ground arith))

-- The outcome of a reservation is recorded at most once: after a call of `finish` that succeeds, and any further calls
-- that do not reserve its identifier anew, `finish` reports an error.
pub finish_once :
    (l : Limits) (hmac : String → Bytes) (id : String) (o o' : DeliveryOutcome)
    (rows : List Reservation) (es : List Event)
    → IsConsistent rows
    → (finish id o rows).0 ≡ ok tt
    → AllSpare id es
    → (finish id o' (run l hmac (finish id o rows).1 es)).0 ≡ err outcome_not_saved
unfolding finish
finish_once l hmac id o o' rows es v h s =
    let rows' = run l hmac (finish id o rows).1 es in
    let z : count (unsettled id) rows' ≡ 0 =
      run-spent l hmac id (unsettled id) (unsettled-IsSpent id) (finish id o rows).1 es s
        (finish-unsettled id o rows (v.unique id) h) in
    ground (arith, z, count_mono (finishable id) (unsettled id) rows' (λ r p. ground arith))
