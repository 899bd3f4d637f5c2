-- ===== src/OtpQuota/Lifecycle.antt =====
-- otp-send-quota.ts: the life of a reservation, from `reserve` over `claim` to `finish`.
use wp_auto.Base.{
  count-update_where, all-update_where, all-filter, ℕ, ◌≤◌, ◌≡◌, refl, String, Bytes, Bool, true,
  false, Option, none, some, List, [], ◌∷◌, ◌++◌, arith, all, count, any, count-append,
  count-filter-le, leb, Bool-cases, Result-cases, inl, inr, text_eq, ◌==◌,
}
use wp_auto.OtpQuota.{
  Limits, Reservation, DeliveryOutcome, within, rules, purge, new_reservation, has_id, decide,
  reserve, is_reserved, claimable, attempt, claim, finishable, settle, finish,
}

pub data Event : Type 0 where
  reserves : String → Option ℕ → String → Event
  claims : String → ℕ → Event
  finishes : String → DeliveryOutcome → Event

module _ (l : Limits) (hmac : String → Bytes) where
  -- The table after one call.
  abbrev pub step : List Reservation → Event → List Reservation
  step rows (reserves email clock id) = (reserve l hmac email clock id rows).1
  step rows (claims id now) = (claim id now rows).1
  step rows (finishes id o) = (finish id o rows).1

  unfoldable pub run : List Reservation → List Event → List Reservation
  run rows [] = rows
  run rows (e ∷ es) = run (step rows e) es

-- What a row may hold: an outcome only after an attempt, and no attempt before the reservation.
abbrev pub row_ok : Reservation → Bool
row_ok r = elim r.attempted_at [ none ↦ is_reserved r.outcome | some a ↦ leb r.reserved_at a ]

pub record IsConsistent (rows : List Reservation) : Type 0 where
  pub unique : (id : String) → count (has_id id) rows ≤ 1
  pub rows_ok : all row_ok rows ≡ true

all-append-one :
    (q : Reservation → Bool) (rows : List Reservation) (r : Reservation)
    → all q rows ≡ true
    → q r ≡ true
    → all q (rows ++ r ∷ []) ≡ true
all-append-one q [] r a h = rw h
all-append-one q (x ∷ xs) r a h = ground (arith, all-append-one q xs r)

count-any :
    (q : Reservation → Bool) (rows : List Reservation) → any q rows ≡ false → count q rows ≡ 0
count-any q [] h = refl
count-any q (r ∷ rs) h = ground (arith, count-any q rs)

claim-IsConsistent :
    (id : String) (now : ℕ) (rows : List Reservation)
    → IsConsistent rows
    → IsConsistent (claim id now rows).1
unfolding claim
claim-IsConsistent id now rows v = record {
  unique = λ j.
      rw (count-update_where (claimable id now) (has_id j) (attempt now) rows (λ r. refl))
        (v.unique j);
  rows_ok =
      all-update_where (claimable id now) row_ok (attempt now) rows (λ r p q. ground arith)
        v.rows_ok;
}

finish-IsConsistent :
    (id : String) (o : DeliveryOutcome) (rows : List Reservation)
    → IsConsistent rows
    → IsConsistent (finish id o rows).1
unfolding finish
finish-IsConsistent id o rows v = record {
  unique = λ j.
      rw (count-update_where (finishable id) (has_id j) (settle o) rows (λ r. refl)) (v.unique j);
  rows_ok =
      all-update_where (finishable id) row_ok (settle o) rows (λ r p q. ground arith) v.rows_ok;
}

purge-IsConsistent :
    (now : ℕ) (rows : List Reservation) → IsConsistent rows → IsConsistent (purge now rows)
purge-IsConsistent now rows v = record {
  unique = λ j. omega (arith, count-filter-le (has_id j) (within _ now) rows, v.unique j);
  rows_ok = all-filter (within _ now) row_ok rows v.rows_ok;
}

added_unique :
    (id : String) (c : Bytes) (now : ℕ) (rows : List Reservation)
    → ((j : String) → count (has_id j) rows ≤ 1)
    → any (has_id id) rows ≡ false
    → (j : String) → count (has_id j) (rows ++ new_reservation id c now ∷ []) ≤ 1
added_unique id c now rows unique fresh j = elim (Bool-cases (id == j)) [
  | inl same ↦
      let e : id ≡ j = (text_eq.same_iff id j).0 same in
      let none_yet : count (has_id j) rows ≡ 0 = rw (← e) (count-any (has_id id) rows fresh) in
      ground (arith, count-append (has_id j) rows (new_reservation id c now ∷ []))
  | inr other ↦
      ground (arith, count-append (has_id j) rows (new_reservation id c now ∷ []), unique j)
]

added-IsConsistent :
    (id : String) (c : Bytes) (now : ℕ) (rows : List Reservation)
    → IsConsistent rows
    → any (has_id id) rows ≡ false
    → IsConsistent (rows ++ new_reservation id c now ∷ [])
added-IsConsistent id c now rows v fresh = record {
  unique = λ j. added_unique id c now rows v.unique fresh j;
  rows_ok = all-append-one row_ok rows (new_reservation id c now) v.rows_ok refl;
}

-- The three tables that `reserve` can leave.
pub reserve_cases {ℓ} :
    (P : List Reservation → Type ℓ) (l : Limits) (hmac : String → Bytes) (email : String)
    (clock : Option ℕ) (id : String) (rows : List Reservation)
    → P rows
    → ((now : ℕ) → P (purge now rows))
    → ((now : ℕ)
        → any (has_id id) (purge now rows) ≡ false
        → P (purge now rows ++ new_reservation id (hmac email) now ∷ []))
    → P (reserve l hmac email clock id rows).1
unfolding reserve decide
reserve_cases P l hmac email none id rows same purged added = same
reserve_cases P l hmac email (some now) id rows same purged added =
    elim (Result-cases (rules l (hmac email) now (purge now rows))) [
      | inr (e, failed) ↦ rw failed same
      | inl (some d, found) ↦ rw found (purged now)
      | inl (none, found) ↦ elim (Bool-cases (any (has_id id) (purge now rows))) [
        | inl taken ↦ rw (found, taken) same
        | inr fresh ↦ rw (found, fresh) (added now fresh)
      ]
    ]

-- Every call keeps the identifiers unique, and a delivery is recorded only on a row that was claimed, no
-- earlier than it was reserved.
pub step-IsConsistent :
    (l : Limits) (hmac : String → Bytes) (rows : List Reservation) (e : Event)
    → IsConsistent rows
    → IsConsistent (step l hmac rows e)
step-IsConsistent l hmac rows (reserves email clock id) v =
    reserve_cases IsConsistent l hmac email clock id rows v (λ now. purge-IsConsistent now rows v)
      λ now fresh.
        added-IsConsistent id (hmac email) now (purge now rows) (purge-IsConsistent now rows v)
          fresh
step-IsConsistent l hmac rows (claims id now) v = claim-IsConsistent id now rows v
step-IsConsistent l hmac rows (finishes id o) v = finish-IsConsistent id o rows v
