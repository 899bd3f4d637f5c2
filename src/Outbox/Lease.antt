-- ===== src/Outbox/Lease.antt =====
-- packages/database/src/index.ts, `PostgresRevocationOutbox.claim`: a claim is a lease of two minutes.
use wp_auto.Base.{
  ℕ, ◌+◌, ◌≤◌, String, ◌≡◌, refl, inl, inr, Bool, true, false, ◌&&◌, ◌||◌, List, [], ◌∷◌, map,
  arith, leb, Bool-cases, ◌==◌, nat_eq, text_eq, bytes_eq, ==_refl, length, filter, count, all, any,
}
use mathlib.Core.List.{Memᴰ}
use wp_auto.Base.{
  sort_by, update_where, count-update_where, all-update_where, count_mono, length-filter,
  count-false, count-or,
}
use wp_auto.Base.Members.{
  any-sort_by, any-take, any-filter_and, any-member, length-take-le, same-member,
}
use wp_auto.Outbox.{
  Row, is_none, ready, bounded_limit, has_id, candidates, chosen, lease, claim, deliver,
  mark_delivered, defer, reschedule, open_row,
}

abbrev pub IsUnique : List Row → Type 0
IsUnique rows = (id : ℕ) → count (has_id id) rows ≤ 1

-- A claim returned a row under this identifier.
abbrev pub is_claimed : ℕ → List Row × List Row → Bool
is_claimed id (records, rows) = any (has_id id) records

any-map-lease :
    (id now : ℕ) (rows : List Row) → any (has_id id) (map (lease now) rows) ≡ any (has_id id) rows
any-map-lease id now [] = refl
any-map-lease id now (r ∷ rs) = ground (arith, any-map-lease id now rs)

any-chosen :
    (id : ℕ) (cs rows : List Row)
    → any (has_id id) (filter (chosen cs) rows) ≡ true
    → any (has_id id) cs ≡ true
any-chosen id cs [] h = cc
any-chosen id cs (r ∷ rs) h = elim (Bool-cases (chosen cs r && has_id id r)) [
  | inl e ↦
      let same : r.id ≡ id = ground arith in
      let picked : any (has_id r.id) cs ≡ true = ground arith in rw same at picked
  | inr e ↦ any-chosen id cs rs (ground arith)
]

any-candidates :
    (held : Row → Bool) (limit now id : ℕ) (rows : List Row)
    → any (has_id id) (candidates held limit now rows) ≡ true
    → any (λ r. has_id id r && ready held now r) rows ≡ true
unfolding candidates
any-candidates held limit now id rows h = any-filter_and (has_id id) (ready held now) rows (
    rw (any-sort_by (λ r. r.id) (has_id id) (filter (ready held now) rows)) at
      (any-take (has_id id) (bounded_limit limit) _ h))

-- A claimed identifier is one of the candidates', and the other way round where its row is there.
claimed-candidate :
    (held : Row → Bool) (limit now id : ℕ) (rows : List Row)
    → is_claimed id (claim held limit now rows) ≡ true
    → any (has_id id) (candidates held limit now rows) ≡ true
unfolding claim
claimed-candidate held limit now id rows h =
    any-chosen id (candidates held limit now rows) rows
      (rw (any-map-lease id now (filter (chosen (candidates held limit now rows)) rows)) at h)

-- The rows of a candidate are all locked from now on.
locked-after :
    (cs : List Row) (held : Row → Bool) (now later id : ℕ) (rows : List Row)
    → later ≤ now + 120000
    → any (has_id id) cs ≡ true
    → any (λ r. has_id id r && ready held later r) (update_where (chosen cs) (lease now) rows)
      ≡ false
unfolding update_where
locked-after cs held now later id [] h k = refl
locked-after cs held now later id (r ∷ rs) h k = elim (Bool-cases (has_id id r)) [
  | inl e ↦
      let same : r.id ≡ id = ground arith in
      let picked : chosen cs r ≡ true = rw same k in
      ground (arith, locked-after cs held now later id rs h k)
  | inr e ↦ ground (arith, locked-after cs held now later id rs h k)
]

-- While a lease lasts nobody else gets the event: of two claims at most two minutes apart, by whatever
-- transactions and with whatever limits, the second returns no identifier that the first returned.
pub claim_exclusive :
    (held held' : Row → Bool) (limit limit' now later id : ℕ) (rows : List Row)
    → later ≤ now + 120000
    → is_claimed id (claim held limit now rows) ≡ true
    → is_claimed id (claim held' limit' later (claim held limit now rows).1) ≡ false
unfolding claim
claim_exclusive held held' limit limit' now later id rows h k =
    elim (Bool-cases (is_claimed id (claim held' limit' later (claim held limit now rows).1))) [
      | inr e ↦ e
      | inl e ↦
          let again =
            any-candidates held' limit' later id (claim held limit now rows).1
              (claimed-candidate held' limit' later id _ e) in
          cc (
            again,
            locked-after (candidates held limit now rows) held' now later id rows h
                (claimed-candidate held limit now id rows k),
          )
    ]

-- With unique identifiers the row that a claim takes is itself ready.
pub chosen-ready :
    (held : Row → Bool) (limit now : ℕ) (rows : List Row)
    → IsUnique rows
    → (r : Row) → Memᴰ r rows
    → chosen (candidates held limit now rows) r ≡ true
    → ready held now r ≡ true
chosen-ready held limit now rows u r m h =
    let (x, n, p) =
      any-member (λ x. has_id r.id x && ready held now x) rows
        (any-candidates held limit now r.id rows h) in
    let same : x ≡ r = same-member (has_id r.id) rows (u r.id) n m (ground arith) (==_refl r.id) in
    let there : ready held now x ≡ true = ground arith in rw same at there

length-map-lease : (now : ℕ) (rows : List Row) → length (map (lease now) rows) ≡ length rows
length-map-lease now [] = refl
length-map-lease now (r ∷ rs) = omega (arith, length-map-lease now rs)

count-chosen-le : (cs rows : List Row) → IsUnique rows → count (chosen cs) rows ≤ length cs
count-chosen-le [] rows u = omega (arith, count-false rows)
count-chosen-le (c ∷ cs) rows u = omega (
  arith,
  count-or (λ r. c.id == r.id) (chosen cs) rows,
  count_mono (λ r. c.id == r.id) (has_id c.id) rows (λ r h. ground arith),
  u c.id,
  count-chosen-le cs rows u,
)

-- A claim returns at most as many events as it was asked for, and never more than a hundred.
pub length-claim :
    (held : Row → Bool) (limit now : ℕ) (rows : List Row)
    → IsUnique rows
    → length (claim held limit now rows).0 ≤ bounded_limit limit
unfolding claim candidates
length-claim held limit now rows u =
    let cs = candidates held limit now rows in
    omega (
      arith,
      length-map-lease now (filter (chosen cs) rows),
      length-filter (chosen cs) rows,
      count-chosen-le cs rows u,
      length-take-le (bounded_limit limit) (sort_by (λ r. r.id) (filter (ready held now) rows)),
    )

-- What the table promises: unique identifiers, at most twenty attempts, and no lease on a delivered row.
abbrev pub row_ok : Row → Bool
row_ok r = leb r.attempts 20 && (is_none r.delivered_at || is_none r.locked_at)

pub record IsValid (rows : List Row) : Type 0 where
  pub unique : IsUnique rows
  pub rows_ok : all row_ok rows ≡ true

all-update_where_members :
    (p q : Row → Bool) (f : Row → Row) (rows : List Row)
    → ((r : Row) → Memᴰ r rows → p r ≡ true → q (f r) ≡ true)
    → all q rows ≡ true
    → all q (update_where p f rows) ≡ true
unfolding update_where
all-update_where_members p q f [] h a = refl
all-update_where_members p q f (r ∷ rs) h a =
    ground
      (arith, h r (Memᴰ.head refl), all-update_where_members p q f rs (λ x m. h x (Memᴰ.tail m)))

claim-IsValid :
    (held : Row → Bool) (limit now : ℕ) (rows : List Row)
    → IsValid rows
    → IsValid (claim held limit now rows).1
unfolding claim
claim-IsValid held limit now rows v =
    let cs = candidates held limit now rows in
    record {
      unique = λ id.
          rw (count-update_where (chosen cs) (has_id id) (lease now) rows (λ r. refl))
            (v.unique id);
      rows_ok =
          all-update_where_members (chosen cs) row_ok (lease now) rows
            (λ r m h. ground (arith, chosen-ready held limit now rows v.unique r m h)) v.rows_ok;
    }

settled-IsValid :
    (id : ℕ) (code : String) (delay now : ℕ) (rows : List Row)
    → IsValid rows
    → IsValid (mark_delivered id now rows) × IsValid (reschedule id code delay now rows)
unfolding mark_delivered reschedule
settled-IsValid id code delay now rows v = (
  record {
    unique = λ j.
        rw (count-update_where (open_row id) (has_id j) (deliver now) rows (λ r. refl))
          (v.unique j);
    rows_ok =
        all-update_where (open_row id) row_ok (deliver now) rows (λ r p q. ground arith) v.rows_ok;
  },
  record {
    unique = λ j.
        rw (count-update_where (open_row id) (has_id j) (defer code delay now) rows (λ r. refl))
          (v.unique j);
    rows_ok =
        all-update_where (open_row id) row_ok (defer code delay now) rows (λ r p q. ground arith)
          v.rows_ok;
  },
)

-- The three statements of the outbox.
pub data Statement : Type 0 where
  claims : (Row → Bool) → ℕ → ℕ → Statement
  delivers : ℕ → ℕ → Statement
  defers : ℕ → String → ℕ → ℕ → Statement

abbrev pub after : Statement → List Row → List Row
after (claims held limit now) rows = (claim held limit now rows).1
after (delivers id now) rows = mark_delivered id now rows
after (defers id code delay now) rows = reschedule id code delay now rows

abbrev pub run : List Statement → List Row → List Row
run [] rows = rows
run (statement ∷ rest) rows = run rest (after statement rows)

-- Claims, deliveries and deferrals, in any order and number, keep a table in which identifiers are
-- unique, no row has more than twenty attempts, and no delivered row is leased.
pub run-IsValid :
    (statements : List Statement) (rows : List Row) → IsValid rows → IsValid (run statements rows)
run-IsValid [] rows v = v
run-IsValid (claims held limit now ∷ rest) rows v =
    run-IsValid rest (claim held limit now rows).1 (claim-IsValid held limit now rows v)
run-IsValid (delivers id now ∷ rest) rows v =
    run-IsValid rest (mark_delivered id now rows) (settled-IsValid id "" 0 now rows v).0
run-IsValid (defers id code delay now ∷ rest) rows v =
    run-IsValid rest (reschedule id code delay now rows)
      (settled-IsValid id code delay now rows v).1
