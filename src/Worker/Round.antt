-- ===== src/Worker/Round.antt =====
-- revocation-worker.ts, `runOnce`: what a round does to every row of the outbox.
use wp_auto.Base.{
  ℕ, ◌+◌, ◌≤◌, String, ◌≡◌, refl, sym, ap, ◌∙◌, inl, inr, Bool, true, false, List, [], ◌∷◌, map,
  arith, if◌then◌else◌, Bool-cases, ◌==◌, nat_eq, text_eq, bytes_eq, ==_refl, length, filter, count,
  any, Result, ok, err,
}
use mathlib.Core.List.{Memᴰ}
use wp_auto.Base.{update_where}
use wp_auto.Base.Members.{count-member}
use wp_auto.Outbox.{
  Row, is_none, bounded_limit, has_id, candidates, chosen, lease, claim, deliver, mark_delivered,
  defer, reschedule, open_row,
}
use wp_auto.Outbox.Lease.{IsValid, chosen-ready, length-claim}
use wp_auto.Worker.{
  Environment, Totals, attempt, save_result, settle, settle_all, run_once, retry_delay,
}

update_where-map :
    (p : Row → Bool) (f : Row → Row) (rows : List Row)
    → update_where p f rows ≡ map (λ r. if p r then f r else r) rows
unfolding update_where
update_where-map p f [] = refl
update_where-map p f (r ∷ rs) = rw (update_where-map p f rs)

map-map : (f g : Row → Row) (rows : List Row) → map f (map g rows) ≡ map (λ r. f (g r)) rows
map-map f g [] = refl
map-map f g (r ∷ rs) = rw (map-map f g rs)

map-members :
    (f g : Row → Row) (rows : List Row)
    → ((r : Row) → Memᴰ r rows → f r ≡ g r)
    → map f rows ≡ map g rows
map-members f g [] h = refl
map-members f g (r ∷ rs) h =
    rw (h r (Memᴰ.head refl), map-members f g rs (λ x m. h x (Memᴰ.tail m)))

module _ (env : Environment) where
  open env use {done_at}

  -- A row after the attempt to deliver the record `r`: delivered, or free again and deferred by the
  -- delay of the record's attempts.
  abbrev pub settled_by : Result String (Unit {0}) → Row → Row → Row
  settled_by (ok _) r x = deliver (done_at r.id) x
  settled_by (err code) r x = defer code (retry_delay r.attempts) (done_at r.id) x

  -- What settling the record `r` does to a row of the table.
  abbrev touch : Row → Row → Row
  touch r x = if open_row r.id x then settled_by (attempt env r) r x else x

  touch_all : List Row → Row → Row
  touch_all [] x = x
  touch_all (r ∷ rs) x = touch_all rs (touch r x)

  save_result-map :
      (r : Row) (res : Result String (Unit {0})) (t : Totals) (rows : List Row)
      → (save_result env r res (t, rows)).1
        ≡ map (λ x. if open_row r.id x then settled_by res r x else x) rows
  unfolding save_result mark_delivered reschedule
  save_result-map r (ok _) t rows = update_where-map (open_row r.id) (deliver (done_at r.id)) rows
  save_result-map r (err code) t rows =
      update_where-map (open_row r.id) (defer code (retry_delay r.attempts) (done_at r.id)) rows

  settle-map : (r : Row) (s : Totals × List Row) → (settle env r s).1 ≡ map (touch r) s.1
  unfolding settle
  settle-map r (t, rows) = save_result-map r (attempt env r) t rows

  map-id : (rows : List Row) → map (λ x. x) rows ≡ rows
  map-id [] = refl
  map-id (r ∷ rs) = rw (map-id rs)

  settle_all-map :
      (rs : List Row) (s : Totals × List Row) → (settle_all env rs s).1 ≡ map (touch_all rs) s.1
  unfolding settle_all touch_all
  settle_all-map [] s = sym (map-id s.1)
  settle_all-map (r ∷ rs) s =
      settle_all-map rs (settle env r s)
      ∙ ap (map (touch_all rs)) (settle-map r s)
      ∙ map-map (touch_all rs) (touch r) s.1

  -- Records under other identifiers leave a row alone.
  touch_all-other :
      (rs : List Row) (x : Row) → count (λ r. r.id == x.id) rs ≡ 0 → touch_all rs x ≡ x
  unfolding touch_all
  touch_all-other [] x h = refl
  touch_all-other (r ∷ rs) x h =
      let here : open_row r.id x ≡ false = ground arith in
      rw here (touch_all-other rs x (ground arith))

  settled_by-id : (res : Result String (Unit {0})) (r x : Row) → (settled_by res r x).id ≡ x.id
  settled_by-id (ok _) r x = refl
  settled_by-id (err code) r x = refl

  touch_all_self :
      (rs : List Row) (x : Row)
      → count (has_id x.id) rs ≡ 0
      → is_none x.delivered_at ≡ true
      → touch_all rs (touch x x) ≡ settled_by (attempt env x) x x
  touch_all_self rs x u h =
      let mine : open_row x.id x ≡ true = rw (==_refl x.id) h in
      let same = settled_by-id (attempt env x) x x in
      rw mine (touch_all-other rs (settled_by (attempt env x) x x) (rw same u))

  -- Of records with unique identifiers, its own settles an undelivered row, and the others do nothing.
  touch_all-own :
      (rs : List Row) (x : Row)
      → count (has_id x.id) rs ≤ 1
      → Memᴰ x rs
      → is_none x.delivered_at ≡ true
      → touch_all rs x ≡ settled_by (attempt env x) x x
  unfolding touch_all
  touch_all-own [] x u m h = elim m [ ]
  touch_all-own (r ∷ rs) x u (Memᴰ.head e) h =
      let g = rw (← e) at u in rw (← e) (touch_all_self rs x (ground (arith, ==_refl x.id)) h)
  touch_all-own (r ∷ rs) x u (Memᴰ.tail m) h =
      let there = count-member (has_id x.id) m (==_refl x.id) in
      let other : open_row r.id x ≡ false = ground arith in
      rw other (touch_all-own rs x (ground arith) m h)

  -- What a round makes of a row, by itself: if the claim chose it, its leased form is settled by its own
  -- attempt, and otherwise it stays.
  abbrev pub outcome : List Row → ℕ → Row → Row
  outcome cs now r =
      if chosen cs r then settled_by (attempt env (lease now r)) (lease now r) (lease now r) else r

  Memᴰ-lease :
      (cs : List Row) (now : ℕ) (r : Row) (rows : List Row)
      → Memᴰ r rows
      → chosen cs r ≡ true
      → Memᴰ (lease now r) (map (lease now) (filter (chosen cs) rows))
  Memᴰ-lease cs now r [] m h = elim m [ ]
  Memᴰ-lease cs now r (x ∷ xs) (Memᴰ.head e) h =
      let there : chosen cs x ≡ true = rw (← e) h in rw there (Memᴰ.head (ap (lease now) e))
  Memᴰ-lease cs now r (x ∷ xs) (Memᴰ.tail m) h = elim (Bool-cases (chosen cs x)) [
    | inl e ↦ rw e (Memᴰ.tail (Memᴰ-lease cs now r xs m h))
    | inr e ↦ rw e (Memᴰ-lease cs now r xs m h)
  ]

  count-records :
      (cs : List Row) (now id : ℕ) (rows : List Row)
      → count (has_id id) (map (lease now) (filter (chosen cs) rows)) ≤ count (has_id id) rows
  count-records cs now id [] = omega arith
  count-records cs now id (x ∷ xs) = ground (arith, count-records cs now id xs)

  count-unchosen :
      (cs : List Row) (now id : ℕ) (rows : List Row)
      → any (has_id id) cs ≡ false
      → count (has_id id) (map (lease now) (filter (chosen cs) rows)) ≡ 0
  count-unchosen cs now id [] h = refl
  count-unchosen cs now id (x ∷ xs) h = elim (Bool-cases (has_id id x)) [
    | inl e ↦
        let same : x.id ≡ id = ground arith in
        let skipped : chosen cs x ≡ false = rw same h in rw skipped (count-unchosen cs now id xs h)
    | inr e ↦ elim (Bool-cases (chosen cs x)) [
      | inl c ↦ rw (c, e) (ground (arith, count-unchosen cs now id xs h))
      | inr c ↦ rw c (count-unchosen cs now id xs h)
    ]
  ]

  -- A round of the worker does to each row exactly what its outcome says, whatever the order in which the
  -- records are handled and whatever the other records do.
  pub run_once-outcome :
      (held : Row → Bool) (limit now : ℕ) (rows : List Row)
      → IsValid rows
      → (run_once env held limit now rows).1
        ≡ map (outcome (candidates held limit now rows) now) rows
  unfolding run_once claim
  run_once-outcome held limit now rows v =
      let cs = candidates held limit now rows in
      let records = map (lease now) (filter (chosen cs) rows) in
      settle_all-map records
        (record { delivered = 0; deferred = 0 }, update_where (chosen cs) (lease now) rows)
      ∙ ap (map (touch_all records)) (update_where-map (chosen cs) (lease now) rows)
      ∙ map-map (touch_all records) (λ r. if chosen cs r then lease now r else r) rows
      ∙ map-members _ (outcome cs now) rows λ r m. elim (Bool-cases (chosen cs r)) [
        | inl e ↦
            let ready_row = chosen-ready held limit now rows v.unique r m e in
            rw e (
              touch_all-own records (lease now r)
                (omega (arith, count-records cs now r.id rows, v.unique r.id))
                (Memᴰ-lease cs now r rows m e) (ground arith))
        | inr e ↦ rw e (touch_all-other records r (count-unchosen cs now r.id rows e))
      ]

  save_result-totals :
      (r : Row) (res : Result String (Unit {0})) (s : Totals × List Row)
      → (save_result env r res s).0.delivered + (save_result env r res s).0.deferred
        ≡ s.0.delivered + s.0.deferred + 1
  unfolding save_result
  save_result-totals r (ok _) (t, rows) = omega arith
  save_result-totals r (err code) (t, rows) = omega arith

  settle_all-totals :
      (rs : List Row) (s : Totals × List Row)
      → (settle_all env rs s).0.delivered + (settle_all env rs s).0.deferred
        ≡ s.0.delivered + s.0.deferred + length rs
  unfolding settle_all settle
  settle_all-totals [] s = omega arith
  settle_all-totals (r ∷ rs) s = omega (
    arith,
    settle_all-totals rs (save_result env r (attempt env r) s),
    save_result-totals r (attempt env r) s,
  )

  -- The totals that a round reports count every claimed record once, and so at most the limit.
  pub run_once-totals :
      (held : Row → Bool) (limit now : ℕ) (rows : List Row)
      → IsValid rows
      → ((run_once env held limit now rows).0.delivered
            + (run_once env held limit now rows).0.deferred
          ≡ length (claim held limit now rows).0)
        × ((run_once env held limit now rows).0.delivered
              + (run_once env held limit now rows).0.deferred
            ≤ bounded_limit limit)
  unfolding run_once
  run_once-totals held limit now rows v =
      let (records, leased) = claim held limit now rows in
      let sums = settle_all-totals records (record { delivered = 0; deferred = 0 }, leased) in
      (omega arith, omega (arith, length-claim held limit now rows v.unique))
