-- ===== src/Grants/Status.antt =====
-- `PostgresGrantRepository`: a grant that is not open any more is never open again.
use wp_auto.Base.{
  ℕ, ◌≤◌, String, ◌≡◌, refl, inl, inr, Bool, true, false, ◌&&◌, List, [], ◌∷◌, arith, Bool-cases,
  ◌==◌, ==_iff, nat_eq, text_eq, bytes_eq, Bytes, count, any,
}
use wp_auto.Base.{update_where, count_mono, count-append, count-update_where}
use wp_auto.Base.Rows.{count-update_within, count-update_drop}
use wp_auto.Base.Members.{any-count}
use wp_auto.Grants.{
  GrantStatus, pending, active, suspended, revoked, Grant, Store, NewGrant, is_open, is_pending,
  has_id, collides, pending_row, decidable, activated, revoked_for, revoke,
}
use wp_auto.Grants.Calls.{
  Call, step, run, Changes, keeps, adds, grants_one, denies_one, revokes_one, step-Changes,
}

pub pending_is_open : (x : GrantStatus) → is_pending x ≡ true → is_open x ≡ true
pending_is_open pending e = refl
pending_is_open active e = refl
pending_is_open suspended e = refl
pending_is_open revoked e = cc

pub decidable_is_open :
    (tenant id : String) (now : ℕ) (g : Grant)
    → decidable tenant id now g ≡ true
    → is_open g.status ≡ true
decidable_is_open tenant id now g d = pending_is_open g.status (ground arith)

-- A grant of the key whose status passes a test.
abbrev pub in_status : (GrantStatus → Bool) → String → String → Grant → Bool
in_status q tenant id g = has_id tenant id g && q g.status

-- The grant is in the table, and its status passes the test no more.
abbrev pub IsPast : (GrantStatus → Bool) → String → String → List Grant → Type 0
IsPast q tenant id gs = (1 ≤ count (has_id tenant id) gs) × (count (in_status q tenant id) gs ≡ 0)

-- A test that neither revoking nor activating a pending grant can make true.
pub record Falls (q : GrantStatus → Bool) : Type 0 where
  pub when_revoked : q revoked ≡ false
  pub when_activated : (x : GrantStatus) → is_pending x ≡ true → q active ≡ true → q x ≡ true

pub open-Falls : Falls is_open
open-Falls = record { when_revoked = refl; when_activated = λ x p a. pending_is_open x p }

pub pending-Falls : Falls is_pending
pending-Falls = record { when_revoked = refl; when_activated = λ x p a. p }

update-IsPast :
    (q : GrantStatus → Bool) (tenant id : String) (p : Grant → Bool) (f : Grant → Grant)
    (gs : List Grant)
    → ((g : Grant) → has_id tenant id (f g) ≡ has_id tenant id g)
    → ((g : Grant) → p g ≡ true → q (f g).status ≡ true → q g.status ≡ true)
    → IsPast q tenant id gs
    → IsPast q tenant id (update_where p f gs)
update-IsPast q tenant id p f gs same less (there, past) =
    let fewer =
      count-update_within p (in_status q tenant id) f gs
        λ g m o. ground (arith, same g, less g m) in
    (
      omega (arith, there, count-update_where p (has_id tenant id) f gs same),
      omega (arith, past, fewer),
    )

-- An id is a key of the table.
taken_collides :
    (tenant id : String) (n : NewGrant) (gs : List Grant)
    → any (collides n) gs ≡ false
    → 1 ≤ count (has_id tenant id) gs
    → has_id tenant id (pending_row n) ≡ false
taken_collides tenant id n gs free there = elim (Bool-cases (n.id == id)) [
  | inr other ↦ ground arith
  | inl mine ↦
      let same = (==_iff n.id id).0 mine in
      let fewer =
        count_mono (has_id tenant id) (collides n) gs
          λ g h. (let e : (g.id == n.id) ≡ true = rw same (ground arith) in ground arith) in
      absurd (ground (arith, fewer, any-count (collides n) gs))
]

pub Changes-IsPast :
    (q : GrantStatus → Bool) (tenant id : String) {gs gs' : List Grant}
    → Falls q
    → Changes gs gs'
    → IsPast q tenant id gs
    → IsPast q tenant id gs'
Changes-IsPast q tenant id falls keeps past = past
Changes-IsPast q tenant id falls (adds {gs} n free) (there, past) =
    let other = taken_collides tenant id n gs free there in
    let one : count (in_status q tenant id) (pending_row n ∷ []) ≡ 0 = ground arith in
    (
      omega (arith, there, count-append (has_id tenant id) gs (pending_row n ∷ [])),
      omega (arith, past, one, count-append (in_status q tenant id) gs (pending_row n ∷ [])),
    )
Changes-IsPast q tenant id falls (grants_one {gs} tenant' id' now) past =
    update-IsPast q tenant id (decidable tenant' id' now) activated gs (λ g. refl)
      (λ g d o. falls.when_activated g.status (ground arith) o) past
Changes-IsPast q tenant id falls (denies_one {gs} tenant' id' now) past =
    update-IsPast q tenant id (decidable tenant' id' now) (revoked_for "consent_denied" now) gs
      (λ g. refl) (λ g d o. absurd (ground (arith, falls.when_revoked))) past
Changes-IsPast q tenant id falls (revokes_one {gs} tenant' id' reason now) past =
    update-IsPast q tenant id (in_status is_open tenant' id') (revoked_for reason now) gs
      (λ g. refl) (λ g d o. absurd (ground (arith, falls.when_revoked))) past

module _ (digest : String → String → Bytes) where
  pub run-IsPast :
      (q : GrantStatus → Bool) (tenant id : String) (cs : List Call) (s : Store)
      → Falls q
      → IsPast q tenant id s.grants
      → IsPast q tenant id (run digest cs s).grants
  run-IsPast q tenant id [] s falls past = past
  run-IsPast q tenant id (c ∷ cs) s falls past =
      run-IsPast q tenant id cs (step digest c s) falls
        (Changes-IsPast q tenant id falls (step-Changes digest c s) past)

  -- A grant of the table that `revoke` is called for is pending, active or suspended after no later
  -- sequence of calls: nothing activates it, and no grant is created with its id.
  pub closed_forever :
      (tenant id reason : String) (now : ℕ) (cs : List Call) (s : Store)
      → any (has_id tenant id) s.grants ≡ true
      → count (in_status is_open tenant id) (run digest cs (revoke tenant id reason now s).1).grants
        ≡ 0
  closed_forever tenant id reason now cs s there =
      let kept =
        count-update_where (in_status is_open tenant id) (has_id tenant id) (revoked_for reason now)
          s.grants λ g. refl in
      let known : 1 ≤ count (has_id tenant id) s.grants =
        ground (arith, any-count (has_id tenant id) s.grants) in
      let drop =
        count-update_drop (in_status is_open tenant id) (in_status is_open tenant id)
          (revoked_for reason now) s.grants (λ g m. m) (λ g m. ground arith) in
      (run-IsPast is_open tenant id cs (revoke tenant id reason now s).1 open-Falls
        (omega (arith, kept, known), omega (arith, drop))).1
