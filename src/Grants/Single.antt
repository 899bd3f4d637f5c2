-- ===== src/Grants/Single.antt =====
-- `PostgresGrantRepository`: a client has at most one open grant for a subject and a site.
use wp_auto.Base.{
  ◌≤◌, String, ◌≡◌, inl, inr, Bool, true, ◌&&◌, List, [], ◌∷◌, arith, Bool-cases, ◌==◌, ==_iff,
  nat_eq, text_eq, bytes_eq, Bytes, count,
}
use wp_auto.Base.{count_mono, count-append}
use wp_auto.Base.Rows.{count-update_within}
use wp_auto.Base.Members.{any-count}
use wp_auto.Grants.{
  Grant, Store, NewGrant, is_open, has_id, collides, pending_row, decidable, activated, revoked_for,
}
use wp_auto.Grants.Calls.{
  Call, step, run, Changes, keeps, adds, grants_one, denies_one, revokes_one, step-Changes,
}
use wp_auto.Grants.Status.{decidable_is_open}

-- The open grants of a client for a subject and a site.
abbrev pub open_for : String → String → String → String → Grant → Bool
open_for tenant site subject client g =
    is_open g.status
    && (g.tenant_id == tenant
        && (g.site_id == site && (g.subject_id == subject && g.client_id == client)))

open_for_sound :
    (tenant site subject client : String) (g : Grant)
    → open_for tenant site subject client g ≡ true
    → (g.tenant_id ≡ tenant)
      × (g.site_id ≡ site)
      × (g.subject_id ≡ subject)
      × (g.client_id ≡ client)
open_for_sound tenant site subject client g e =
    let a : (g.tenant_id == tenant) ≡ true = ground arith in
    let b : (g.site_id == site) ≡ true = ground arith in
    let c : (g.subject_id == subject) ≡ true = ground arith in
    let d : (g.client_id == client) ≡ true = ground arith in
    (
      (==_iff g.tenant_id tenant).0 a,
      (==_iff g.site_id site).0 b,
      (==_iff g.subject_id subject).0 c,
      (==_iff g.client_id client).0 d,
    )

open_collides :
    (tenant site subject client : String) (n : NewGrant)
    → (n.tenant_id ≡ tenant)
      × (n.site_id ≡ site)
      × (n.subject_id ≡ subject)
      × (n.client_id ≡ client)
    → (g : Grant) → open_for tenant site subject client g ≡ true
    → collides n g ≡ true
open_collides tenant site subject client n (a, b, c, d) g e = rw (a, b, c, d) (ground arith)

-- At most one grant of a client for a subject and a site is open.
pub Changes-single :
    (tenant site subject client : String) {gs gs' : List Grant}
    → Changes gs gs'
    → count (open_for tenant site subject client) gs ≤ 1
    → count (open_for tenant site subject client) gs' ≤ 1
Changes-single tenant site subject client keeps single = single
Changes-single tenant site subject client (adds {gs} n free) single =
    elim (Bool-cases (open_for tenant site subject client (pending_row n))) [
      | inr other ↦
          let one : count (open_for tenant site subject client) (pending_row n ∷ []) ≡ 0 =
            ground arith in
          omega (
            arith,
            single,
            one,
            count-append (open_for tenant site subject client) gs (pending_row n ∷ []),
          )
      | inl mine ↦
          let fewer = count_mono (open_for tenant site subject client) (collides n) gs (
            open_collides tenant site subject client n
              (open_for_sound tenant site subject client (pending_row n) mine)) in
          let none_yet : count (collides n) gs ≡ 0 = ground (arith, any-count (collides n) gs) in
          let one : count (open_for tenant site subject client) (pending_row n ∷ []) ≡ 1 =
            ground arith in
          omega (
            arith,
            fewer,
            none_yet,
            one,
            count-append (open_for tenant site subject client) gs (pending_row n ∷ []),
          )
    ]
Changes-single tenant site subject client (grants_one {gs} tenant' id' now) single = omega (
  arith,
  single,
  count-update_within (decidable tenant' id' now) (open_for tenant site subject client) activated gs
      λ g d o. ground (arith, decidable_is_open tenant' id' now g d),
)
Changes-single tenant site subject client (denies_one {gs} tenant' id' now) single = omega (
  arith,
  single,
  count-update_within (decidable tenant' id' now) (open_for tenant site subject client)
      (revoked_for "consent_denied" now) gs λ g d o. ground arith,
)
Changes-single tenant site subject client (revokes_one {gs} tenant' id' reason now) single = omega (
  arith,
  single,
  count-update_within (λ g. has_id tenant' id' g && is_open g.status)
      (open_for tenant site subject client) (revoked_for reason now) gs λ g d o. ground arith,
)

module _ (digest : String → String → Bytes) where
  run_single :
      (tenant site subject client : String) (cs : List Call) (s : Store)
      → count (open_for tenant site subject client) s.grants ≤ 1
      → count (open_for tenant site subject client) (run digest cs s).grants ≤ 1
  run_single tenant site subject client [] s single = single
  run_single tenant site subject client (c ∷ cs) s single =
      run_single tenant site subject client cs (step digest c s)
        (Changes-single tenant site subject client (step-Changes digest c s) single)

  -- From an empty table on, whatever sequence of `createPending`, `activate`, `deny` and `revoke` is
  -- called, a client has at most one pending, active or suspended grant for a subject and a site of a
  -- tenant.
  pub one_open_grant :
      (tenant site subject client : String) (cs : List Call) (s : Store)
      → s.grants ≡ []
      → count (open_for tenant site subject client) (run digest cs s).grants ≤ 1
  one_open_grant tenant site subject client cs s empty =
      run_single tenant site subject client cs s (rw empty (omega arith))
