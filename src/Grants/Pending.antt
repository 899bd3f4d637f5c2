-- ===== src/Grants/Pending.antt =====
-- `findPending`: the rows that a pending grant is read from.
use wp_auto.Base.{
  String, ◌≡◌, refl, sym, ◌⊎◌, inl, inr, Bool, true, ◌&&◌, ◌||◌, Option, none, some, List, [], ◌∷◌,
  arith, Bool-cases, Option-cases, ◌==◌, ==_iff, nat_eq, text_eq, bytes_eq, any, Result, ok,
  guard-ok, ok_injective,
}
use mathlib.Core.List.{Memᴰ}
use wp_auto.Contracts.{is_scope_set}
use wp_auto.Grants.{
  Store, PendingGrant, Site, Grant, GrantStatus, pending, active, suspended, revoked, find_pending,
  is_pending, has_id, site_of, completed_by, read_pending, scopes_invalid, pending_grant,
}
use wp_auto.Grants.{Error as StoreError}
use wp_auto.Base.Options.{some_injective}
use wp_auto.Base.Rows.{first, first_holds}

first-member : {A : Type 0} (p : A → Bool) (xs : List A) (x : A) → first p xs ≡ some x → Memᴰ x xs
first-member p [] x h = cc
first-member p (y ∷ ys) x h = elim (Bool-cases (p y)) [
  | inl e ↦ let same : y ≡ x = ground arith in Memᴰ.head (sym same)
  | inr e ↦ Memᴰ.tail (first-member p ys x (ground arith))
]

-- A completion of the grant is recorded under the key.
abbrev pub is_recorded : String → String → String → Store → Bool
is_recorded tenant id key s = any (completed_by tenant id key) s.receipts

-- The stored grant of an id, which is pending or completed under the key, and its site, which is active.
pub record Reads (tenant id key : String) (s : Store) (row : Grant) (site : Site) : Type 0 where
  pub stored : Memᴰ row s.grants
  pub same_tenant : row.tenant_id ≡ tenant
  pub same_id : row.id ≡ id
  pub undecided : (row.status ≡ pending) ⊎ (is_recorded tenant id key s ≡ true)
  pub site_stored : Memᴰ site s.sites
  pub site_tenant : site.tenant_id ≡ row.tenant_id
  pub site_id : site.id ≡ row.site_id
  pub site_active : site.is_active ≡ true
  pub scopes_valid : is_scope_set row.scopes ≡ true

read_site :
    (replay : Bool) (row : Grant) (site : Option Site) (g : PendingGrant)
    → read_pending replay (some row) site ≡ ok (some g)
    → (x : Site) × (site ≡ some x)
      × (is_scope_set row.scopes ≡ true)
      × (pending_grant row x replay ≡ g)
read_site replay row none g e = absurd (none_ne_some e)
  where
    none_ne_some :
        {x : PendingGrant}
        → ¬ (Path (Result StoreError (Option PendingGrant)) (ok none) (ok (some x)))
    none_ne_some e = cc
read_site replay row (some site) g e =
    let (valid, e₁) = guard-ok (is_scope_set row.scopes) scopes_invalid _ e in
    (site, refl, valid, some_injective (ok_injective e₁))

is_pending_status :
    (status : GrantStatus) (b : Bool)
    → (is_pending status || b) ≡ true
    → (status ≡ pending) ⊎ (b ≡ true)
is_pending_status pending b e = inl refl
is_pending_status active b e = inr e
is_pending_status suspended b e = inr e
is_pending_status revoked b e = inr e

row_tests :
    (tenant id : String) (replay : Bool) (r : Grant)
    → (has_id tenant id r && (is_pending r.status || replay)) ≡ true
    → (r.tenant_id ≡ tenant) × (r.id ≡ id) × ((r.status ≡ pending) ⊎ (replay ≡ true))
row_tests tenant id replay r e =
    let tenants : (r.tenant_id == tenant) ≡ true = ground arith in
    let ids : (r.id == id) ≡ true = ground arith in
    let still : (is_pending r.status || replay) ≡ true = ground arith in
    (
      (==_iff r.tenant_id tenant).0 tenants,
      (==_iff r.id id).0 ids,
      is_pending_status r.status replay still,
    )

site_tests :
    (r : Grant) (x : Site)
    → (x.tenant_id == r.tenant_id && (x.id == r.site_id && x.is_active)) ≡ true
    → (x.tenant_id ≡ r.tenant_id) × (x.id ≡ r.site_id) × (x.is_active ≡ true)
site_tests r x e =
    let tenants : (x.tenant_id == r.tenant_id) ≡ true = ground arith in
    let ids : (x.id == r.site_id) ≡ true = ground arith in
    ((==_iff x.tenant_id r.tenant_id).0 tenants, (==_iff x.id r.site_id).0 ids, ground arith)

no_row :
    (replay : Bool) (site : Option Site) (g : PendingGrant)
    → ¬ (read_pending replay none site ≡ ok (some g))
no_row replay none g e = cc
no_row replay (some x) g e = cc

pub found_pending :
    (tenant id key : String) (s : Store) (g : PendingGrant)
    → find_pending tenant id key s ≡ ok (some g)
    → (row : Grant) × (site : Site) × Reads tenant id key s row site
      × (pending_grant row site (is_recorded tenant id key s) ≡ g)
unfolding find_pending
found_pending tenant id key s g e =
    let replay = is_recorded tenant id key s in
    let wanted : Grant → Bool = λ r. has_id tenant id r && (is_pending r.status || replay) in
    elim (Option-cases (first wanted s.grants)) [
      | inl absent ↦ absurd (no_row replay none g (rw absent at e))
      | inr (row, found) ↦
          let e' : read_pending replay (some row) (site_of row s) ≡ ok (some g) = rw found at e in
          let (site, its, valid, same) = read_site replay row (site_of row s) g e' in
          let (tenants, ids, open_row) =
            row_tests tenant id replay row (first_holds wanted s.grants found) in
          let in_site : Site → Bool =
            λ x. x.tenant_id == row.tenant_id && (x.id == row.site_id && x.is_active) in
          let (its_tenant, its_id, is_act) =
            site_tests row site (first_holds in_site s.sites its) in
          (
            row,
            site,
            record {
              stored = first-member wanted s.grants row found;
              same_tenant = tenants;
              same_id = ids;
              undecided = open_row;
              site_stored = first-member in_site s.sites site its;
              site_tenant = its_tenant;
              site_id = its_id;
              site_active = is_act;
              scopes_valid = valid;
            },
            same,
          )
    ]
