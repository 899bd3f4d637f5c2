-- ===== src/Grants/Active.antt =====
-- A grant that a token or an interaction is for is active, so that a revoked one is for none.
use wp_auto.Base.{
  ℕ, ◌≤◌, String, ◌≡◌, refl, ap, ◌≢◌, inl, inr, Bool, true, Option, none, some, List, [], ◌∷◌,
  arith, leb, Bool-cases, Option-cases, ◌==◌, nat_eq, text_eq, bytes_eq, Bytes, ==_refl, length,
  take, filter, count, any, Result, ok, guard-ok, ok_injective,
}
use wp_auto.Base.Options.{some_injective}
use wp_auto.Contracts.{is_scope_set}
use wp_auto.Grants.{
  Grant, Store, has_id, is_open, site_of, revoke, GrantStatus, pending, active, suspended, revoked,
}
use wp_auto.Grants.Calls.{Call, run}
use wp_auto.Grants.Status.{in_status, closed_forever}
use wp_auto.Grants.Resolve.{
  Error, Binding, GrantClaims, ExactRequest, GrantBinding, is_active_status, is_granted, allows,
  single_row, is_bound, is_requested, claims_of, exact_rows, read_binding, binding_of, resolve,
  resolve_exact, ambiguous, scopes_invalid,
}

-- The only row of a result passes its test and is a row of the table.
single_found :
    (p q : Grant → Bool) (gs : List Grant) (g : Grant)
    → single_row (take 2 (filter p gs)) ≡ some g
    → (p g ≡ true) × (q g ≡ true → 1 ≤ count q gs)
single_found p q [] g e = cc
single_found p q (x ∷ gs) g e = elim (Bool-cases (p x)) [
  | inr other ↦
      let (holds, counts) = single_found p q gs g (rw other at e) in
      (holds, λ m. ground (arith, counts m))
  | inl one ↦
      let same : x ≡ g = only x (filter p gs) (rw one at e) in
      (rw same at one, λ m. let m' : q x ≡ true = rw same m in ground arith)
]
  where
    only : (x : Grant) (ys : List Grant) → single_row (take 2 (x ∷ ys)) ≡ some g → x ≡ g
    only x [] e = cc
    only x (y ∷ ys) e = cc

active_is_open : (x : GrantStatus) → is_active_status x ≡ true → is_open x ≡ true
active_is_open pending e = cc
active_is_open active e = refl
active_is_open suspended e = refl
active_is_open revoked e = cc

claims_of_some :
    (row : Option Grant) (c : GrantClaims)
    → claims_of row ≡ some c
    → (g : Grant) × (row ≡ some g) × (g.tenant_id ≡ c.tenant_id) × (g.id ≡ c.grant_id)
claims_of_some none c e = cc
claims_of_some (some g) c e = (g, refl, ap (λ x. tenant_or x) e, ap (λ x. grant_or x) e)
  where
    tenant_or : Option GrantClaims → String
    tenant_or none = g.tenant_id
    tenant_or (some x) = x.tenant_id

    grant_or : Option GrantClaims → String
    grant_or none = g.id
    grant_or (some x) = x.grant_id

-- A row that is granted counts as open.
granted_counts :
    (q : Grant → Bool) (in_resource : String → Bool) (tenant id : String) (s : Store) (g : Grant)
    → single_row (take 2 (filter (is_granted q in_resource s) s.grants)) ≡ some g
    → g.tenant_id ≡ tenant
    → g.id ≡ id
    → 1 ≤ count (in_status is_open tenant id) s.grants
granted_counts q in_resource tenant id s g e tenants ids =
    let (holds, counts) =
      single_found (is_granted q in_resource s) (in_status is_open tenant id) s.grants g e in
    let opened : is_open g.status ≡ true = active_is_open g.status (ground arith) in
    counts (rw (tenants, ids, opened) (ground (arith, ==_refl tenant, ==_refl id)))

-- What a binding that is read says of its row.
read_binding-some :
    (row : Option Grant) (s : Store) (b : GrantBinding)
    → read_binding row s ≡ ok (some b)
    → (g : Grant) × (row ≡ some g) × (g.tenant_id ≡ b.tenant_id) × (g.id ≡ b.grant_id)
read_binding-some none s b e = absurd (none_ne_some e)
  where
    none_ne_some : ¬ (Path (Result Error (Option GrantBinding)) (ok none) (ok (some b)))
    none_ne_some e = cc
read_binding-some (some g) s b e = elim (Option-cases (site_of g s)) [
  | inl no_site ↦ absurd (none_ne_some (rw no_site at e))
  | inr (site, found) ↦
      let (_, e₁) = guard-ok (is_scope_set g.scopes) scopes_invalid _ (rw found at e) in
      let same : binding_of g site.resource ≡ b = some_injective (ok_injective e₁) in
      (g, refl, ap (λ x. x.tenant_id) same, ap (λ x. x.grant_id) same)
]
  where
    none_ne_some : ¬ (Path (Result Error (Option GrantBinding)) (ok none) (ok (some b)))
    none_ne_some e = cc

resolve_open :
    (subject : String) (binding : Binding) (s : Store) (c : GrantClaims)
    → resolve subject binding s ≡ some c
    → 1 ≤ count (in_status is_open c.tenant_id c.grant_id) s.grants
unfolding resolve
resolve_open subject binding s c e =
    let (g, row, tenants, ids) =
      claims_of_some
        (single_row (
          take 2
            (filter (is_granted (is_bound subject binding) (allows binding.resource) s) s.grants)))
        c e in
    granted_counts (is_bound subject binding) (allows binding.resource) c.tenant_id c.grant_id s g
      row tenants ids

resolve_exact_open :
    (i : ExactRequest) (s : Store) (b : GrantBinding)
    → resolve_exact i s ≡ ok (some b)
    → 1 ≤ count (in_status is_open b.tenant_id b.grant_id) s.grants
unfolding resolve_exact
resolve_exact_open i s b e = elim (Bool-cases (length i.scopes == 0)) [
  | inl empty ↦ absurd (none_ne_some (rw empty at e))
  | inr asked ↦
      let (_, e₁) = guard-ok (leb (length (exact_rows i s)) 1) ambiguous _ (rw asked at e) in
      let (g, row, tenants, ids) = read_binding-some (single_row (exact_rows i s)) s b e₁ in
      granted_counts (is_requested i) (λ r. r == i.resource) b.tenant_id b.grant_id s g row tenants
        ids
]
  where
    none_ne_some : ¬ (Path (Result Error (Option GrantBinding)) (ok none) (ok (some b)))
    none_ne_some e = cc

module _ (digest : String → String → Bytes) where
  -- Once a grant of the table is revoked, whatever calls follow, no access token is issued with claims of
  -- it, whatever the subject and the binding of the token are, and no interaction is bound to it,
  -- whatever the interaction asks for.
  pub revoked_unresolved :
      (tenant id reason : String) (now : ℕ) (cs : List Call) (s : Store) (subject : String)
      (binding : Binding) (i : ExactRequest) (c : GrantClaims) (b : GrantBinding)
      → any (has_id tenant id) s.grants ≡ true
      → c.tenant_id ≡ tenant
      → c.grant_id ≡ id
      → b.tenant_id ≡ tenant
      → b.grant_id ≡ id
      → (resolve subject binding (run digest cs (revoke tenant id reason now s).1) ≢ some c)
        × (resolve_exact i (run digest cs (revoke tenant id reason now s).1) ≢ ok (some b))
  revoked_unresolved tenant id reason now cs s subject binding i c b there ct ci bt bi =
      let z = run digest cs (revoke tenant id reason now s).1 in
      let closed = closed_forever digest tenant id reason now cs s there in
      (
        λ e.
            (let found : 1 ≤ count (in_status is_open tenant id) z.grants =
                rw (ct, ci) at (resolve_open subject binding z c e) in
              omega (arith, found, closed)),
        λ e.
            (let found : 1 ≤ count (in_status is_open tenant id) z.grants =
                rw (bt, bi) at (resolve_exact_open i z b e) in
              omega (arith, found, closed)),
      )
