-- ===== src/Grants/Resolve.antt =====
-- packages/database/src/index.ts, `PostgresGrantClaimsResolver` and `PostgresAuthorizationGrantRepository`:
-- the grant that a token or an interaction is for.
use wp_auto.Base.{
  String, Bool, true, false, not, ◌&&◌, Option, none, some, List, [], ◌∷◌, leb, if◌then◌else◌, ◌==◌,
  nat_eq, text_eq, bytes_eq, length, take, filter, Result, ok, ◌>>◌, guard,
}
use wp_auto.Base.{sort_by}
use wp_auto.Contracts.{McpScope, scope_eq, scope_index, is_scope_set}
use wp_auto.Grants.{GrantStatus, active, Grant, Site, Store, site_of}

pub data Error : Type 0 where
  ambiguous scopes_invalid : Error

-- The optional binding of `resolve`.
pub record Binding : Type 0 where
  pub grant_id : Option String
  pub client_id : Option String
  pub resource : Option String

pub record GrantClaims : Type 0 where
  pub tenant_id : String
  pub site_id : String
  pub grant_id : String

pub record ExactRequest : Type 0 where
  pub subject_id : String
  pub client_id : String
  pub resource : String
  pub scopes : List McpScope

-- `AuthorizationGrantBinding`
pub record GrantBinding : Type 0 where
  pub tenant_id : String
  pub site_id : String
  pub grant_id : String
  pub subject_id : String
  pub client_id : String
  pub resource : String
  pub scopes : List McpScope

abbrev pub is_active_status : GrantStatus → Bool
is_active_status active = true
is_active_status _ = false

-- `$n IS NULL OR column = $n`
abbrev pub allows : Option String → String → Bool
allows none s = true
allows (some t) s = s == t

abbrev pub site_allows : (String → Bool) → Option Site → Bool
site_allows in_resource none = false
site_allows in_resource (some site) = in_resource site.resource

-- An active grant of an active site.
abbrev pub is_granted : (Grant → Bool) → (String → Bool) → Store → Grant → Bool
is_granted q in_resource s g =
    is_active_status g.status && (q g && site_allows in_resource (site_of g s))

-- The only row of a result.
abbrev pub single_row {ℓ} : {A : Type ℓ} → List A → Option A
single_row [] = none
single_row (x ∷ []) = some x
single_row (x ∷ y ∷ ys) = none

abbrev pub is_bound : String → Binding → Grant → Bool
is_bound subject b g =
    g.subject_id == subject && (allows b.grant_id g.id && allows b.client_id g.client_id)

abbrev pub claims_of : Option Grant → Option GrantClaims
claims_of none = none
claims_of (some g) = some (record { tenant_id = g.tenant_id; site_id = g.site_id; grant_id = g.id })

unfoldable pub resolve : String → Binding → Store → Option GrantClaims
resolve subject b s =
    claims_of (
      single_row (take 2 (filter (is_granted (is_bound subject b) (allows b.resource) s) s.grants)))

-- `[...new Set(scopes)]`
abbrev pub distinct : List McpScope → List McpScope
distinct [] = []
distinct (x ∷ xs) = x ∷ filter (λ y. not (y == x)) (distinct xs)

abbrev pub same_scopes : List McpScope → List McpScope → Bool
same_scopes [] [] = true
same_scopes (x ∷ xs) (y ∷ ys) = x == y && same_scopes xs ys
same_scopes [] (y ∷ ys) = false
same_scopes (x ∷ xs) [] = false

abbrev pub is_requested : ExactRequest → Grant → Bool
is_requested i g =
    g.subject_id == i.subject_id
    && (g.client_id == i.client_id
        && same_scopes g.scopes (sort_by scope_index (distinct i.scopes)))

abbrev pub binding_of : Grant → String → GrantBinding
binding_of g resource = record {
  tenant_id = g.tenant_id;
  site_id = g.site_id;
  grant_id = g.id;
  subject_id = g.subject_id;
  client_id = g.client_id;
  resource = resource;
  scopes = g.scopes;
}

abbrev pub read_binding : Option Grant → Store → Result Error (Option GrantBinding)
read_binding none s = ok none
read_binding (some g) s = with_site (site_of g s)
  where
    with_site : Option Site → Result Error (Option GrantBinding)
    with_site none = ok none
    with_site (some site) = do
      guard (is_scope_set g.scopes) scopes_invalid
      ok (some (binding_of g site.resource))

abbrev pub exact_rows : ExactRequest → Store → List Grant
exact_rows i s = take 2 (filter (is_granted (is_requested i) (λ r. r == i.resource) s) s.grants)

unfoldable pub resolve_exact : ExactRequest → Store → Result Error (Option GrantBinding)
resolve_exact i s = if length i.scopes == 0 then ok none else (do
  guard (leb (length (exact_rows i s)) 1) ambiguous
  read_binding (single_row (exact_rows i s)) s)
