-- ===== src/Provider.antt =====
-- packages/oauth-provider/src/index.ts: the grant that the authorization server loads for a request, its
-- resources, and the lifetime of refresh tokens. The URL parser, the table of accounts, the lookup of a
-- grant's binding and the provider's own grants are parameters.
pub mod Words
pub mod Loaded
pub mod Loopback
pub mod Lifetime
mod Tests
use wp_auto.Base.{
  ℕ, zero, suc, ◌+◌, ◌-◌, ◌*◌, ◌/◌, ◌%◌, ◌^◌, ◌≤◌, ◌<◌, min, max, String, ◌≡◌, refl, sym, ap, ◌∙◌,
  ◌≢◌, ◌↔◌, ◌⊎◌, inl, inr, Bool, true, false, not, ◌&&◌, ◌||◌, Option, none, some, List, [], ◌∷◌,
  ◌++◌, map, arith, ltb, leb, if◌then◌else◌, ltb→lt, lt→ltb, leb→le, le→leb, Bool-cases,
  Option-cases, HasEq, ◌==◌, ==_iff, nat_eq, text_eq, bytes_eq, Bytes, ==_refl, ==_ne, length,
  get_elem?, take, filter, count, all, any, Result, ok, err, ◌>>=◌, ◌>>◌, guard, or_fail, commit,
  >>=-eq-ok, guard-ok, guard-true, or_fail-ok, Result-cases, ok_pair, ok_injective,
}
use wp_auto.Base.Text.{codes}
use wp_auto.Contracts.{McpScope, scope_eq}
use wp_auto.Grants.Resolve.{ExactRequest, GrantBinding, distinct}
use wp_auto.Provider.Words.{Word, words, scope_word, word_scope, scope_set}

-- The codes of a `GrantDiagnosticError` of the stage `grant_load`.
pub data Code : Type 0 where
  binding_mismatch account_mismatch client_mismatch resource_mismatch scope_mismatch : Code
  provider_missing lookup_failed : Code

-- A parameter of a request: it may be repeated.
pub data Parameter : Type 0 where
  absent : Parameter
  single : String → Parameter
  repeated : List String → Parameter

-- What is read of the request.
pub record Context : Type 0 where
  pub account_id : Option String
  pub client_id : Option String
  pub resource : Parameter
  pub scope : Parameter
  pub submitted : Option String

pub record Url : Type 0 where
  pub protocol : String
  pub hostname : String
  pub pathname : String
  pub username : String
  pub password : String
  pub hash : String
  pub search : String
  pub port : String
  pub href : String

-- What is read of a grant of the provider.
pub record ProviderGrant : Type 0 where
  pub jti : String
  pub account_id : String
  pub client_id : String
  pub resources : List String
  pub resource_scope : String → String
  pub oidc_scope : String
  pub oidc_claims : List String
  pub has_rar : Bool

-- A lookup that throws is an error.
pub data Thrown : Type 0 where
  thrown : Thrown

pub record Services : Type 0 where
  pub parse : String → Option Url
  pub is_active : String → Result Thrown Bool
  pub resolve_exact : ExactRequest → Result Thrown (Option GrantBinding)
  pub find_grant : String → Result Thrown (Option ProviderGrant)

-- `assertExactResource`
abbrev pub exact_url : Url → Bool
exact_url u =
    u.protocol == "https:"
    && (u.username == ""
        && (u.password == ""
            && (u.hash == "" && (u.search == "" && (u.port == "" || u.port == "443")))))

abbrev pub exact_resource : Option Url → Option String
exact_resource none = none
exact_resource (some u) = if exact_url u then some u.href else none

abbrev pub is_canonical : String → Option String → Bool
is_canonical resource none = false
is_canonical resource (some href) = href == resource

-- An array of one value is read as the value.
abbrev pub one_resource : Parameter → Option String
one_resource absent = none
one_resource (single r) = some r
one_resource (repeated (r ∷ [])) = some r
one_resource (repeated []) = none
one_resource (repeated (r ∷ q ∷ rs)) = none

abbrev pub text_of : Parameter → Option String
text_of (single t) = some t
text_of absent = none
text_of (repeated ts) = none

abbrev pub openid : Word
openid = codes "openid"

abbrev pub offline_access : Word
offline_access = codes "offline_access"

abbrev pub is_oidc : Word → Bool
is_oidc w = w == openid || w == offline_access

abbrev pub is_some {ℓ} : {A : Type ℓ} → Option A → Bool
is_some none = false
is_some (some x) = true

abbrev pub is_known : Word → Bool
is_known w = is_some (word_scope w) || is_oidc w

-- The requested scopes of the resource.
abbrev pub mcp_scopes : List Word → List McpScope
mcp_scopes [] = []
mcp_scopes (w ∷ ws) = let rest = mcp_scopes ws in prepend (word_scope w) rest
  where
    prepend : Option McpScope → List McpScope → List McpScope
    prepend none rest = rest
    prepend (some x) rest = x ∷ rest

abbrev pub scope_words : List McpScope → List Word
scope_words = map scope_word

-- A submitted consent is of the grant that is bound.
abbrev pub is_submitted : Option String → Option GrantBinding → Bool
is_submitted none found = true
is_submitted (some id) none = false
is_submitted (some id) (some b) = id == b.grant_id

abbrev pub looked_up {ℓ} : {A : Type ℓ} → Result Thrown A → Result Code A
looked_up (ok x) = ok x
looked_up (err e) = err lookup_failed

abbrev pub only_resource : String → List String → Bool
only_resource resource [] = false
only_resource resource (r ∷ []) = r == resource
only_resource resource (r ∷ q ∷ rs) = false

-- The scopes, claims and details of a grant of the provider.
abbrev pub is_scoped : String → GrantBinding → ProviderGrant → Bool
is_scoped resource b g =
    scope_set (words (codes (g.resource_scope resource))) == scope_set (scope_words b.scopes)
    && (all is_oidc (words (codes g.oidc_scope))
        && (all (λ c. c == "sub") g.oidc_claims && not g.has_rar))

unfoldable pub check_grant :
    String
    → String
    → String
    → Option String
    → GrantBinding
    → Option ProviderGrant
    → Result Code (Option ProviderGrant)
check_grant account client resource none b none = ok none
check_grant account client resource (some id) b none = err provider_missing
check_grant account client resource submitted b (some g) = do
  guard (g.jti == b.grant_id) binding_mismatch
  guard (g.account_id == account) account_mismatch
  guard (g.client_id == client) client_mismatch
  guard (only_resource resource g.resources) resource_mismatch
  guard (is_scoped resource b g) scope_mismatch
  ok (some g)

abbrev pub exact_request : String → String → String → List McpScope → ExactRequest
exact_request account client resource scopes = record {
  subject_id = account;
  client_id = client;
  resource = resource;
  scopes = distinct scopes;
}

-- `createResourceGrantLoader`
module _ (services : Services) where
  open services use {parse, is_active, resolve_exact, find_grant}

  unfoldable pub check_binding :
      String
      → String
      → String
      → List McpScope
      → Option String
      → Option GrantBinding
      → Result Code (Option ProviderGrant)
  unfolding check_grant
  check_binding account client resource scopes submitted none = ok none
  check_binding account client resource scopes submitted (some b) = do
    guard (b.subject_id == account) account_mismatch
    guard (b.client_id == client) client_mismatch
    guard (b.resource == resource) resource_mismatch
    guard (scope_set (scope_words b.scopes) == scope_set (scope_words scopes)) scope_mismatch
    g ← looked_up (find_grant b.grant_id)
    check_grant account client resource submitted b g

  abbrev pub find_binding :
      String → String → String → List McpScope → Result Code (Option GrantBinding)
  find_binding account client resource scopes = do
    live ← looked_up (is_active account)
    guard live account_mismatch
    looked_up (resolve_exact (exact_request account client resource scopes))

  unfoldable pub load : Context → Result Code (Option ProviderGrant)
  unfolding check_binding
  load ctx = do
    client ← or_fail ctx.client_id client_mismatch
    account ← or_fail ctx.account_id account_mismatch
    resource ← or_fail (one_resource ctx.resource) resource_mismatch
    guard (is_canonical resource (exact_resource (parse resource))) resource_mismatch
    scope ← or_fail (text_of ctx.scope) scope_mismatch
    guard (all is_known (words (codes scope))) scope_mismatch
    guard (ltb 0 (length (mcp_scopes (words (codes scope))))) scope_mismatch
    binding ← find_binding account client resource (mcp_scopes (words (codes scope)))
    guard (is_submitted ctx.submitted binding) binding_mismatch
    check_binding account client resource (mcp_scopes (words (codes scope))) ctx.submitted binding

abbrev pub inactivity_seconds : ℕ
inactivity_seconds = 2592000

abbrev pub absolute_seconds : ℕ
absolute_seconds = 7776000

-- `refreshTokenTtl`, with the time of the first issue if the token has one.
unfoldable pub refresh_ttl : Option ℕ → ℕ → ℕ
refresh_ttl issued now = capped (or_now issued + absolute_seconds - now)
  where
    or_now : Option ℕ → ℕ
    or_now none = now
    or_now (some t) = t

    capped : ℕ → ℕ
    capped r = if r == 0 then 1 else min inactivity_seconds r
