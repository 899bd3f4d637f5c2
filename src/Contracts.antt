-- ===== src/Contracts.antt =====
-- packages/contracts/src/index.ts: identifiers, and the sets of scopes that a grant may carry.
pub mod Canonical
mod Tests
use wp_auto.Base.{
  ℕ, zero, suc, ◌+◌, ◌-◌, ◌*◌, ◌/◌, ◌%◌, ◌^◌, ◌≤◌, ◌<◌, min, max, String, ◌≡◌, refl, sym, ap, ◌∙◌,
  ◌≢◌, ◌↔◌, ◌⊎◌, inl, inr, Bool, true, false, not, ◌&&◌, ◌||◌, Option, none, some, List, [], ◌∷◌,
  ◌++◌, map, arith, ltb, leb, if◌then◌else◌, ltb→lt, lt→ltb, leb→le, le→leb, Bool-cases,
  Option-cases, HasEq, ◌==◌, ==_iff, nat_eq, text_eq, bytes_eq, Bytes, ==_refl, ==_ne, length,
  get_elem?, take, filter, count, all, any, Result, ok, err, ◌>>=◌, ◌>>◌, guard, or_fail, commit,
  >>=-eq-ok, guard-ok, guard-true, or_fail-ok, Result-cases, ok_pair, ok_injective,
}
use wp_auto.Base.Text.{is_word, is_upper, is_lower, is_digit, matches}

-- `OpaqueIdSchema`
abbrev pub is_opaque_id : String → Bool
is_opaque_id = matches is_word 8 128

-- `OAuthClientIdSchema`: /^[A-Za-z0-9._~-]+$/u of 8 to 256 characters.
abbrev pub is_client_id : String → Bool
is_client_id =
    matches
      (λ c.
        is_upper c
        || (is_lower c || (is_digit c || (c == b'.' || (c == b'_' || (c == b'~' || c == b'-'))))))
      8 256

-- `McpScopeSchema`
pub data McpScope : Type 0 where
  mcp_read mcp_content_write mcp_media_write mcp_taxonomy_write mcp_seo_write : McpScope

-- `MCP_SCOPE_ORDER.indexOf`
abbrev pub scope_index : McpScope → ℕ
scope_index mcp_read = 0
scope_index mcp_content_write = 1
scope_index mcp_media_write = 2
scope_index mcp_taxonomy_write = 3
scope_index mcp_seo_write = 4

abbrev pub same_scope : McpScope → McpScope → Bool
same_scope a b = scope_index a == scope_index b

pub same_scope_iff : (a b : McpScope) → (same_scope a b ≡ true) ↔ (a ≡ b)
same_scope_iff a b = ground arith

instance abbrev pub scope_eq : HasEq McpScope
scope_eq = record { same = same_scope; same_iff = same_scope_iff }

-- `new Set(scopes).size`
abbrev pub set_size : List McpScope → ℕ
set_size [] = 0
set_size (s ∷ ss) = (if any (λ t. t == s) ss then 0 else 1) + set_size ss

-- Every scope but the first comes after the previous one.
abbrev pub in_order : List McpScope → Bool
in_order [] = true
in_order (s ∷ []) = true
in_order (s ∷ t ∷ ss) = ltb (scope_index s) (scope_index t) && in_order (t ∷ ss)

-- `McpScopeSetSchema`
abbrev pub is_scope_set : List McpScope → Bool
is_scope_set scopes =
    leb 1 (length scopes)
    && (leb (length scopes) 5 && (set_size scopes == length scopes && in_order scopes))
