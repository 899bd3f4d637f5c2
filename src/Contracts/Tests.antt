-- ===== src/Contracts/Tests.antt =====
-- Sets of scopes on concrete lists.
use wp_auto.Base.{◌≡◌, refl, false, List, [], ◌∷◌, nat_eq, text_eq, bytes_eq}
use wp_auto.Contracts.{McpScope, mcp_read, mcp_seo_write, mcp_media_write, is_scope_set, scope_eq}
use wp_auto.Contracts.Canonical.{scope_set_unique}

abbrev scopes : List McpScope
scopes = mcp_read ∷ mcp_media_write ∷ []

out_of_order : is_scope_set (mcp_seo_write ∷ mcp_read ∷ []) ≡ false
out_of_order = refl

repeated : is_scope_set (mcp_read ∷ mcp_read ∷ []) ≡ false
repeated = refl

scope_set_unique_example : mcp_read ∷ mcp_media_write ∷ [] ≡ scopes
scope_set_unique_example = scope_set_unique scopes scopes refl refl λ u. refl
