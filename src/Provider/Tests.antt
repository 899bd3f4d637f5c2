-- ===== src/Provider/Tests.antt =====
-- The authorization server's loader and redirects on concrete inputs, and the theorems at them.
use wp_auto.Base.{
  ◌≤◌, String, ◌≡◌, refl, true, false, Option, none, some, List, [], ◌∷◌, nat_eq, text_eq, bytes_eq,
  ok, err, count, arith, if◌then◌else◌, ◌==◌,
}
use wp_auto.Contracts.{mcp_read, mcp_seo_write, scope_eq}
use wp_auto.Grants.Resolve.{GrantBinding}
use wp_auto.Provider.{
  Url, Context, Services, ProviderGrant, single, account_mismatch, provider_missing,
  resource_mismatch, check_grant, check_binding, load,
}
use wp_auto.Provider.Loaded.{Loads, load-Loads}
use wp_auto.Provider.Loopback.{allow_port, is_variant, includes, run_ports}
use wp_auto.Provider.Loopback.Bounded.{ports_bounded}

abbrev site_url : Url
site_url = record {
  protocol = "https:";
  hostname = "site.example";
  pathname = "/mcp";
  username = "";
  password = "";
  hash = "";
  search = "";
  port = "";
  href = "https://site.example/mcp";
}

abbrev bound : GrantBinding
bound = record {
  tenant_id = "tenant";
  site_id = "site";
  grant_id = "grant";
  subject_id = "account";
  client_id = "client";
  resource = "https://site.example/mcp";
  scopes = mcp_read ∷ mcp_seo_write ∷ [];
}

abbrev held : ProviderGrant
held = record {
  jti = "grant";
  account_id = "account";
  client_id = "client";
  resources = "https://site.example/mcp" ∷ [];
  resource_scope = λ r. "mcp:seo.write mcp:read";
  oidc_scope = "openid offline_access";
  oidc_claims = "sub" ∷ [];
  has_rar = false;
}

abbrev services : Services
services = record {
  parse = λ s. some site_url;
  is_active = λ a. ok true;
  resolve_exact = λ i. ok (some bound);
  find_grant = λ id. ok (some held);
}

abbrev ctx : Context
ctx = record {
  account_id = some "account";
  client_id = some "client";
  resource = single "https://site.example/mcp";
  scope = single "openid mcp:read  mcp:seo.write offline_access";
  submitted = some "grant";
}

loads : load services ctx ≡ ok (some held)
unfolding load check_binding check_grant
loads = refl

inactive : load (record services { is_active = λ a. ok false }) ctx ≡ err account_mismatch
unfolding load check_binding check_grant
inactive = refl

missing : load (record services { find_grant = λ id. ok none }) ctx ≡ err provider_missing
unfolding load check_binding check_grant
missing = refl

other_resource :
    load services (record ctx { resource = single "https://site.example/mcp/" })
    ≡ err resource_mismatch
unfolding load check_binding check_grant
other_resource = refl

load-Loads_example : Loads services ctx held
load-Loads_example = load-Loads services ctx held loads

-- A parser for the addresses of the tests.
abbrev local_url : String → Url
local_url port = record {
  protocol = "http:";
  hostname = "127.0.0.1";
  pathname = "/callback";
  username = "";
  password = "";
  hash = "";
  search = "";
  port = port;
  href = "";
}

abbrev parse : String → Option Url
parse s = some (local_url (if s == "registered" then "" else s))

abbrev asked : List String
asked = "1" ∷ "2" ∷ []

two_ports : run_ports parse asked ("registered" ∷ []) ≡ "registered" ∷ "1" ∷ "2" ∷ []
unfolding allow_port
two_ports = refl

ports_bounded_example :
    (count
        (is_variant parse (run_ports parse asked ("registered" ∷ [])))
        (run_ports parse asked ("registered" ∷ []))
      ≤ 8)
    × (includes "registered" (run_ports parse asked ("registered" ∷ [])) ≡ true)
ports_bounded_example =
    ports_bounded parse asked ("registered" ∷ []) "registered" (omega arith) refl refl
