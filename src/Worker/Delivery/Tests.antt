-- ===== src/Worker/Delivery/Tests.antt =====
-- A delivery on concrete inputs, and the theorem at them.
use wp_auto.Base.{
  true, ◌||◌, if◌then◌else◌, ◌≡◌, refl, none, some, [], ◌∷◌, nat_eq, text_eq, ◌==◌, ok, err,
}
use wp_auto.Worker.{delivery_failure, error}
use wp_auto.Worker.Delivery.{
  Network, responds, times_out, settled, revocation_endpoint, pinned, send,
}
use wp_auto.SiteRequest.Resource.{Url, Urls}
use wp_auto.SiteRequest.Client.{resolve_public_addresses}
use wp_auto.Worker.Delivery.Safe.{Delivers, send-Delivers}

abbrev url : Url
url = record {
  protocol = "https:";
  username = "";
  password = "";
  search = "";
  hash = "";
  port = "";
  hostname = "site.example";
  pathname = "/wp-json/wp-auto/mcp";
  origin = "https://site.example";
  href = "https://site.example/wp-json/wp-auto/mcp";
}

abbrev urls : Urls
urls = record {
  parse = λ s. if s == "https://site.example/wp-json/wp-auto/mcp" then some url else none;
  set_hostname = λ host u. record u { hostname = host };
  set_port = λ port u. record u { port = port };
  lower_case = λ s. s;
  is_url = λ s. true;
}

abbrev net : Network
net = record {
  urls = urls;
  schema_message = "invalid";
  addresses = record {
    is_ip = λ a. a == "203.0.113.7" || a == "127.0.0.1";
    in_unicast = λ a. a == "203.0.113.7";
    resolve4 = λ h. some ("203.0.113.7" ∷ []);
    resolve6 = λ h. none;
  };
  resolver = none;
  utf8 = λ s. 1 ∷ [];
  events = λ u body a. responds (some 204) ∷ times_out ∷ [];
}

delivered : send net "https://site.example/wp-json/wp-auto/mcp" "jws" ≡ some (ok tt)
unfolding send pinned revocation_endpoint settled resolve_public_addresses
delivered = refl

refused :
    send
      (record net { events = λ u body a. responds (some 503) ∷ [] })
      "https://site.example/wp-json/wp-auto/mcp"
      "jws"
    ≡ some (err (delivery_failure "http.503"))
unfolding send pinned revocation_endpoint settled resolve_public_addresses
refused = refl

private_address :
    send
      (record net { resolver = some λ h. ok ("127.0.0.1" ∷ []) })
      "https://site.example/wp-json/wp-auto/mcp"
      "jws"
    ≡ some (err (error none "unsafe_destination"))
unfolding send pinned revocation_endpoint settled resolve_public_addresses
private_address = refl

send-Delivers_example : Delivers net "https://site.example/wp-json/wp-auto/mcp" "jws"
send-Delivers_example = send-Delivers net "https://site.example/wp-json/wp-auto/mcp" "jws" delivered
