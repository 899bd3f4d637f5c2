-- ===== src/SiteRequest/Tests.antt =====
-- The request of a proof on concrete events and networks, and the theorems at them.
use wp_auto.Base.{
  ℕ, String, ◌≡◌, refl, inl, inr, true, ◌||◌, none, some, List, [], ◌∷◌, if◌then◌else◌, Bool-cases,
  ◌==◌, ==_iff, nat_eq, text_eq, bytes_eq, length, any, ok, err,
}
use wp_auto.SiteProof.{network_timeout, Verified, pairing, Claims, Jwk, Library}
use wp_auto.SiteRequest.{
  Response, Event, responds, receives, ends, times_out, waiting, Parser, started,
  request_site_proof, step, Request,
}
use wp_auto.SiteRequest.Settle.{settled_once, answer_bounded, is_readable, ReadFrom}
use wp_auto.SiteRequest.Client.{
  Network, Services, SiteInput, Resource, verify, resolve_public_addresses, is_public,
}
use wp_auto.SiteRequest.Resource.{Url, Urls}
use wp_auto.SiteRequest.Addresses.{asks_public_only}

abbrev response : Response
response = record { proof = "proof"; public_jwk = "key" }

abbrev parser : Parser ℕ
parser = record { json_of = λ body. some (length body); response_of = λ json. some response }

abbrev good : List Event
good = responds 200 true ∷ receives (1 ∷ 2 ∷ []) ∷ receives (3 ∷ []) ∷ ends ∷ times_out ∷ []

answered : (request_site_proof parser started good).settled ≡ some (ok response)
unfolding request_site_proof step
answered = refl

answer_bounded_example : (any is_readable good ≡ true) × ReadFrom parser response
answer_bounded_example = answer_bounded parser good response answered

abbrev late : Request
late = record { phase = waiting; settled = some (err network_timeout) }

settled_once_example : (request_site_proof parser late good).settled ≡ some (err network_timeout)
settled_once_example = settled_once parser late good (err network_timeout) refl

-- One name with a public address and one with a private one.
abbrev net : Network
net = record {
  is_ip = λ s. s == "93.184.216.34" || s == "10.0.0.1";
  in_unicast = λ s. s == "93.184.216.34";
  resolve4 = λ host.
      if host == "site.example"
      then some ("93.184.216.34" ∷ [])
      else some ("93.184.216.34" ∷ "10.0.0.1" ∷ []);
  resolve6 = λ host. none;
}

resolves : resolve_public_addresses net "site.example" ≡ ok ("93.184.216.34" ∷ [])
unfolding resolve_public_addresses
resolves = refl

abbrev addresses : List String
addresses = "93.184.216.34" ∷ []

abbrev claims : Claims
claims = record {
  kind = pairing;
  iss = "site.example";
  platform_issuer = "https://auth";
  tenant_id = "tenant";
  site_id = some "site";
  pairing_attempt_id = some "attempt";
  platform_signing_key_sha256 = some "digest";
  platform_signing_kid = some "kid";
  grant_id = none;
  subject_id = none;
  client_id = none;
  resource = "https://site.example/mcp";
  aud = none;
  scope = none;
  decision = none;
  challenge = "challenge";
  iat = 1000;
  exp = 1060;
}

abbrev jwk : Jwk
jwk = record { x = "x"; kid = "site-key" }

abbrev lib : Library
lib = record {
  byte_length = λ s. 100;
  import_key = λ s. some jwk;
  header_of = λ s. some (record {
    members = "alg" ∷ "typ" ∷ "kid" ∷ [];
    alg = "EdDSA";
    typ = "wepuu-site-proof+jwt";
    kid = "site-key";
  });
  payload_of = λ proof key. some "payload";
  claims_of = λ payload. some claims;
  thumbprint_of = λ key. "thumbprint";
}

abbrev place : Resource
place = record {
  href = "https://site.example/mcp";
  origin = "https://site.example";
  hostname = "site.example";
}

abbrev url : Url
url = record {
  protocol = "https:";
  username = "";
  password = "";
  search = "";
  hash = "";
  port = "";
  hostname = "site.example";
  pathname = "/mcp";
  origin = "https://site.example";
  href = "https://site.example/mcp";
}

abbrev urls : Urls
urls = record {
  parse = λ s. if s == "https://site.example/mcp" then some url else none;
  set_hostname = λ host u. record u { hostname = host };
  set_port = λ port u. record u { port = port };
  lower_case = λ s. s;
  is_url = λ s. true;
}

abbrev services : Services
services = record {
  urls = urls;
  resolve = λ host. ok ("93.184.216.34" ∷ []);
  sha256_base64url = λ s. "digest";
  request = λ origin input address. ok response;
  now = 1030;
}

abbrev input : SiteInput
input = record {
  resource = "https://site.example/mcp";
  platform_issuer = "https://auth";
  tenant_id = "tenant";
  pairing_attempt_id = "attempt";
  site_id = "site";
  platform_signing_key_pem = "pem";
  platform_signing_kid = "kid";
  verifier = "verifier";
  challenge = "challenge";
}

abbrev verified : Verified
verified = record { claims = claims; public_jwk = jwk; thumbprint = "thumbprint" }

asks_public_only_example :
    verify net services lib input
    ≡ verify net
        (record services {
          request = λ origin i address.
              if address == "10.0.0.1" then err network_timeout else ok response;
        })
        lib
        input
asks_public_only_example =
    asks_public_only net services lib
      (λ origin i address. if address == "10.0.0.1" then err network_timeout else ok response) input
      public_same
  where
    public_same :
        (origin : String)
        → (i : SiteInput) → (address : String) → is_public net address ≡ true
        → ok response ≡ (if address == "10.0.0.1" then err network_timeout else ok response)
    public_same origin i address e = elim (Bool-cases (address == "10.0.0.1")) [
      | inr other ↦ rw other refl
      | inl private ↦
          let same = (==_iff address "10.0.0.1").0 private in
          let no_public : is_public net "10.0.0.1" ≡ true = rw same at e in cc
    ]
