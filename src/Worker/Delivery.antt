-- ===== src/Worker/Delivery.antt =====
-- apps/authorization-service/src/revocation-worker.ts, `revocationEndpoint`, `sendPinnedHttpsRequest` and
-- `HttpsRevocationDelivery`: how a revocation is sent to a site. The parser of URLs, the
-- ranges of addresses, DNS and the events of a socket are parameters.
pub mod Safe
mod Tests
use wp_auto.Base.{
  ℕ, zero, suc, ◌+◌, ◌-◌, ◌*◌, ◌/◌, ◌%◌, ◌^◌, ◌≤◌, ◌<◌, min, max, String, ◌≡◌, refl, sym, ap, ◌∙◌,
  ◌≢◌, ◌↔◌, ◌⊎◌, inl, inr, Bool, true, false, not, ◌&&◌, ◌||◌, Option, none, some, List, [], ◌∷◌,
  map, arith, ltb, leb, if◌then◌else◌, ltb→lt, lt→ltb, leb→le, le→leb, Bool-cases, Option-cases,
  HasEq, ◌==◌, ==_iff, nat_eq, text_eq, bytes_eq, Bytes, ==_refl, ==_ne, length, get_elem?, take,
  filter, count, all, any, Result, ok, err, ◌>>=◌, ◌>>◌, guard, or_fail, commit, >>=-eq-ok,
  guard-ok, guard-true, or_fail-ok, Result-cases, ok_pair, ok_injective,
}
use Prim.Native.String.{◌++◌}
use wp_auto.Worker.{Thrown, delivery_failure, error}
use wp_auto.SiteProof.{Diagnostic, code_of}
use wp_auto.SiteRequest.Resource.{
  Urls, Refusal, not_a_url, invalid_resource, resource_port_not_allowed,
  resource_path_not_canonical, schema_refused, as_failure, canonicalize_resource,
}
use wp_auto.SiteRequest.Client.{resolve_public_addresses}
use wp_auto.SiteRequest.Client.{Network as Addresses, is_public as is_public_address}

-- The decimal digits of a number.
abbrev pub digit : ℕ → String
digit n =
    if n == 0
    then "0"
    else (if n == 1
        then "1"
        else (if n == 2
            then "2"
            else (if n == 3
                then "3"
                else (if n == 4
                    then "4"
                    else (if n == 5
                        then "5"
                        else (if n == 6
                            then "6"
                            else (if n == 7 then "7" else (if n == 8 then "8" else "9"))))))))

-- With at least as much fuel as the number has digits.
abbrev pub decimal : ℕ → ℕ → String
decimal zero n = ""
decimal (suc fuel) n =
    let front = decimal fuel (n / 10) in if ltb n 10 then digit n else front ++ digit (n % 10)

-- What is read of a URL.
pub record Url : Type 0 where
  pub hostname : String
  pub pathname : String

-- What happens to a request, in the order in which it happens.
pub data Event : Type 0 where
  responds : (status : Option ℕ) → Event
  times_out : Event
  fails : Thrown → Event

-- The library of URLs and the message of its schema's errors, the addresses, the resolver that the delivery
-- is made with, if it is made with one, and the bytes of a text. `events` are what happens to a request to a host and path, with a body, at a pinned address.
pub record Network : Type 0 where
  pub urls : Urls
  pub schema_message : String
  pub addresses : Addresses
  pub resolver : Option (String → Result Thrown (List String))
  pub utf8 : String → Bytes
  pub events : Url → Bytes → String → List Event

abbrev pub status_code : Option ℕ → ℕ
status_code none = 0
status_code (some n) = n

-- Status codes have at most five digits.
abbrev pub on_status : ℕ → Result Thrown (Unit {0})
on_status status =
    if status == 204 then ok tt else err (delivery_failure ("http." ++ decimal 5 status))

abbrev pub on_event : Event → Result Thrown (Unit {0})
on_event (responds status) = on_status (status_code status)
on_event times_out = err (error (some "ETIMEDOUT") "revocation_delivery_timeout")
on_event (fails e) = err e

-- The first event settles the promise; without one it is pending.
unfoldable pub settled : List Event → Option (Result Thrown (Unit {0}))
settled [] = none
settled (e ∷ es) = some (on_event e)

abbrev pub first_address : List String → Option String
first_address [] = none
first_address (a ∷ rest) = some a

abbrev pub max_bytes : ℕ
max_bytes = 16384

module _ (net : Network) where
  open net use {urls, schema_message, addresses, resolver, utf8, events}

  -- The errors of `canonicalizeResource`.
  abbrev pub thrown_for : Refusal → Thrown
  thrown_for not_a_url = error (some "ERR_INVALID_URL") "Invalid URL"
  thrown_for invalid_resource = error none "invalid_resource"
  thrown_for resource_port_not_allowed = error none "resource_port_not_allowed"
  thrown_for resource_path_not_canonical = error none "resource_path_not_canonical"
  thrown_for schema_refused = error none schema_message

  -- `PairingDiagnosticError`: its code is its message, too.
  abbrev pub thrown_as : Diagnostic → Thrown
  thrown_as d = error (some (code_of d)) (code_of d)

  -- `canonicalizeResource`, and `new URL` of its result.
  abbrev pub canonical : String → Result Thrown Url
  canonical resource = do
    href ← as_failure thrown_for (canonicalize_resource urls resource)
    url ← or_fail (urls.parse href) (thrown_for not_a_url)
    ok (record { hostname = url.hostname; pathname = url.pathname })

  abbrev pub is_public : String → Bool
  is_public address = is_public_address addresses address

  -- `options.resolve ?? resolvePublicAddresses`
  abbrev pub resolve_by :
      Option (String → Result Thrown (List String)) → String → Result Thrown (List String)
  resolve_by none hostname = as_failure thrown_as (resolve_public_addresses addresses hostname)
  resolve_by (some f) hostname = f hostname

  abbrev pub resolve : String → Result Thrown (List String)
  resolve hostname = resolve_by resolver hostname

  unfoldable pub revocation_endpoint : String → Result Thrown Url
  revocation_endpoint resource = do
    parsed ← canonical resource
    guard (parsed.pathname == "/wp-json/wp-auto/mcp") (error none "resource_path_not_supported")
    ok (record { hostname = parsed.hostname; pathname = "/wp-json/wp-auto/v1/revocations" })

  -- Where an event is sent to.
  unfoldable pub pinned : String → String → Result Thrown (Url × String)
  unfolding revocation_endpoint
  pinned resource compact = do
    guard (not (ltb max_bytes (length (utf8 compact)))) (error none "revocation_event_too_large")
    endpoint ← revocation_endpoint resource
    found ← resolve endpoint.hostname
    address ← or_fail (first_address found) (error none "unsafe_destination")
    guard (is_public address) (error none "unsafe_destination")
    ok (endpoint, address)

  abbrev pub requested : String → Result Thrown (Url × String) → Option (Result Thrown (Unit {0}))
  requested compact (err e) = some (err e)
  requested compact (ok (endpoint, address)) = settled (events endpoint (utf8 compact) address)

  unfoldable pub send : String → String → Option (Result Thrown (Unit {0}))
  unfolding pinned settled
  send resource compact = requested compact (pinned resource compact)
