-- ===== src/SiteRequest.antt =====
-- packages/pairing/src/index.ts: how a site is asked for its proof. `requestSiteProof` is a state
-- machine over the events of its HTTPS request; `resolvePublicAddresses` and
-- `HttpsSiteVerificationClient.verify` decide which address it may connect to. Sockets, the resolver,
-- the ranges of addresses, URLs and the JSON parser are parameters.
pub mod Settle
pub mod Resource
pub mod Client
pub mod Addresses
mod Tests
use wp_auto.Base.{
  ℕ, zero, suc, ◌+◌, ◌-◌, ◌*◌, ◌/◌, ◌%◌, ◌^◌, ◌≤◌, ◌<◌, min, max, String, ◌≡◌, refl, sym, ap, ◌∙◌,
  ◌≢◌, ◌↔◌, ◌⊎◌, inl, inr, Bool, true, false, not, ◌&&◌, ◌||◌, Option, none, some, List, [], ◌∷◌,
  ◌++◌, map, arith, ltb, leb, if◌then◌else◌, ltb→lt, lt→ltb, leb→le, le→leb, Bool-cases,
  Option-cases, HasEq, ◌==◌, ==_iff, nat_eq, text_eq, bytes_eq, Bytes, ==_refl, ==_ne, length,
  get_elem?, take, filter, count, all, any, Result, ok, err, ◌>>=◌, ◌>>◌, guard, or_fail, commit,
  >>=-eq-ok, guard-ok, guard-true, or_fail-ok, Result-cases, ok_pair, ok_injective,
}
use wp_auto.Base.Text.{codes}
use Prim.Native.String.{compare}
use Prim.Native.Nat.{Ordering}
use wp_auto.SiteProof.{
  Diagnostic, dns_failed, destination_unsafe, network_failed, network_timeout, tls_failed, http_401,
  http_403, http_429, http_4xx, http_5xx, http_other, content_type_invalid, too_large, json_invalid,
  schema_invalid, Verified, Library, Expected, max_bytes, verify_site_proof, pairing,
}

-- The answer of a site: a proof and a key, still as texts.
pub record Response : Type 0 where
  pub proof : String
  pub public_jwk : String

-- `httpDiagnostic`
abbrev pub http_diagnostic : ℕ → Diagnostic
http_diagnostic status =
    if status == 401
    then http_401
    else if status == 403
    then http_403
    else if status == 429
    then http_429
    else if leb 400 status && ltb status 500
    then http_4xx
    else if leb 500 status && ltb status 600
    then http_5xx
    else http_other

abbrev pub tls_error_codes : List String
tls_error_codes =
    "CERT_HAS_EXPIRED" ∷ "CERT_NOT_YET_VALID" ∷ "DEPTH_ZERO_SELF_SIGNED_CERT"
    ∷ "ERR_TLS_CERT_ALTNAME_INVALID" ∷ "SELF_SIGNED_CERT_IN_CHAIN" ∷ "UNABLE_TO_GET_ISSUER_CERT"
    ∷ "UNABLE_TO_GET_ISSUER_CERT_LOCALLY" ∷ "UNABLE_TO_VERIFY_LEAF_SIGNATURE" ∷ []

-- `text.startsWith(prefix)` on code points.
abbrev pub is_prefix : List ℕ → List ℕ → Bool
is_prefix [] cs = true
is_prefix (p ∷ ps) [] = false
is_prefix (p ∷ ps) (c ∷ cs) = p == c && is_prefix ps cs

abbrev pub starts_with : String → String → Bool
starts_with prefix s = is_prefix (codes prefix) (codes s)

-- An error of a request: one of this module, or another with a code, if it has one.
pub data RequestError : Type 0 where
  known : Diagnostic → RequestError
  unknown : Option String → RequestError

-- `networkDiagnostic`
unfoldable pub network_diagnostic : RequestError → Diagnostic
network_diagnostic (known d) = d
network_diagnostic (unknown none) = network_failed
network_diagnostic (unknown (some code)) =
    if any (λ c. c == code) tls_error_codes
      || (starts_with "ERR_SSL_" code || starts_with "ERR_TLS_" code)
    then tls_failed
    else network_failed

-- What happens to a request, in the order in which it happens.
pub data Event : Type 0 where
  responds : (status : ℕ) → (is_json : Bool) → Event
  receives : (chunk : Bytes) → Event
  ends : Event
  times_out : Event
  fails : RequestError → Event

-- Which listeners are attached: none before the response, none on a response that is not read.
pub data Phase : Type 0 where
  waiting ignoring : Phase
  reading : (size : ℕ) → (body : Bytes) → Phase

pub record Request : Type 0 where
  pub phase : Phase
  pub settled : Option (Result Diagnostic Response)

abbrev pub started : Request
started = record { phase = waiting; settled = none }

-- `succeed` and `fail`: the first one counts.
abbrev pub settle :
    Result Diagnostic Response
    → Option (Result Diagnostic Response)
    → Option (Result Diagnostic Response)
settle r none = some r
settle r (some old) = some old

-- `JSON.parse` of the body, `none` where it throws, and the schema of the answer.
pub record Parser (Json : Type 0) : Type 0 where
  pub json_of : Bytes → Option Json
  pub response_of : Json → Option Response

module _ {Json : Type 0} (parser : Parser Json) where
  open parser use {json_of, response_of}

  abbrev pub checked : Option Json → Result Diagnostic Response
  checked none = err json_invalid
  checked (some json) = or_fail (response_of json) schema_invalid

  abbrev pub parse : Bytes → Result Diagnostic Response
  parse body = checked (json_of body)

  abbrev pub respond : ℕ → Bool → Request → Request
  respond status is_json s =
      if not (status == 200)
      then record { phase = ignoring; settled = settle (err (http_diagnostic status)) s.settled }
      else if not is_json
      then record { phase = ignoring; settled = settle (err content_type_invalid) s.settled }
      else record { phase = reading 0 []; settled = s.settled }

  abbrev pub receive : Bytes → ℕ → Bytes → Request → Request
  receive chunk size body s =
      if ltb max_bytes (size + length chunk)
      then record {
        phase = reading (size + length chunk) body;
        settled = settle (err too_large) s.settled;
      }
      else record s { phase = reading (size + length chunk) (body ++ chunk) }

  abbrev pub on_event : Event → Phase → Request → Request
  on_event (responds status is_json) waiting s = respond status is_json s
  on_event (responds status is_json) ignoring s = s
  on_event (responds status is_json) (reading size body) s = s
  on_event (receives chunk) waiting s = s
  on_event (receives chunk) ignoring s = s
  on_event (receives chunk) (reading size body) s = receive chunk size body s
  on_event ends waiting s = s
  on_event ends ignoring s = s
  on_event ends (reading size body) s = record s { settled = settle (parse body) s.settled }
  on_event times_out phase s = record s { settled = settle (err network_timeout) s.settled }
  on_event (fails e) phase s = record s { settled = settle (err (network_diagnostic e)) s.settled }

  unfoldable pub step : Request → Event → Request
  unfolding network_diagnostic
  step s e = on_event e s.phase s

  unfoldable pub request_site_proof : Request → List Event → Request
  unfolding step
  request_site_proof s [] = s
  request_site_proof s (e ∷ es) = request_site_proof (step s e) es
