-- ===== src/SiteRequest/Client.antt =====
-- packages/pairing/src/index.ts, `resolvePublicAddresses` and `HttpsSiteVerificationClient.verify`: which
-- address a site is asked at. The resolver, the ranges of addresses, the parser of URLs and the
-- request are parameters.
use wp_auto.Base.{
  ℕ, String, Bool, true, false, not, ◌&&◌, Option, none, some, List, [], ◌∷◌, ◌++◌, ltb,
  if◌then◌else◌, ◌==◌, nat_eq, text_eq, bytes_eq, length, filter, any, Result, ok, ◌>>=◌, ◌>>◌,
  guard, or_fail,
}
use Prim.Native.String.{compare}
use Prim.Native.Nat.{Ordering}
use wp_auto.SiteProof.{
  Diagnostic, dns_failed, destination_unsafe, Verified, Library, Expected, pairing,
  verify_site_proof,
}
use wp_auto.SiteRequest.{Response}
use wp_auto.SiteRequest.Resource.{Urls, Refusal, not_a_url, as_failure, canonicalize_resource}

-- The order of `sort()` on addresses, which are ASCII.
abbrev pub text_leb : String → String → Bool
text_leb a b = elim (compare a b) [ Ordering.gt ↦ false | _ ↦ true ]

abbrev pub insert_text : String → List String → List String
insert_text x [] = x ∷ []
insert_text x (y ∷ ys) =
    let further = y ∷ insert_text x ys in if text_leb x y then x ∷ y ∷ ys else further

abbrev pub sort_texts : List String → List String
sort_texts [] = []
sort_texts (x ∷ xs) = insert_text x (sort_texts xs)

-- `[...new Set(xs)]`
abbrev pub distinct : List String → List String
distinct [] = []
distinct (x ∷ xs) = x ∷ filter (λ y. not (y == x)) (distinct xs)

-- What a rejected promise leaves: `[]`.
abbrev pub or_nothing : Option (List String) → List String
or_nothing none = []
or_nothing (some xs) = xs

-- `isIP(text) !== 0`, `isPublicAddress`, and the answers of DNS for the two families.
pub record Network : Type 0 where
  pub is_ip : String → Bool
  pub in_unicast : String → Bool
  pub resolve4 : String → Option (List String)
  pub resolve6 : String → Option (List String)

module _ (net : Network) where
  open net use {is_ip, in_unicast, resolve4, resolve6}

  abbrev pub is_public : String → Bool
  is_public address = is_ip address && in_unicast address

  abbrev pub answers : String → List String
  answers hostname = distinct (or_nothing (resolve4 hostname) ++ or_nothing (resolve6 hostname))

  unfoldable pub resolve_public_addresses : String → Result Diagnostic (List String)
  resolve_public_addresses hostname =
      let literal = guard (is_public hostname) destination_unsafe >> ok (hostname ∷ []) in
      let resolved = (do
        guard (ltb 0 (length (answers hostname))) dns_failed
        guard (not (any (λ a. not (is_public a)) (answers hostname))) destination_unsafe
        ok (sort_texts (answers hostname))) in
      if is_ip hostname then literal else resolved

-- `SiteVerificationRequest`, and what is read of its canonical resource.
pub record SiteInput : Type 0 where
  pub resource : String
  pub platform_issuer : String
  pub tenant_id : String
  pub pairing_attempt_id : String
  pub site_id : String
  pub platform_signing_key_pem : String
  pub platform_signing_kid : String
  pub verifier : String
  pub challenge : String

pub record Resource : Type 0 where
  pub href : String
  pub origin : String
  pub hostname : String

-- What a verification throws.
pub data Failure : Type 0 where
  diagnosed : Diagnostic → Failure
  not_a_resource : Refusal → Failure

-- The library of URLs, the resolver (an option of the client, `resolve_public_addresses` by default), the
-- digest of a key, the request at a pinned address, of which the body is a function of the input, and
-- the time.
pub record Services : Type 0 where
  pub urls : Urls
  pub resolve : String → Result Diagnostic (List String)
  pub sha256_base64url : String → String
  pub request : String → SiteInput → String → Result Diagnostic Response
  pub now : ℕ

abbrev pub first_address : List String → Option String
first_address [] = none
first_address (a ∷ _) = some a

module _ (net : Network) (services : Services) (lib : Library) where
  open services use {urls, resolve, sha256_base64url, request, now}

  -- `canonicalizeResource`, and `new URL` of its result.
  abbrev pub canonical : String → Result Refusal Resource
  canonical resource = do
    href ← canonicalize_resource urls resource
    url ← or_fail (urls.parse href) not_a_url
    ok (record { href = href; origin = url.origin; hostname = url.hostname })

  abbrev pub expected_of : SiteInput → Resource → Expected
  expected_of input place = record {
    kind = pairing;
    platform_issuer = input.platform_issuer;
    tenant_id = input.tenant_id;
    resource = place.href;
    hostname = place.hostname;
    challenge = input.challenge;
    pairing_attempt_id = some input.pairing_attempt_id;
    site_id = some input.site_id;
    platform_signing_key_sha256 = some (sha256_base64url input.platform_signing_key_pem);
    platform_signing_kid = some input.platform_signing_kid;
    grant_id = none;
    client_id = none;
    subject_id = none;
    scopes = none;
    decision = none;
    now = now;
  }

  -- Where a site is asked: its endpoint and the address that is pinned.
  unfoldable pub pinned : SiteInput → Result Failure (Resource × String)
  pinned input = do
    place ← as_failure not_a_resource (canonical input.resource)
    addresses ← as_failure diagnosed (resolve place.hostname)
    address ← or_fail (first_address addresses) (diagnosed dns_failed)
    guard (is_public net address) (diagnosed destination_unsafe)
    ok (place, address)

  unfoldable pub verify : SiteInput → Result Failure Verified
  unfolding pinned
  verify input = do
    at ← pinned input
    response ← as_failure diagnosed (request at.0.origin input at.1)
    as_failure diagnosed
        (verify_site_proof lib response.proof response.public_jwk (expected_of input at.0))
