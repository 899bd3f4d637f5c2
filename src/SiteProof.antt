-- ===== src/SiteProof.antt =====
-- packages/pairing/src/index.ts: the proof that a site signs, and what `verifySiteProof` checks of it.
-- Reading a key, a header and a payload, checking a signature and the thumbprint are parameters: they
-- are libraries. Times are seconds; a claim with a negative time would fail the same tests.
pub mod Bound
mod Tests
use wp_auto.Base.{
  ℕ, zero, suc, ◌+◌, ◌-◌, ◌*◌, ◌/◌, ◌%◌, ◌^◌, ◌≤◌, ◌<◌, min, max, String, ◌≡◌, refl, sym, ap, ◌∙◌,
  ◌≢◌, ◌↔◌, ◌⊎◌, inl, inr, Bool, true, false, not, ◌&&◌, ◌||◌, Option, none, some, List, [], ◌∷◌,
  ◌++◌, map, arith, ltb, leb, if◌then◌else◌, ltb→lt, lt→ltb, leb→le, le→leb, Bool-cases,
  Option-cases, HasEq, ◌==◌, ==_iff, nat_eq, text_eq, bytes_eq, Bytes, ==_refl, ==_ne, length,
  get_elem?, take, filter, count, all, any, Result, ok, err, ◌>>=◌, ◌>>◌, guard, or_fail, commit,
  >>=-eq-ok, guard-ok, guard-true, or_fail-ok, Result-cases, ok_pair, ok_injective,
}
use wp_auto.Base.Options.{is_none, same_option}
use wp_auto.Contracts.{McpScope, scope_eq}

-- `PairingDiagnosticCode`, by stage.
pub data Diagnostic : Type 0 where
  dns_failed destination_unsafe network_failed network_timeout tls_failed : Diagnostic
  http_401 http_403 http_429 http_4xx http_5xx http_other : Diagnostic
  content_type_invalid too_large json_invalid schema_invalid : Diagnostic
  key_invalid signature_invalid header_invalid claims_invalid : Diagnostic
  state_invalid tenant_access_denied persistence_failed unknown : Diagnostic

abbrev pub code_of : Diagnostic → String
code_of dns_failed = "dns.failed"
code_of destination_unsafe = "destination.unsafe"
code_of network_failed = "network.failed"
code_of network_timeout = "network.timeout"
code_of tls_failed = "tls.failed"
code_of http_401 = "http.401"
code_of http_403 = "http.403"
code_of http_429 = "http.429"
code_of http_4xx = "http.4xx"
code_of http_5xx = "http.5xx"
code_of http_other = "http.other"
code_of content_type_invalid = "response.content_type_invalid"
code_of too_large = "response.too_large"
code_of json_invalid = "response.json_invalid"
code_of schema_invalid = "response.schema_invalid"
code_of key_invalid = "proof.key_invalid"
code_of signature_invalid = "proof.signature_invalid"
code_of header_invalid = "proof.header_invalid"
code_of claims_invalid = "proof.claims_invalid"
code_of state_invalid = "pairing.state_invalid"
code_of tenant_access_denied = "pairing.tenant_access_denied"
code_of persistence_failed = "pairing.persistence_failed"
code_of unknown = "unknown"

pub data Kind : Type 0 where
  pairing consent : Kind

pub data Decision : Type 0 where
  approved denied : Decision

abbrev pub kind_index : Kind → ℕ
kind_index pairing = 0
kind_index consent = 1

abbrev pub decision_index : Decision → ℕ
decision_index approved = 0
decision_index denied = 1

pub same_kind_iff : (a b : Kind) → ((kind_index a == kind_index b) ≡ true) ↔ (a ≡ b)
same_kind_iff a b = ground arith

pub same_decision_iff : (a b : Decision) → ((decision_index a == decision_index b) ≡ true) ↔ (a ≡ b)
same_decision_iff a b = ground arith

instance abbrev pub kind_eq : HasEq Kind
kind_eq = record { same = λ a b. kind_index a == kind_index b; same_iff = same_kind_iff }

instance abbrev pub decision_eq : HasEq Decision
decision_eq = record {
  same = λ a b. decision_index a == decision_index b;
  same_iff = same_decision_iff;
}

-- `SitePublicJwk`: the key and its id; the other members are fixed by the schema.
pub record Jwk : Type 0 where
  pub x : String
  pub kid : String

-- `SiteProofClaims`
pub record Claims : Type 0 where
  pub kind : Kind
  pub iss : String
  pub platform_issuer : String
  pub tenant_id : String
  pub site_id : Option String
  pub pairing_attempt_id : Option String
  pub platform_signing_key_sha256 : Option String
  pub platform_signing_kid : Option String
  pub grant_id : Option String
  pub subject_id : Option String
  pub client_id : Option String
  pub resource : String
  pub aud : Option String
  pub scope : Option (List McpScope)
  pub decision : Option Decision
  pub challenge : String
  pub iat : ℕ
  pub exp : ℕ

-- `ExpectedSiteProof`, with the host of its resource and the time in seconds.
pub record Expected : Type 0 where
  pub kind : Kind
  pub platform_issuer : String
  pub tenant_id : String
  pub resource : String
  pub hostname : String
  pub challenge : String
  pub pairing_attempt_id : Option String
  pub site_id : Option String
  pub platform_signing_key_sha256 : Option String
  pub platform_signing_kid : Option String
  pub grant_id : Option String
  pub client_id : Option String
  pub subject_id : Option String
  pub scopes : Option (List McpScope)
  pub decision : Option Decision
  pub now : ℕ

-- The protected header: its members in order, and three of them.
pub record Header : Type 0 where
  pub members : List String
  pub alg : String
  pub typ : String
  pub kid : String

pub record Verified : Type 0 where
  pub claims : Claims
  pub public_jwk : Jwk
  pub thumbprint : String

-- `SitePublicJwkSchema` with `importJWK`, `decodeProtectedHeader`, `compactVerify`, the schema of the
-- claims and the thumbprint.
pub record Library : Type 0 where
  pub byte_length : String → ℕ
  pub import_key : String → Option Jwk
  pub header_of : String → Option Header
  pub payload_of : String → Jwk → Option String
  pub claims_of : String → Option Claims
  pub thumbprint_of : Jwk → String

abbrev pub max_bytes : ℕ
max_bytes = 16384

abbrev pub ttl_seconds : ℕ
ttl_seconds = 60

abbrev pub is_header : Jwk → Header → Bool
is_header jwk h =
    same_names h.members
    && (h.alg == "EdDSA" && (h.typ == "wepuu-site-proof+jwt" && h.kid == jwk.kid))
  where
    -- Object.keys(header).sort().join(',') === 'alg,kid,typ'
    same_names : List String → Bool
    same_names names =
        length names == 3
        && (any (λ n. n == "alg") names
            && (any (λ n. n == "kid") names && any (λ n. n == "typ") names))

abbrev pub is_fresh : ℕ → Claims → Bool
is_fresh now c = not (leb c.exp now || (ltb (now + 5) c.iat || ltb ttl_seconds (c.exp - c.iat)))

abbrev pub is_addressed : Expected → Claims → Bool
is_addressed e c = not (
    not (c.kind == e.kind)
    || (not (c.platform_issuer == e.platform_issuer)
        || (not (c.iss == e.hostname)
            || (not (c.tenant_id == e.tenant_id)
                || (not (c.resource == e.resource) || not (c.challenge == e.challenge))))))

abbrev pub audience : Expected → Option String
audience e = if e.kind == consent then some e.resource else none

-- The calls of `exactClaim`.
abbrev pub is_exact : Expected → Claims → Bool
is_exact e c =
    same_option c.pairing_attempt_id e.pairing_attempt_id
    && (same_option c.site_id e.site_id
        && (same_option c.platform_signing_key_sha256 e.platform_signing_key_sha256
            && (same_option c.platform_signing_kid e.platform_signing_kid
                && (same_option c.grant_id e.grant_id
                    && (same_option c.client_id e.client_id
                        && (same_option c.subject_id e.subject_id
                            && (same_option c.aud (audience e)
                                && same_option c.decision e.decision)))))))

abbrev pub or_empty : Option (List McpScope) → List McpScope
or_empty none = []
or_empty (some ss) = ss

-- The loop over the scopes, `actual[index] !== expected[index]` of two lists of one length.
abbrev pub same_scopes : List McpScope → List McpScope → Bool
same_scopes [] [] = true
same_scopes [] (_ ∷ _) = false
same_scopes (_ ∷ _) [] = false
same_scopes (s ∷ ss) (t ∷ ts) = s == t && same_scopes ss ts

abbrev pub has_scopes : Option (List McpScope) → Option (List McpScope) → Bool
has_scopes actual none = true
has_scopes actual (some expected) = same_scopes (or_empty actual) expected

module _ (lib : Library) where
  open lib use {byte_length, import_key, header_of, payload_of, claims_of, thumbprint_of}

  unfoldable pub verify_site_proof : String → String → Expected → Result Diagnostic Verified
  verify_site_proof proof key e = do
    guard (leb (byte_length proof) max_bytes) signature_invalid
    jwk ← or_fail (import_key key) key_invalid
    header ← or_fail (header_of proof) header_invalid
    guard (is_header jwk header) header_invalid
    payload ← or_fail (payload_of proof jwk) signature_invalid
    claims ← or_fail (claims_of payload) claims_invalid
    guard (is_fresh e.now claims) claims_invalid
    guard (is_addressed e claims) claims_invalid
    guard (is_exact e claims) claims_invalid
    guard (has_scopes claims.scope e.scopes) claims_invalid
    ok (record { claims = claims; public_jwk = jwk; thumbprint = thumbprint_of jwk })
