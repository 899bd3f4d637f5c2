-- ===== src/SiteProof/Bound.antt =====
-- `verifySiteProof`: what an accepted proof is bound to.
use wp_auto.Base.{
  ℕ, ◌+◌, ◌≤◌, ◌<◌, String, ◌≡◌, refl, ap, Bool, true, not, ◌&&◌, ◌||◌, Option, none, some, List,
  [], ◌∷◌, arith, leb, leb→le, HasEq, ◌==◌, ==_iff, nat_eq, text_eq, bytes_eq, ok, guard-ok,
  or_fail-ok, ok_injective,
}
use wp_auto.Base.Options.{same_option, same_option_sound}
use wp_auto.Contracts.{McpScope, scope_eq}
use wp_auto.SiteProof.{
  key_invalid, signature_invalid, header_invalid, claims_invalid, kind_eq, decision_eq, Claims,
  Expected, Verified, Library, max_bytes, ttl_seconds, is_header, is_fresh, is_addressed, is_exact,
  audience, or_empty, same_scopes, has_scopes, verify_site_proof,
}

-- The proof was made recently and for this question only.
pub record Answers (e : Expected) (c : Claims) : Type 0 where
  pub unexpired : e.now < c.exp
  pub issued : c.iat ≤ e.now + 5
  pub short : c.exp ≤ c.iat + ttl_seconds
  pub same_kind : c.kind ≡ e.kind
  pub same_issuer : c.platform_issuer ≡ e.platform_issuer
  pub same_host : c.iss ≡ e.hostname
  pub same_tenant : c.tenant_id ≡ e.tenant_id
  pub same_resource : c.resource ≡ e.resource
  pub same_challenge : c.challenge ≡ e.challenge
  pub same_attempt : c.pairing_attempt_id ≡ e.pairing_attempt_id
  pub same_site : c.site_id ≡ e.site_id
  pub same_signing_key : c.platform_signing_key_sha256 ≡ e.platform_signing_key_sha256
  pub same_signing_kid : c.platform_signing_kid ≡ e.platform_signing_kid
  pub same_grant : c.grant_id ≡ e.grant_id
  pub same_client : c.client_id ≡ e.client_id
  pub same_subject : c.subject_id ≡ e.subject_id
  pub same_audience : c.aud ≡ audience e
  pub same_decision : c.decision ≡ e.decision
  pub scopes_agree : (ss : List McpScope) → e.scopes ≡ some ss → or_empty c.scope ≡ ss

same_scopes_sound : (ss ts : List McpScope) → same_scopes ss ts ≡ true → ss ≡ ts
same_scopes_sound [] [] h = refl
same_scopes_sound [] (t ∷ ts) h = cc
same_scopes_sound (s ∷ ss) [] h = cc
same_scopes_sound (s ∷ ss) (t ∷ ts) h =
    let head : (s == t) ≡ true = ground arith in
    let tail : same_scopes ss ts ≡ true = ground arith in
    let it : s ≡ t = (==_iff s t).0 head in rw it (ap (λ us. t ∷ us) (same_scopes_sound ss ts tail))

has_scopes_sound :
    (actual expected : Option (List McpScope))
    → has_scopes actual expected ≡ true
    → (ss : List McpScope) → expected ≡ some ss
    → or_empty actual ≡ ss
has_scopes_sound actual none h ss e = cc
has_scopes_sound actual (some ts) h ss e =
    let it : ts ≡ ss = cc in rw (← it) (same_scopes_sound (or_empty actual) ts h)

and_left : (a b : Bool) → (a && b) ≡ true → a ≡ true
and_left a b e = ground arith

and_right : (a b : Bool) → (a && b) ≡ true → b ≡ true
and_right a b e = ground arith

not_or_not : (a b : Bool) → not (not a || b) ≡ true → (a ≡ true) × (not b ≡ true)
not_or_not a b e = (ground arith, ground arith)

fresh_sound :
    (now : ℕ) (c : Claims)
    → is_fresh now c ≡ true
    → (now < c.exp) × (c.iat ≤ now + 5) × (c.exp ≤ c.iat + ttl_seconds)
fresh_sound now c h = (ground arith, ground arith, ground arith)

addressed_sound :
    (e : Expected) (c : Claims)
    → is_addressed e c ≡ true
    → (c.kind ≡ e.kind)
      × (c.platform_issuer ≡ e.platform_issuer)
      × (c.iss ≡ e.hostname)
      × (c.tenant_id ≡ e.tenant_id)
      × (c.resource ≡ e.resource)
      × (c.challenge ≡ e.challenge)
addressed_sound e c h =
    let (a₁, h₁) = not_or_not (c.kind == e.kind) _ h in
    let (a₂, h₂) = not_or_not (c.platform_issuer == e.platform_issuer) _ h₁ in
    let (a₃, h₃) = not_or_not (c.iss == e.hostname) _ h₂ in
    let (a₄, h₄) = not_or_not (c.tenant_id == e.tenant_id) _ h₃ in
    let (a₅, h₅) = not_or_not (c.resource == e.resource) _ h₄ in
    let a₆ : (c.challenge == e.challenge) ≡ true = not_not _ h₅ in
    (
      (==_iff c.kind e.kind).0 a₁,
      (==_iff c.platform_issuer e.platform_issuer).0 a₂,
      (==_iff c.iss e.hostname).0 a₃,
      (==_iff c.tenant_id e.tenant_id).0 a₄,
      (==_iff c.resource e.resource).0 a₅,
      (==_iff c.challenge e.challenge).0 a₆,
    )
  where
    not_not : (b : Bool) → not (not b) ≡ true → b ≡ true
    not_not b e = ground arith

-- One test of a chain of options.
next_same {ℓ} :
    {A : Type ℓ} ⦃eq : HasEq A⦄ (a b : Option A) (rest : Bool)
    → (same_option a b && rest) ≡ true
    → (a ≡ b) × (rest ≡ true)
next_same a b rest h =
    (same_option_sound a b (and_left (same_option a b) rest h), and_right (same_option a b) rest h)

module _ (lib : Library) where
  open lib use {byte_length, import_key, header_of, payload_of, claims_of, thumbprint_of}

  -- How the accepted proof was read.
  pub record IsSigned (proof key : String) (v : Verified) : Type 0 where
    pub payload : String
    pub size : byte_length proof ≤ max_bytes
    pub key_read : import_key key ≡ some v.public_jwk
    pub signed : payload_of proof v.public_jwk ≡ some payload
    pub claims_read : claims_of payload ≡ some v.claims
    pub its_thumbprint : v.thumbprint ≡ thumbprint_of v.public_jwk

  -- An accepted proof is signed by the key that is shown with it, is unexpired, was issued at most five
  -- seconds ahead and lives at most a minute, and each of its claims is the expected one: kind, issuer,
  -- host, tenant, resource, challenge, attempt, site, signing key, grant, client, subject, audience,
  -- decision and, when scopes are expected, the scopes.
  pub proof_binds :
      (proof key : String) (e : Expected) (v : Verified)
      → verify_site_proof lib proof key e ≡ ok v
      → IsSigned proof key v × Answers e v.claims
  unfolding verify_site_proof
  proof_binds proof key e v h =
      let (size, h₁) = guard-ok (leb (byte_length proof) max_bytes) signature_invalid _ h in
      let (jwk, key_read, h₂) = or_fail-ok (import_key key) key_invalid _ h₁ in
      let (header, _, h₃) = or_fail-ok (header_of proof) header_invalid _ h₂ in
      let (_, h₄) = guard-ok (is_header jwk header) header_invalid _ h₃ in
      let (payload, signed, h₅) = or_fail-ok (payload_of proof jwk) signature_invalid _ h₄ in
      let (c, claims_read, h₆) = or_fail-ok (claims_of payload) claims_invalid _ h₅ in
      let (fresh, h₇) = guard-ok (is_fresh e.now c) claims_invalid _ h₆ in
      let (addressed, h₈) = guard-ok (is_addressed e c) claims_invalid _ h₇ in
      let (exact, h₉) = guard-ok (is_exact e c) claims_invalid _ h₈ in
      let (scoped, k) = guard-ok (has_scopes c.scope e.scopes) claims_invalid _ h₉ in
      let (x₁, y₁) = next_same c.pairing_attempt_id e.pairing_attempt_id _ exact in
      let (x₂, y₂) = next_same c.site_id e.site_id _ y₁ in
      let (x₃, y₃) = next_same c.platform_signing_key_sha256 e.platform_signing_key_sha256 _ y₂ in
      let (x₄, y₄) = next_same c.platform_signing_kid e.platform_signing_kid _ y₃ in
      let (x₅, y₅) = next_same c.grant_id e.grant_id _ y₄ in
      let (x₆, y₆) = next_same c.client_id e.client_id _ y₅ in
      let (x₇, y₇) = next_same c.subject_id e.subject_id _ y₆ in
      let (x₈, y₈) = next_same c.aud (audience e) _ y₇ in
      let (f₁, f₂, f₃) = fresh_sound e.now c fresh in
      let (a₁, a₂, a₃, a₄, a₅, a₆) = addressed_sound e c addressed in
      rw (← ok_injective k) (
        record {
          payload = payload;
          size = leb→le (byte_length proof) max_bytes size;
          key_read = key_read;
          signed = signed;
          claims_read = claims_read;
          its_thumbprint = refl;
        },
        record {
          unexpired = f₁;
          issued = f₂;
          short = f₃;
          same_kind = a₁;
          same_issuer = a₂;
          same_host = a₃;
          same_tenant = a₄;
          same_resource = a₅;
          same_challenge = a₆;
          same_attempt = x₁;
          same_site = x₂;
          same_signing_key = x₃;
          same_signing_kid = x₄;
          same_grant = x₅;
          same_client = x₆;
          same_subject = x₇;
          same_audience = x₈;
          same_decision = same_option_sound c.decision e.decision y₈;
          scopes_agree = has_scopes_sound c.scope e.scopes scoped;
        },
      )
