-- ===== src/Artifacts.antt =====
-- packages/database/src/index.ts, `SecretArtifactCodec` and `PostgresOidcAdapter`, with the function
-- `oauth.revoke_refresh_grant` of packages/database/migrations/005_token_lifecycle.sql: the artifacts of
-- the OpenID provider, of which bearer secrets are stored by their hash. Times are milliseconds.
pub mod Adapter
pub mod Consume
pub mod Once
pub mod Replay
pub mod Verdict
mod Tests
use wp_auto.Base.{
  ℕ, zero, suc, ◌+◌, ◌-◌, ◌*◌, ◌/◌, ◌%◌, ◌^◌, ◌≤◌, ◌<◌, min, max, String, ◌≡◌, refl, sym, ap, ◌∙◌,
  ◌≢◌, ◌↔◌, ◌⊎◌, inl, inr, Bool, true, false, not, ◌&&◌, ◌||◌, Option, none, some, List, [], ◌∷◌,
  ◌++◌, map, arith, ltb, leb, if◌then◌else◌, ltb→lt, lt→ltb, leb→le, le→leb, Bool-cases,
  Option-cases, HasEq, ◌==◌, ==_iff, nat_eq, text_eq, bytes_eq, Bytes, ==_refl, ==_ne, length,
  get_elem?, take, filter, count, all, any, Result, ok, err, ◌>>=◌, ◌>>◌, guard, or_fail, commit,
  >>=-eq-ok, guard-ok, guard-true, or_fail-ok, Result-cases, ok_pair,
}
use wp_auto.Base.{update_where}
use wp_auto.Base.Rows.{first}
use wp_auto.Base.Text.{text_length}
use wp_auto.Base.Json.{
  Value, text, number, Object, member, without, with_member, has_member, as_text,
}
use wp_auto.Limiter.{Bucket, consume_rate_limit}

-- `SecretArtifactLookup`
pub record Lookup : Type 0 where
  pub version : ℕ
  pub digest : Bytes

-- A row of `oauth.provider_artifacts`.
pub record Plain : Type 0 where
  pub model : String
  pub artifact_id : String
  pub tenant_id : Option String
  pub payload : Object
  pub expires_at : Option ℕ

-- A row of `oauth.secret_artifacts`.
pub record Secret : Type 0 where
  pub model : String
  pub lookup : Lookup
  pub tenant_id : Option String
  pub payload : Object
  pub expires_at : Option ℕ
  pub consumed_at : Option ℕ

pub data GrantStatus : Type 0 where
  pending active suspended revoked : GrantStatus

-- A row of `platform.grants`.
pub record Grant : Type 0 where
  pub id : String
  pub tenant_id : String
  pub site_id : String
  pub status : GrantStatus
  pub revoked_at : Option ℕ
  pub revocation_reason : Option String

-- A row that is added to `oauth.revocation_outbox`.
pub record Revocation : Type 0 where
  pub tenant_id : String
  pub site_id : String
  pub resource : String
  pub sequence : ℕ
  pub grant_id : String
  pub reason : String

pub record Store : Type 0 where
  pub plain : List Plain
  pub secrets : List Secret
  pub grants : List Grant
  pub outbox : List Revocation
  pub buckets : List Bucket

pub data Error : Type 0 where
  key_rotation_set_required invalid_artifact already_consumed : Error
  family_rate_limited invalid_grant site_missing invalid_rate_limit_subject : Error

pub data Consumption : Type 0 where
  consumed missing rate_limited replay : Consumption

-- The keys of the codec, newest first, with the version of each.
pub record Key : Type 0 where
  pub version : ℕ
  pub key : Bytes

abbrev pub is_none {ℓ} : {A : Type ℓ} → Option A → Bool
is_none none = true
is_none (some _) = false

-- keys.map((key, index) => ({ version: keys.length - index, key }))
abbrev pub versioned : List Bytes → List Key
versioned [] = []
versioned (k ∷ ks) = record { version = suc (length ks); key = k } ∷ versioned ks

unfoldable pub open_codec : List Bytes → Result Error (List Key)
open_codec keys = do
  guard (not (ltb (length keys) 1 || (ltb 2 (length keys) || any (λ k. ltb (length k) 32) keys)))
      key_rotation_set_required
  ok (versioned keys)

abbrev pub is_secret_value : String → Bool
is_secret_value value = not (ltb (text_length value) 8 || ltb 4096 (text_length value))

-- `secretArtifactModels.has(model)`
abbrev pub is_secret_model : String → Bool
is_secret_model model =
    any (λ m. m == model)
      ("AccessToken" ∷ "AuthorizationCode" ∷ "BackchannelAuthenticationRequest" ∷ "DeviceCode"
        ∷ "InitialAccessToken" ∷ "PushedAuthorizationRequest" ∷ "RefreshToken"
        ∷ "RegistrationAccessToken" ∷ [])

-- `payload['tenantId'] ?? payload['tenant_id']`, if it is a text that is not empty; JSON has no
-- `undefined`, and a `null` is a member of another type.
abbrev not_empty : Option String → Option String
not_empty none = none
not_empty (some s) = if text_length s == 0 then none else some s

abbrev or_else : Option Value → Option Value → Option Value
or_else none y = y
or_else (some x) y = some x

abbrev pub payload_tenant_id : Object → Option String
payload_tenant_id payload =
    not_empty (as_text (or_else (member "tenantId" payload) (member "tenant_id" payload)))

-- expires_at IS NULL OR expires_at > now()
abbrev pub is_unexpired : ℕ → Option ℕ → Bool
is_unexpired now none = true
is_unexpired now (some t) = ltb now t

abbrev pub has_plain : String → String → Plain → Bool
has_plain model id r = r.model == model && r.artifact_id == id

abbrev pub same_lookup : Lookup → Lookup → Bool
same_lookup a b = a.version == b.version && a.digest == b.digest

abbrev pub has_lookup : String → Lookup → Secret → Bool
has_lookup model l r = r.model == model && same_lookup r.lookup l

-- The rows that an UPDATE of `consume` takes.
abbrev pub consumable : String → Lookup → ℕ → Secret → Bool
consumable model l now r =
    has_lookup model l r && (is_none r.consumed_at && is_unexpired now r.expires_at)

-- INSERT … ON CONFLICT DO UPDATE
abbrev pub upsert_row {ℓ} : {A : Type ℓ} → (A → Bool) → A → List A → List A
upsert_row same row rows =
    if any same rows then update_where same (λ _. row) rows else rows ++ row ∷ []

-- `payload->>'grantId' = grant`
abbrev pub text_is : String → Option String → Bool
text_is value none = false
text_is value (some s) = s == value

abbrev pub of_grant : String → Object → Bool
of_grant grant payload = text_is grant (as_text (member "grantId" payload))

abbrev pub is_open_grant : GrantStatus → Bool
is_open_grant revoked = false
is_open_grant _ = true

abbrev first_of {ℓ} : {A : Type ℓ} → Option A → A → Option A
first_of none x = some x
first_of (some y) _ = some y

abbrev pub revoke_grant : ℕ → String → Grant → Grant
revoke_grant now reason g = record g {
  status = revoked;
  revoked_at = first_of g.revoked_at now;
  revocation_reason = first_of g.revocation_reason reason;
}

abbrev pub expire : ℕ → Secret → Secret
expire now r = record r { expires_at = some now }

-- SELECT COALESCE(MAX(event_sequence), 0) + 1 of the events of a site.
abbrev pub last_sequence : String → String → List Revocation → ℕ
last_sequence tenant site [] = 0
last_sequence tenant site (e ∷ es) =
    max (if e.tenant_id == tenant && e.site_id == site then e.sequence else 0)
      (last_sequence tenant site es)

-- The site of a grant, by tenant and id, has a resource.
module _ (site_resource : String → String → Option String) where
  -- `oauth.revoke_refresh_grant`
  abbrev pub revoke_found : String → ℕ → String → Grant → Store → Result Error Store
  revoke_found grant now reason g s =
      let grants =
        update_where (λ r. r.id == grant && is_open_grant r.status) (revoke_grant now reason)
          s.grants in
      let secrets =
        update_where (λ r. r.model == "RefreshToken" && of_grant grant r.payload) (expire now)
          s.secrets in
      if is_open_grant g.status
      then (do
        resource ← or_fail (site_resource g.tenant_id g.site_id) site_missing
        ok (record s {
          grants = grants;
          secrets = secrets;
          outbox =
              s.outbox
              ++ record {
                tenant_id = g.tenant_id;
                site_id = g.site_id;
                resource = resource;
                sequence = suc (last_sequence g.tenant_id g.site_id s.outbox);
                grant_id = g.id;
                reason = reason;
              }
                ∷ [];
        }))
      else ok (record s { grants = grants; secrets = secrets })

  abbrev revoke_if_found : String → ℕ → String → Store → Option Grant → Result Error Store
  revoke_if_found grant now reason s none = ok s
  revoke_if_found grant now reason s (some g) = revoke_found grant now reason g s

  unfoldable pub revoke_refresh_grant : String → ℕ → String → Store → Result Error Store
  revoke_refresh_grant grant now reason s =
      revoke_if_found grant now reason s (first (λ r. r.id == grant) s.grants)
