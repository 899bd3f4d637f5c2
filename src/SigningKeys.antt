-- ===== src/SigningKeys.antt =====
-- packages/database/src/index.ts, `PostgresSigningKeyRepository`, with `oauth.revoke_signing_key` of
-- packages/database/migrations/005_token_lifecycle.sql and `oauth.activate_signing_key` of
-- 009_local_signing_custody.sql: the keys that sign tokens. Times are milliseconds.
pub mod Sound
pub mod Revoked
mod Tests
use wp_auto.Base.{
  ℕ, zero, suc, ◌+◌, ◌-◌, ◌*◌, ◌/◌, ◌%◌, ◌^◌, ◌≤◌, ◌<◌, min, max, String, ◌≡◌, refl, sym, ap, ◌∙◌,
  ◌≢◌, ◌↔◌, ◌⊎◌, inl, inr, Bool, true, false, not, ◌&&◌, ◌||◌, Option, none, some, List, [], ◌∷◌,
  ◌++◌, map, arith, ltb, leb, if◌then◌else◌, ltb→lt, lt→ltb, leb→le, le→leb, Bool-cases,
  Option-cases, HasEq, ◌==◌, ==_iff, nat_eq, text_eq, bytes_eq, Bytes, ==_refl, ==_ne, length,
  get_elem?, take, filter, count, all, any, Result, ok, err, ◌>>=◌, ◌>>◌, guard, or_fail, commit,
  >>=-eq-ok, guard-ok, guard-true, or_fail-ok, Result-cases, ok_pair, ok_injective,
}
use wp_auto.Base.{update_where}
use wp_auto.Base.Options.{is_none}
use wp_auto.Base.Rows.{first}
use wp_auto.Base.Text.{codes}
use wp_auto.Provider.Words.{word_leb}
use wp_auto.Outbox.{Row, EventType, key}

pub data KeyStatus : Type 0 where
  published active retiring revoked : KeyStatus

pub data CustodyProvider : Type 0 where
  aws_kms local_pkcs8 : CustodyProvider

-- A row of `oauth.signing_key_metadata`.
pub record SigningKey : Type 0 where
  pub kid : String
  pub custody_provider : CustodyProvider
  pub custody_reference : String
  pub public_jwk : String
  pub status : KeyStatus
  pub publish_at : ℕ
  pub activate_at : Option ℕ
  pub retire_at : Option ℕ
  pub revoke_at : Option ℕ

-- What is read of the active sites.
pub record Site : Type 0 where
  pub tenant_id : String
  pub id : String
  pub resource : String

pub record Store : Type 0 where
  pub keys : List SigningKey
  pub sites : List Site
  pub outbox : List Row
  pub next_id : ℕ

pub data Error : Type 0 where
  single_active_required storage : Error

abbrev pub is_active_status : KeyStatus → Bool
is_active_status active = true
is_active_status _ = false

abbrev pub is_published_status : KeyStatus → Bool
is_published_status published = true
is_published_status _ = false

abbrev pub is_retiring_status : KeyStatus → Bool
is_retiring_status retiring = true
is_retiring_status _ = false

abbrev pub is_kept : KeyStatus → Bool
is_kept revoked = false
is_kept _ = true

abbrev pub is_local : CustodyProvider → Bool
is_local local_pkcs8 = true
is_local aws_kms = false

abbrev pub has_kid : String → SigningKey → Bool
has_kid kid k = k.kid == kid

abbrev pub is_signing : SigningKey → Bool
is_signing k = is_active_status k.status

abbrev pub passed : ℕ → Option ℕ → Bool
passed now none = false
passed now (some t) = leb t now

-- The test of `loadUsable`.
abbrev pub is_usable : ℕ → SigningKey → Bool
is_usable now k =
    is_kept k.status
    && (leb k.publish_at now
        && ((not (is_active_status k.status) || passed now k.activate_at)
            && (not (is_retiring_status k.status) || not (passed now k.retire_at))))

-- CASE status WHEN 'active' THEN 0 WHEN 'published' THEN 1 ELSE 2 END
abbrev pub rank : KeyStatus → ℕ
rank active = 0
rank published = 1
rank _ = 2

abbrev pub comes_before : SigningKey → SigningKey → Bool
comes_before a b =
    ltb (rank a.status) (rank b.status)
    || (rank a.status == rank b.status
        && (ltb a.publish_at b.publish_at
            || (a.publish_at == b.publish_at && word_leb (codes a.kid) (codes b.kid))))

abbrev pub insert_key : SigningKey → List SigningKey → List SigningKey
insert_key k [] = k ∷ []
insert_key k (j ∷ js) =
    let further = j ∷ insert_key k js in if comes_before k j then k ∷ j ∷ js else further

abbrev pub ordered : List SigningKey → List SigningKey
ordered [] = []
ordered (k ∷ ks) = insert_key k (ordered ks)

abbrev pub the_only : List SigningKey → Option SigningKey
the_only [] = none
the_only (k ∷ []) = some k
the_only (k ∷ j ∷ ks) = none

-- The active key, and the others that verify.
unfoldable pub load_usable : ℕ → Store → Result Error (SigningKey × List SigningKey)
load_usable now s = do
  signing ←
      or_fail (the_only (filter is_signing (ordered (filter (is_usable now) s.keys))))
        single_active_required
  ok (signing, filter (λ k. not (is_signing k)) (ordered (filter (is_usable now) s.keys)))

unfoldable pub is_active : String → ℕ → Store → Bool
is_active kid now s =
    any (λ k. has_kid kid k && (is_signing k && (passed now k.activate_at && is_none k.revoke_at)))
      s.keys

abbrev pub new_key : String → CustodyProvider → String → String → ℕ → SigningKey
new_key kid provider reference jwk now = record {
  kid = kid;
  custody_provider = provider;
  custody_reference = reference;
  public_jwk = jwk;
  status = published;
  publish_at = now;
  activate_at = none;
  retire_at = none;
  revoke_at = none;
}

unfoldable pub publish : String → CustodyProvider → String → String → ℕ → Store → Result Error Store
publish kid provider reference jwk now s = do
  guard (not (any (has_kid kid) s.keys)) storage
  ok (record s { keys = s.keys ++ new_key kid provider reference jwk now ∷ [] })

abbrev pub twenty_minutes : ℕ
twenty_minutes = 1200000

-- The key may be activated: it was published twenty minutes ago.
abbrev pub is_ready : String → ℕ → SigningKey → Bool
is_ready kid now k =
    has_kid kid k
    && (is_published_status k.status
        && (is_local k.custody_provider && leb (k.publish_at + twenty_minutes) now))

abbrev pub retiring_from : ℕ → SigningKey → SigningKey
retiring_from now k = record k { status = retiring; retire_at = some (now + twenty_minutes) }

abbrev pub active_from : ℕ → SigningKey → SigningKey
active_from now k = record k { status = active; activate_at = some now }

abbrev pub revoked_from : ℕ → SigningKey → SigningKey
revoked_from now k = record k { status = revoked; revoke_at = some now }

abbrev pub is_current : Option SigningKey → String → Bool
is_current none kid = false
is_current (some k) kid = k.kid == kid

abbrev pub retire_current : ℕ → Option SigningKey → List SigningKey → List SigningKey
retire_current now none ks = ks
retire_current now (some c) ks =
    update_where (λ k. has_kid c.kid k && is_signing k) (retiring_from now) ks

abbrev pub activated : String → ℕ → List SigningKey → List SigningKey
activated kid now ks =
    update_where (λ k. has_kid kid k && is_published_status k.status) (active_from now) ks

-- `oauth.activate_signing_key`, given the key that is active.
abbrev pub activate_over : Option SigningKey → String → ℕ → Store → Bool × Store
activate_over current kid now s =
    if is_current current kid
    then (false, s)
    else (if not (any (is_ready kid now) s.keys)
        then (false, s)
        else (true, record s { keys = activated kid now (retire_current now current s.keys) }))

unfoldable pub activate : String → ℕ → Store → Bool × Store
activate kid now s = activate_over (first is_signing s.keys) kid now s

abbrev pub last_sequence : Site → List Row → ℕ
last_sequence site [] = 0
last_sequence site (e ∷ es) =
    max (if e.tenant_id == site.tenant_id && e.site_id == site.id then e.sequence else 0)
      (last_sequence site es)

abbrev pub event_row : String → ℕ → Site → ℕ → List Row → Row
event_row kid now site id rows = record {
  id = id;
  tenant_id = site.tenant_id;
  site_id = site.id;
  resource = site.resource;
  sequence = suc (last_sequence site rows);
  event_type = key;
  grant_id = none;
  key_id = some kid;
  reason = "key_revoked";
  not_before = now;
  attempts = 0;
  locked_at = none;
  delivered_at = none;
  last_error_code = none;
}

-- The loop of `oauth.revoke_signing_key`: an event for each active site.
abbrev pub tell_sites : String → ℕ → List Site → ℕ → List Row → List Row × ℕ
tell_sites kid now [] id rows = (rows, id)
tell_sites kid now (site ∷ sites) id rows =
    tell_sites kid now sites (suc id) (rows ++ event_row kid now site id rows ∷ [])

-- `oauth.revoke_signing_key`
unfoldable pub revoke : String → ℕ → Store → Bool × Store
revoke kid now s =
    if not (any (λ k. has_kid kid k && is_kept k.status) s.keys) then (false, s) else (
      true,
      record s {
        keys = update_where (λ k. has_kid kid k && is_kept k.status) (revoked_from now) s.keys;
        outbox = (tell_sites kid now s.sites s.next_id s.outbox).0;
        next_id = (tell_sites kid now s.sites s.next_id s.outbox).1;
      },
    )

unfoldable pub retire : String → ℕ → Store → Bool × Store
retire kid now s =
    let due = λ (k : SigningKey).
      has_kid kid k && (is_retiring_status k.status && passed now k.retire_at) in
    (count due s.keys == 1, record s { keys = update_where due (revoked_from now) s.keys })
