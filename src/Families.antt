-- ===== src/Families.antt =====
-- packages/database/src/index.ts, `PostgresRefreshFamilyRepository`, with `oauth.rotate_refresh_family` of
-- packages/database/migrations/005_token_lifecycle.sql: the families of refresh tokens, of which each
-- generation is used once. Times are milliseconds.
pub mod Once
mod Tests
use wp_auto.Base.{
  ℕ, zero, suc, ◌+◌, ◌-◌, ◌*◌, ◌/◌, ◌%◌, ◌^◌, ◌≤◌, ◌<◌, min, max, String, ◌≡◌, refl, sym, ap, ◌∙◌,
  ◌≢◌, ◌↔◌, ◌⊎◌, inl, inr, Bool, true, false, not, ◌&&◌, ◌||◌, Option, none, some, List, [], ◌∷◌,
  ◌++◌, map, arith, ltb, leb, if◌then◌else◌, ltb→lt, lt→ltb, leb→le, le→leb, Bool-cases,
  Option-cases, HasEq, ◌==◌, ==_iff, nat_eq, text_eq, bytes_eq, Bytes, ==_refl, ==_ne, length,
  get_elem?, take, filter, count, all, any, Result, ok, err, ◌>>=◌, ◌>>◌, guard, or_fail, commit,
  >>=-eq-ok, guard-ok, guard-true, or_fail-ok, Result-cases, ok_pair, ok_injective,
}
use wp_auto.Base.{update_where}
use wp_auto.Base.Rows.{first}
use wp_auto.Base.Text.{codes, utf16}
use wp_auto.Grants.{Grant, has_id, is_open, GrantStatus}
use wp_auto.Outbox.{Row, EventType}

pub data FamilyStatus : Type 0 where
  active revoked expired : FamilyStatus

-- A row of `oauth.refresh_families`.
pub record Family : Type 0 where
  pub family_id : String
  pub tenant_id : String
  pub site_id : String
  pub grant_id : String
  pub client_id : String
  pub subject_id : String
  pub status : FamilyStatus
  pub current_generation : ℕ
  pub last_used_at : ℕ
  pub absolute_expires_at : ℕ
  pub revoked_at : Option ℕ
  pub revocation_reason : Option String

-- What is read of a site.
pub record Site : Type 0 where
  pub tenant_id : String
  pub id : String
  pub resource : String

pub record Store : Type 0 where
  pub families : List Family
  pub grants : List Grant
  pub sites : List Site
  pub outbox : List Row
  pub next_id : ℕ

pub data Error : Type 0 where
  invalid_lifetime storage site_missing : Error

-- `RefreshRotationResult`
pub data Rotation : Type 0 where
  rotated replay denied : Rotation

-- `create`'s argument.
pub record NewFamily : Type 0 where
  pub family_id : String
  pub tenant_id : String
  pub site_id : String
  pub grant_id : String
  pub client_id : String
  pub subject_id : String
  pub issued_at : ℕ
  pub absolute_expires_at : ℕ

abbrev pub ninety_days : ℕ
ninety_days = 7776000000

abbrev pub thirty_days : ℕ
thirty_days = 2592000000

abbrev pub in_family : String → Family → Bool
in_family id f = f.family_id == id

abbrev pub is_active : FamilyStatus → Bool
is_active active = true
is_active _ = false

abbrev pub new_row : NewFamily → Family
new_row n = record {
  family_id = n.family_id;
  tenant_id = n.tenant_id;
  site_id = n.site_id;
  grant_id = n.grant_id;
  client_id = n.client_id;
  subject_id = n.subject_id;
  status = active;
  current_generation = 0;
  last_used_at = n.issued_at;
  absolute_expires_at = n.absolute_expires_at;
  revoked_at = none;
  revocation_reason = none;
}

unfoldable pub create : NewFamily → Store → Result Error Store
create n s = do
  guard
      (not (
        ltb ninety_days (n.absolute_expires_at - n.issued_at)
        || leb n.absolute_expires_at n.issued_at))
      invalid_lifetime
  guard (not (any (in_family n.family_id) s.families)) storage
  ok (record s { families = s.families ++ new_row n ∷ [] })

-- The family may be used: it is active, was used in the last thirty days and has not ended.
abbrev pub is_live : ℕ → Family → Bool
is_live now f =
    is_active f.status && (ltb now (f.last_used_at + thirty_days) && ltb now f.absolute_expires_at)

abbrev pub used : ℕ → Family → Family
used now f = record f { current_generation = suc f.current_generation; last_used_at = now }

abbrev pub replayed : ℕ → Family → Family
replayed now f = record f {
  status = revoked;
  revoked_at = some now;
  revocation_reason = some "refresh_replay";
}

abbrev pub first_of {ℓ} : {A : Type ℓ} → Option A → A → Option A
first_of none x = some x
first_of (some y) x = some y

abbrev pub revoked_grant : ℕ → Grant → Grant
revoked_grant now g = record g {
  status = GrantStatus.revoked;
  revoked_at = first_of g.revoked_at now;
  revocation_reason = some (utf16 (codes "refresh_replay"));
}

abbrev pub last_sequence : String → String → List Row → ℕ
last_sequence tenant site [] = 0
last_sequence tenant site (e ∷ es) =
    max (if e.tenant_id == tenant && e.site_id == site then e.sequence else 0)
      (last_sequence tenant site es)

abbrev pub event_row : Family → String → ℕ → ℕ → List Row → Row
event_row f resource now id rows = record {
  id = id;
  tenant_id = f.tenant_id;
  site_id = f.site_id;
  resource = resource;
  sequence = suc (last_sequence f.tenant_id f.site_id rows);
  event_type = EventType.grant;
  grant_id = some f.grant_id;
  key_id = none;
  reason = "refresh_replay";
  not_before = now;
  attempts = 0;
  locked_at = none;
  delivered_at = none;
  last_error_code = none;
}

abbrev pub site_of : Family → Store → Option Site
site_of f s = first (λ x. x.tenant_id == f.tenant_id && x.id == f.site_id) s.sites

-- A generation that was used before: the family and its grant are revoked, and the site is told.
abbrev pub end_family : String → ℕ → Family → Store → Result Error (Rotation × Store)
end_family id now f s = do
  site ← or_fail (site_of f s) site_missing
  ok (
    replay,
    record s {
      families = update_where (in_family id) (replayed now) s.families;
      grants =
          update_where (λ g. has_id f.tenant_id f.grant_id g && is_open g.status)
            (revoked_grant now) s.grants;
      outbox = s.outbox ++ event_row f site.resource now s.next_id s.outbox ∷ [];
      next_id = suc s.next_id;
    },
  )

abbrev pub rotate_found : String → ℕ → ℕ → Store → Option Family → Result Error (Rotation × Store)
rotate_found id expected now s none = ok (denied, s)
rotate_found id expected now s (some f) =
    if not (is_live now f)
    then ok (denied, s)
    else (if f.current_generation == expected
        then ok (rotated, record s { families = update_where (in_family id) (used now) s.families })
        else (if ltb expected f.current_generation then end_family id now f s else ok (denied, s)))

-- `oauth.rotate_refresh_family`
unfoldable pub rotate : String → ℕ → ℕ → Store → Result Error (Rotation × Store)
rotate id expected now s = rotate_found id expected now s (first (in_family id) s.families)
