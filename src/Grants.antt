-- ===== src/Grants.antt =====
-- packages/database/src/index.ts, `PostgresGrantRepository`: the grants that sites consent to. Times are
-- milliseconds, the digest of a completion is a parameter. Of the constraints of the tables the keys are
-- modelled, and that a client has one open
-- grant for each subject and site of a tenant.
pub mod Service
pub mod Calls
pub mod Status
pub mod Single
pub mod Create
pub mod Once
pub mod Resolve
pub mod Active
pub mod Pending
pub mod Complete
mod Tests
use wp_auto.Base.{
  ℕ, zero, suc, ◌+◌, ◌-◌, ◌*◌, ◌/◌, ◌%◌, ◌^◌, ◌≤◌, ◌<◌, min, max, String, ◌≡◌, refl, sym, ap, ◌∙◌,
  ◌≢◌, ◌↔◌, ◌⊎◌, inl, inr, Bool, true, false, not, ◌&&◌, ◌||◌, Option, none, some, List, [], ◌∷◌,
  ◌++◌, map, arith, ltb, leb, if◌then◌else◌, ltb→lt, lt→ltb, leb→le, le→leb, Bool-cases,
  Option-cases, HasEq, ◌==◌, ==_iff, nat_eq, text_eq, bytes_eq, Bytes, ==_refl, ==_ne, length,
  get_elem?, take, filter, count, all, any, Result, ok, err, ◌>>=◌, ◌>>◌, guard, or_fail, commit,
  >>=-eq-ok, guard-ok, guard-true, or_fail-ok, Result-cases, ok_pair, ok_injective,
}
use wp_auto.Base.{update_where}
use wp_auto.Base.Rows.{first}
use wp_auto.Base.Text.{codes, utf16}
use wp_auto.Base.Options.{is_none}
use wp_auto.Contracts.{McpScope, is_scope_set}

pub data GrantStatus : Type 0 where
  pending active suspended revoked : GrantStatus

-- A row of `platform.grants`.
pub record Grant : Type 0 where
  pub tenant_id : String
  pub id : String
  pub site_id : String
  pub subject_id : String
  pub client_id : String
  pub scopes : List McpScope
  pub challenge_hash : Bytes
  pub consent_expires_at : ℕ
  pub status : GrantStatus
  pub consent_version : String
  pub created_at : ℕ
  pub revoked_at : Option ℕ
  pub revocation_reason : Option (List ℕ)

-- What is read of `platform.sites`.
pub record Site : Type 0 where
  pub tenant_id : String
  pub id : String
  pub resource : String
  pub public_jwk : String
  pub is_active : Bool

pub data Operation : Type 0 where
  grant_create grant_complete : Operation

-- A row of `platform.idempotency_records`.
pub record Receipt : Type 0 where
  pub tenant_id : String
  pub operation : Operation
  pub key : String
  pub request_digest : Bytes
  pub result_reference : String

pub record Store : Type 0 where
  pub grants : List Grant
  pub sites : List Site
  pub receipts : List Receipt

pub data Error : Type 0 where
  idempotency_conflict active_site_not_found completion_replay storage scopes_invalid : Error

-- `createPending`'s argument, its answer, and `PendingGrantRecord`.
pub record NewGrant : Type 0 where
  pub tenant_id : String
  pub id : String
  pub site_id : String
  pub subject_id : String
  pub client_id : String
  pub scopes : List McpScope
  pub resource : String
  pub challenge_hash : Bytes
  pub expires_at : ℕ
  pub consent_version : String
  pub idempotency_key : String
  pub request_digest : Bytes
  pub created_at : ℕ

pub record Created : Type 0 where
  pub id : String
  pub created_at : ℕ
  pub expires_at : ℕ

pub record PendingGrant : Type 0 where
  pub tenant_id : String
  pub id : String
  pub site_id : String
  pub subject_id : String
  pub client_id : String
  pub scopes : List McpScope
  pub resource : String
  pub public_jwk : String
  pub challenge_hash : Bytes
  pub expires_at : ℕ
  pub completion_replay : Bool

abbrev pub is_pending : GrantStatus → Bool
is_pending pending = true
is_pending _ = false

abbrev pub is_open : GrantStatus → Bool
is_open revoked = false
is_open _ = true

abbrev pub is_create : Operation → Bool
is_create grant_create = true
is_create grant_complete = false

abbrev pub has_id : String → String → Grant → Bool
has_id tenant id g = g.tenant_id == tenant && g.id == id

abbrev pub has_key : String → Bool → String → Receipt → Bool
has_key tenant creating key r =
    r.tenant_id == tenant
    && (r.key == key && (if creating then is_create r.operation else not (is_create r.operation)))

-- A row that a unique index does not allow beside the new one: ids are unique, and so is the open grant
-- of a client for a subject and a site.
abbrev pub collides : NewGrant → Grant → Bool
collides n g =
    g.id == n.id
    || (is_open g.status
        && (g.tenant_id == n.tenant_id
            && (g.site_id == n.site_id
                && (g.subject_id == n.subject_id && g.client_id == n.client_id))))

abbrev pub is_its_site : NewGrant → Site → Bool
is_its_site n s =
    s.tenant_id == n.tenant_id && (s.id == n.site_id && (s.resource == n.resource && s.is_active))

abbrev pub pending_row : NewGrant → Grant
pending_row n = record {
  tenant_id = n.tenant_id;
  id = n.id;
  site_id = n.site_id;
  subject_id = n.subject_id;
  client_id = n.client_id;
  scopes = n.scopes;
  challenge_hash = n.challenge_hash;
  consent_expires_at = n.expires_at;
  status = pending;
  consent_version = n.consent_version;
  created_at = n.created_at;
  revoked_at = none;
  revocation_reason = none;
}

abbrev pub receipt : String → Operation → String → Bytes → String → Receipt
receipt tenant operation key digest reference = record {
  tenant_id = tenant;
  operation = operation;
  key = key;
  request_digest = digest;
  result_reference = reference;
}

-- The branch of `createPending` without a prior request.
unfoldable pub insert_pending : NewGrant → Store → Result Error (Created × Store)
insert_pending n s = do
  guard (count (is_its_site n) s.sites == 1) active_site_not_found
  guard (not (any (collides n) s.grants)) storage
  guard (not (any (has_key n.tenant_id true n.idempotency_key) s.receipts)) storage
  ok (
    record { id = n.id; created_at = n.created_at; expires_at = n.expires_at },
    record s {
      grants = s.grants ++ pending_row n ∷ [];
      receipts =
          s.receipts
          ++ receipt n.tenant_id grant_create n.idempotency_key n.request_digest n.id ∷ [];
    },
  )

-- The join of a receipt with the grant that it refers to.
abbrev pub prior_grant : Store → Option Receipt → Option (Receipt × Grant)
prior_grant s none = none
prior_grant s (some r) = with_grant r (first (has_id r.tenant_id r.result_reference) s.grants)
  where
    with_grant : Receipt → Option Grant → Option (Receipt × Grant)
    with_grant r none = none
    with_grant r (some g) = some (r, g)

abbrev pub repeat_or_insert :
    NewGrant → Store → Option (Receipt × Grant) → Result Error (Created × Store)
repeat_or_insert n s none = insert_pending n s
repeat_or_insert n s (some (r, g)) = do
  guard (r.request_digest == n.request_digest) idempotency_conflict
  ok (
    record {
      id = r.result_reference;
      created_at = g.created_at;
      expires_at = g.consent_expires_at;
    },
    s,
  )

unfoldable pub create_pending : NewGrant → Store → Result Error (Created × Store)
unfolding insert_pending
create_pending n s =
    repeat_or_insert n s
      (prior_grant s (first (has_key n.tenant_id true n.idempotency_key) s.receipts))

-- A completion that is recorded under the key for the grant.
abbrev pub completed_by : String → String → String → Receipt → Bool
completed_by tenant id key r = has_key tenant false key r && r.result_reference == id

abbrev pub site_of : Grant → Store → Option Site
site_of g s = first (λ x. x.tenant_id == g.tenant_id && (x.id == g.site_id && x.is_active)) s.sites

abbrev pub pending_grant : Grant → Site → Bool → PendingGrant
pending_grant g site replay = record {
  tenant_id = g.tenant_id;
  id = g.id;
  site_id = g.site_id;
  subject_id = g.subject_id;
  client_id = g.client_id;
  scopes = g.scopes;
  resource = site.resource;
  public_jwk = site.public_jwk;
  challenge_hash = g.challenge_hash;
  expires_at = g.consent_expires_at;
  completion_replay = replay;
}

abbrev pub read_pending : Bool → Option Grant → Option Site → Result Error (Option PendingGrant)
read_pending replay none site = ok none
read_pending replay (some g) none = ok none
read_pending replay (some g) (some site) = do
  guard (is_scope_set g.scopes) scopes_invalid
  ok (some (pending_grant g site replay))

unfoldable pub find_pending : String → String → String → Store → Result Error (Option PendingGrant)
find_pending tenant id key s =
    let replay = any (completed_by tenant id key) s.receipts in
    let row = first (λ g. has_id tenant id g && (is_pending g.status || replay)) s.grants in
    read_pending replay row (found_site row)
  where
    found_site : Option Grant → Option Site
    found_site none = none
    found_site (some g) = site_of g s

abbrev pub decidable : String → String → ℕ → Grant → Bool
decidable tenant id now g =
    has_id tenant id g && (is_pending g.status && ltb now g.consent_expires_at)

abbrev pub activated : Grant → Grant
activated g = record g { status = active }

-- The first 64 units of a reason are kept.
abbrev pub revoked_for : String → ℕ → Grant → Grant
revoked_for reason now g = record g {
  status = revoked;
  revoked_at = some now;
  revocation_reason = some (take 64 (utf16 (codes reason)));
}

abbrev pub revoke : String → String → String → ℕ → Store → Bool × Store
revoke tenant id reason now s =
    let open_grant = λ (g : Grant). has_id tenant id g && is_open g.status in
    (
      count open_grant s.grants == 1,
      record s { grants = update_where open_grant (revoked_for reason now) s.grants },
    )

-- `activate` and `deny` differ in what they set.
abbrev pub decide_new :
    String → String → String → Bytes → ℕ → (Grant → Grant) → Store → Result Error Store
decide_new tenant id key digest now change s = do
  guard (count (decidable tenant id now) s.grants == 1) completion_replay
  ok (record s {
    grants = update_where (decidable tenant id now) change s.grants;
    receipts = s.receipts ++ receipt tenant grant_complete key digest id ∷ [];
  })

abbrev pub decide_or_repeat :
    String
    → String
    → String
    → Bytes
    → ℕ
    → (Grant → Grant)
    → Store
    → Option Receipt
    → Result Error Store
decide_or_repeat tenant id key digest now change s none =
    decide_new tenant id key digest now change s
decide_or_repeat tenant id key digest now change s (some r) = do
  guard (r.request_digest == digest && r.result_reference == id) idempotency_conflict
  ok s

module _ (digest : String → String → Bytes) where
  abbrev pub decide :
      (Grant → Grant) → String → String → String → String → ℕ → Store → Result Error Store
  decide change tenant id key thumbprint now s =
      decide_or_repeat tenant id key (digest id thumbprint) now change s
        (first (has_key tenant false key) s.receipts)

  unfoldable pub activate : String → String → String → String → ℕ → Store → Result Error Store
  activate tenant id key thumbprint now s = decide activated tenant id key thumbprint now s

  unfoldable pub deny : String → String → String → String → ℕ → Store → Result Error Store
  deny tenant id key thumbprint now s =
      decide (revoked_for "consent_denied" now) tenant id key thumbprint now s
