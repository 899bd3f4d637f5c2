-- ===== src/Pairing.antt =====
-- packages/pairing/src/index.ts, `PairingService`, and packages/database/src/index.ts,
-- `PostgresPairingRepository`: how a site is paired with a tenant. Times are milliseconds. The check of
-- the site's proof, the hash functions and the form of a resource are parameters.
pub mod Once
pub mod Calls
mod Tests
use wp_auto.Base.{
  ℕ, zero, suc, ◌+◌, ◌-◌, ◌*◌, ◌/◌, ◌%◌, ◌^◌, ◌≤◌, ◌<◌, min, max, String, ◌≡◌, refl, sym, ap, ◌∙◌,
  ◌≢◌, ◌↔◌, ◌⊎◌, inl, inr, Bool, true, false, not, ◌&&◌, ◌||◌, Option, none, some, List, [], ◌∷◌,
  ◌++◌, map, arith, ltb, leb, if◌then◌else◌, ltb→lt, lt→ltb, leb→le, le→leb, Bool-cases,
  Option-cases, HasEq, ◌==◌, ==_iff, nat_eq, text_eq, bytes_eq, Bytes, ==_refl, ==_ne, length,
  get_elem?, take, filter, count, all, any, Result, ok, err, ◌>>=◌, ◌>>◌, guard, or_fail, commit,
  >>=-eq-ok, guard-ok, guard-true, or_fail-ok, Result-cases, ok_pair, ok_injective,
}
use wp_auto.Base.{update_where}
use wp_auto.Base.Rows.{first}
use wp_auto.Contracts.{is_opaque_id}
use wp_auto.SiteRequest.Resource.{Urls, Refusal, as_failure, canonicalize_resource}
use wp_auto.Base.Text.{is_word, matches}

pub data Status : Type 0 where
  pending verifying active failed : Status

-- A row of `platform.pairing_attempts`.
pub record Attempt : Type 0 where
  pub tenant_id : String
  pub id : String
  pub initiator : String
  pub correlation_id : String
  pub resource : String
  pub verifier_hash : Bytes
  pub status : Status
  pub expires_at : ℕ
  pub site_id : Option String
  pub failure_code : Option String

-- The public key of a site and its thumbprint, as the proof shows them.
pub record Proof : Type 0 where
  pub public_jwk : String
  pub thumbprint : String

-- A row of `platform.sites`.
pub record Site : Type 0 where
  pub tenant_id : String
  pub id : String
  pub resource : String
  pub proof : Proof

-- A row of `platform.idempotency_records` of the operation `pairing.complete`.
pub record Receipt : Type 0 where
  pub tenant_id : String
  pub key : String
  pub request_digest : Bytes
  pub result_reference : String

pub record Store : Type 0 where
  pub attempts : List Attempt
  pub sites : List Site
  pub receipts : List Receipt

pub data Error : Type 0 where
  invalid_verifier invalid_identifier state_invalid persistence_failed : Error
  not_a_resource : Refusal → Error
  verification_failed : String → Error
  idempotency_conflict pairing_replay storage : Error

abbrev pub ten_minutes : ℕ
ten_minutes = 600000

abbrev pub is_attempt : String → String → Attempt → Bool
is_attempt tenant id r = r.tenant_id == tenant && r.id == id

abbrev pub is_pending : Status → Bool
is_pending pending = true
is_pending _ = false

abbrev pub is_verifying : Status → Bool
is_verifying verifying = true
is_verifying _ = false

abbrev pub set_status : Status → Attempt → Attempt
set_status status r = record r { status = status }

-- The parts that are not in these files: the parser of URLs, SHA-256 of a text, the
-- digest of a completion and `verifier.verify` for an attempt, a site and a verifier.
pub record Environment : Type 0 where
  pub urls : Urls
  pub sha256 : String → Bytes
  pub completion_digest : String → String → String → Bytes
  pub check_site : Attempt → String → String → Result String Proof

-- INSERT; the primary key is the tenant and the id.
unfoldable pub create_attempt : Attempt → Store → Result Error Store
create_attempt r s =
    if any (is_attempt r.tenant_id r.id) s.attempts
    then err storage
    else ok (record s { attempts = s.attempts ++ r ∷ [] })

unfoldable pub find_attempt : String → String → Store → Option Attempt
find_attempt tenant id s =
    first (λ r. is_attempt tenant id r && (is_pending r.status || is_verifying r.status)) s.attempts

abbrev pub markable : String → String → ℕ → Attempt → Bool
markable tenant id now r = is_attempt tenant id r && (is_pending r.status && ltb now r.expires_at)

unfoldable pub mark_verifying : String → String → ℕ → Store → Bool × Store
mark_verifying tenant id now s = (
  count (markable tenant id now) s.attempts == 1,
  record s { attempts = update_where (markable tenant id now) (set_status verifying) s.attempts },
)

abbrev pub failable : String → String → Attempt → Bool
failable tenant id r = is_attempt tenant id r && is_verifying r.status

abbrev pub failed_with : String → Attempt → Attempt
failed_with code r = record r { status = failed; failure_code = some code }

unfoldable pub fail : String → String → String → Store → Store
fail tenant id code s = record s {
  attempts = update_where (failable tenant id) (failed_with code) s.attempts;
}

abbrev pub completable : String → String → ℕ → Attempt → Bool
completable tenant id now r = failable tenant id r && ltb now r.expires_at

abbrev pub completed : String → Attempt → Attempt
completed site r = record r { status = active; site_id = some site }

-- `catch` reports every failure of the repository as one.
abbrev pub persisted {ℓ} : {A : Type ℓ} → Result Error A → Result Error A
persisted (ok a) = ok a
persisted (err _) = err persistence_failed

abbrev pub checked_site : Result String Proof → Result Error Proof
checked_site (ok proof) = ok proof
checked_site (err code) = err (verification_failed code)

module _ (env : Environment) where
  open env use {urls, sha256, completion_digest, check_site}

  abbrev pub repeated : Bytes → String → Receipt → Store → Result Error Store
  repeated digest site r s = do
    guard (r.request_digest == digest && r.result_reference == site) idempotency_conflict
    ok s

  abbrev pub pair_site : Attempt → Proof → String → String → ℕ → Bytes → Store → Result Error Store
  pair_site attempt proof site key now digest s = do
    guard (not (any (λ r. r.tenant_id == attempt.tenant_id && r.id == site) s.sites)) storage
    guard (count (completable attempt.tenant_id attempt.id now) s.attempts == 1) pairing_replay
    ok (record {
      attempts =
          update_where (completable attempt.tenant_id attempt.id now) (completed site) s.attempts;
      sites =
          s.sites
          ++ record {
            tenant_id = attempt.tenant_id;
            id = site;
            resource = attempt.resource;
            proof = proof;
          }
            ∷ [];
      receipts =
          s.receipts
          ++ record {
            tenant_id = attempt.tenant_id;
            key = key;
            request_digest = digest;
            result_reference = site;
          }
            ∷ [];
    })

  abbrev pub complete_with :
      Attempt → Proof → String → String → ℕ → Bytes → Store → Option Receipt → Result Error Store
  complete_with attempt proof site key now digest s none =
      pair_site attempt proof site key now digest s
  complete_with attempt proof site key now digest s (some r) = repeated digest site r s

  unfoldable pub complete : Attempt → Proof → String → String → ℕ → Store → Result Error Store
  complete attempt proof site key now s =
      let digest = completion_digest attempt.id site proof.thumbprint in
      complete_with attempt proof site key now digest s
        (first (λ r. r.tenant_id == attempt.tenant_id && r.key == key) s.receipts)

  -- `PairingService.begin`
  unfoldable pub begin :
      String → String → String → String → String → String → ℕ → Store → Result Error (ℕ × Store)
  unfolding create_attempt
  begin tenant id account correlation resource verifier now s = do
    guard (matches is_word 43 128 verifier) invalid_verifier
    guard (is_opaque_id id && (is_opaque_id account && is_opaque_id correlation)) invalid_identifier
    place ← as_failure not_a_resource (canonicalize_resource urls resource)
    s' ← persisted (
        create_attempt
          (record {
            tenant_id = tenant;
            id = id;
            initiator = account;
            correlation_id = correlation;
            resource = place;
            verifier_hash = sha256 verifier;
            status = pending;
            expires_at = now + ten_minutes;
            site_id = none;
            failure_code = none;
          })
          s)
    ok (now + ten_minutes, s')

  -- What `verify` checks before it marks the attempt.
  unfoldable pub open_attempt : String → String → String → ℕ → Store → Result Error Attempt
  open_attempt tenant id verifier now s = do
    attempt ← or_fail (find_attempt tenant id s) state_invalid
    guard (ltb now attempt.expires_at) state_invalid
    guard (sha256 verifier == attempt.verifier_hash) state_invalid
    ok attempt

  -- What it does after the mark: the site's proof, then the completion.
  unfoldable pub prove :
      Attempt → String → String → String → ℕ → Store → Result Error (Proof × Store)
  prove attempt verifier site key now s = do
    proof ← checked_site (check_site attempt site verifier)
    guard (is_opaque_id site) persistence_failed
    s' ← persisted (complete attempt proof site key now s)
    ok (proof, s')

  abbrev pub settle :
      String → String → Store → Result Error (Proof × Store) → Result Error Proof × Store
  settle tenant id s (ok (proof, s')) = (ok proof, s')
  settle tenant id s (err e) = (err e, fail tenant id "verification_failed" s)

  abbrev pub mark_and_prove :
      String
      → String
      → String
      → String
      → String
      → ℕ
      → ℕ
      → Store
      → Result Error Attempt
      → Result Error Proof × Store
  mark_and_prove tenant id verifier site key marked_at completed_at s (err e) = (err e, s)
  mark_and_prove tenant id verifier site key marked_at completed_at s (ok attempt) =
      let marked = mark_verifying tenant id marked_at s in
      let proved =
        settle tenant id marked.1 (prove attempt verifier site key completed_at marked.1) in
      if marked.0 then proved else (err state_invalid, marked.1)

  -- `PairingService.verify`; each call of the repository is a transaction with its own time.
  unfoldable pub verify :
      String → String → String → String → String → ℕ → ℕ → ℕ → Store → Result Error Proof × Store
  unfolding open_attempt prove
  verify tenant id verifier site key now marked_at completed_at s =
      mark_and_prove tenant id verifier site key marked_at completed_at s
        (open_attempt tenant id verifier now s)
