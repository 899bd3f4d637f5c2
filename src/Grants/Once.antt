-- ===== src/Grants/Once.antt =====
-- `activate` and `deny`: a grant is decided once.
use wp_auto.Base.{
  ℕ, ◌≤◌, String, ◌≡◌, refl, ◌∙◌, inl, inr, Bool, true, false, not, ◌&&◌, Option, none, some, List,
  [], ◌∷◌, arith, if◌then◌else◌, Bool-cases, ◌==◌, ==_iff, nat_eq, text_eq, bytes_eq, Bytes,
  ==_refl, count, any, ok, err, guard-ok, Result-cases, ok_pair, ok_injective,
}
use wp_auto.Base.{count_mono, count-update_where}
use wp_auto.Base.Rows.{first, first-append, first-count, first-append_left, count-update_drop}
use wp_auto.Grants.{
  Grant, Store, NewGrant, Created, Receipt, grant_create, grant_complete, is_pending, has_id,
  has_key, collides, is_its_site, receipt, decidable, activated, revoked_for, prior_grant,
  repeat_or_insert, decide_new, decide_or_repeat, insert_pending, create_pending, activate, deny,
  storage, active_site_not_found, idempotency_conflict, completion_replay,
}
use wp_auto.Grants.Calls.{creates, activates, denies, revokes, Call, run, settled, after, step}
use wp_auto.Grants.Status.{IsPast, in_status, run-IsPast, pending-Falls}
use wp_auto.SiteProof.{Decision, approved, denied}
use wp_auto.Grants.Service.{Services, settle}

-- The grant is in the table and decided, once a decision for it succeeded.
decided-IsPast :
    (change : Grant → Grant) (tenant id key : String) (digest : Bytes) (now : ℕ) (s s' : Store)
    → ((g : Grant) → has_id tenant id (change g) ≡ has_id tenant id g)
    → ((g : Grant) → is_pending (change g).status ≡ false)
    → count (has_id tenant id) s.grants ≤ 1
    → decide_new tenant id key digest now change s ≡ ok s'
    → IsPast is_pending tenant id s'.grants
decided-IsPast change tenant id key digest now s s' same decided single e =
    let (one, e₁) =
      guard-ok (count (decidable tenant id now) s.grants == 1) completion_replay _ e in
    let found = (==_iff (count (decidable tenant id now) s.grants) 1).0 one in
    let fewer =
      count_mono (in_status is_pending tenant id) (has_id tenant id) s.grants λ g h. ground arith in
    let kept =
      count-update_where (decidable tenant id now) (has_id tenant id) change s.grants same in
    let drop =
      count-update_drop (decidable tenant id now) (in_status is_pending tenant id) change s.grants
        (λ g d. ground arith) (λ g d. ground (arith, decided g)) in
    let all_in =
      count_mono (decidable tenant id now) (has_id tenant id) s.grants λ g h. ground arith in
    rw (← ok_injective e₁)
      (omega (arith, kept, found, all_in), omega (arith, drop, found, fewer, single))

decided_receipt :
    (change : Grant → Grant) (tenant id key : String) (digest : Bytes) (now : ℕ) (s s' : Store)
    → first (has_key tenant false key) s.receipts ≡ none
    → decide_new tenant id key digest now change s ≡ ok s'
    → first (has_key tenant false key) s'.receipts
      ≡ some (receipt tenant grant_complete key digest id)
decided_receipt change tenant id key digest now s s' new e =
    let (_, e₁) = guard-ok (count (decidable tenant id now) s.grants == 1) completion_replay _ e in
    let row = receipt tenant grant_complete key digest id in
    let its : first (has_key tenant false key) (row ∷ []) ≡ some row =
      ground (arith, ==_refl tenant, ==_refl key) in
    rw (← ok_injective e₁) (
      first-append (has_key tenant false key) s.receipts (row ∷ [])
        (first-count (has_key tenant false key) s.receipts new)
      ∙ its)

decide_again :
    (change : Grant → Grant) (tenant id key : String) (digest digest' : Bytes) (now : ℕ) (s : Store)
    → decide_or_repeat tenant id key digest' now change s
        (some (receipt tenant grant_complete key digest id))
      ≡ (if digest == digest' then ok s else err idempotency_conflict)
decide_again change tenant id key digest digest' now s = elim (Bool-cases (digest == digest')) [
  | inl same ↦ rw (same, ==_refl id) refl
  | inr other ↦ rw other refl
]

undecidable :
    (change : Grant → Grant) (tenant id key : String) (digest : Bytes) (now : ℕ) (s : Store)
    → IsPast is_pending tenant id s.grants
    → decide_new tenant id key digest now change s ≡ err completion_replay
undecidable change tenant id key digest now s (_, past) =
    let fewer =
      count_mono (decidable tenant id now) (in_status is_pending tenant id) s.grants
        λ g d. ground arith in
    let none_left : count (decidable tenant id now) s.grants ≡ 0 = omega (arith, fewer, past) in
    rw none_left refl

insert_receipt :
    (p : Receipt → Bool) (n : NewGrant) (s : Store) (r : Receipt)
    → first p s.receipts ≡ some r
    → first p (after s (insert_pending n s)).receipts ≡ some r
unfolding insert_pending
insert_receipt p n s r e = elim (Result-cases (insert_pending n s)) [
  | inr (x, failure) ↦ rw failure e
  | inl ((c, s'), done) ↦ rw done (inserted p n s s' c r done e)
]
  where
    inserted :
        (p : Receipt → Bool) (n : NewGrant) (s s' : Store) (c : Created) (r : Receipt)
        → insert_pending n s ≡ ok (c, s')
        → first p s.receipts ≡ some r
        → first p s'.receipts ≡ some r
    inserted p n s s' c r done e =
        let (_, e₁) = guard-ok (count (is_its_site n) s.sites == 1) active_site_not_found _ done in
        let (_, e₂) = guard-ok (not (any (collides n) s.grants)) storage _ e₁ in
        let (_, e₃) =
          guard-ok (not (any (has_key n.tenant_id true n.idempotency_key) s.receipts)) storage _
            e₂ in
        let (_, same) = ok_pair e₃ in
        rw same (
          first-append_left p s.receipts
            (receipt n.tenant_id grant_create n.idempotency_key n.request_digest n.id ∷ []) r e)

create_receipt :
    (p : Receipt → Bool) (n : NewGrant) (s : Store) (r : Receipt) (prior : Option (Receipt × Grant))
    → first p s.receipts ≡ some r
    → first p (after s (repeat_or_insert n s prior)).receipts ≡ some r
create_receipt p n s r none e = insert_receipt p n s r e
create_receipt p n s r (some (row, g)) e =
    elim (Bool-cases (row.request_digest == n.request_digest)) [
      | inl same ↦ rw same e
      | inr other ↦ rw other e
    ]

decide_receipt :
    (p : Receipt → Bool) (change : Grant → Grant) (tenant id key : String) (digest : Bytes)
    (now : ℕ) (s : Store) (r : Receipt) (prior : Option Receipt)
    → first p s.receipts ≡ some r
    → first p (settled s (decide_or_repeat tenant id key digest now change s prior)).receipts
      ≡ some r
decide_receipt p change tenant id key digest now s r none e =
    elim (Bool-cases (count (decidable tenant id now) s.grants == 1)) [
      | inl one ↦
          rw one
            (first-append_left p s.receipts (receipt tenant grant_complete key digest id ∷ []) r e)
      | inr other ↦ rw other e
    ]
decide_receipt p change tenant id key digest now s r (some row) e =
    elim (Bool-cases (row.request_digest == digest && row.result_reference == id)) [
      | inl same ↦ rw same e
      | inr other ↦ rw other e
    ]

module _ (digest : String → String → Bytes) where
  -- The receipts of earlier calls stay.
  step_receipt :
      (p : Receipt → Bool) (c : Call) (s : Store) (r : Receipt)
      → first p s.receipts ≡ some r
      → first p (step digest c s).receipts ≡ some r
  unfolding create_pending activate deny insert_pending
  step_receipt p (creates n) s r e =
      create_receipt p n s r
        (prior_grant s (first (has_key n.tenant_id true n.idempotency_key) s.receipts)) e
  step_receipt p (activates tenant id key thumbprint now) s r e =
      decide_receipt p activated tenant id key (digest id thumbprint) now s r
        (first (has_key tenant false key) s.receipts) e
  step_receipt p (denies tenant id key thumbprint now) s r e =
      decide_receipt p (revoked_for "consent_denied" now) tenant id key (digest id thumbprint) now s
        r (first (has_key tenant false key) s.receipts) e
  step_receipt p (revokes tenant id reason now) s r e = e

  run_receipt :
      (p : Receipt → Bool) (cs : List Call) (s : Store) (r : Receipt)
      → first p s.receipts ≡ some r
      → first p (run digest cs s).receipts ≡ some r
  run_receipt p [] s r e = e
  run_receipt p (c ∷ cs) s r e = run_receipt p cs (step digest c s) r (step_receipt p c s r e)

module _ (services : Services) where
  open services use {completion_digest}

  decided_by :
      (d : Decision) (tenant id key thumbprint : String) (now : ℕ) (s s' : Store)
      → settle services d tenant id key thumbprint now s ≡ ok s'
      → first (has_key tenant false key) s.receipts ≡ none
      → count (has_id tenant id) s.grants ≤ 1
      → IsPast is_pending tenant id s'.grants
        × (first (has_key tenant false key) s'.receipts
            ≡ some (receipt tenant grant_complete key (completion_digest id thumbprint) id))
  unfolding activate deny
  decided_by approved tenant id key thumbprint now s s' e new single =
      let e' : decide_new tenant id key (completion_digest id thumbprint) now activated s ≡ ok s' =
        rw new at e in
      (
        decided-IsPast activated tenant id key (completion_digest id thumbprint) now s s'
            (λ g. refl) (λ g. refl) single e',
        decided_receipt activated tenant id key (completion_digest id thumbprint) now s s' new e',
      )
  decided_by denied tenant id key thumbprint now s s' e new single =
      let change = revoked_for "consent_denied" now in
      let e' : decide_new tenant id key (completion_digest id thumbprint) now change s ≡ ok s' =
        rw new at e in
      (
        decided-IsPast change tenant id key (completion_digest id thumbprint) now s s' (λ g. refl)
            (λ g. refl) single e',
        decided_receipt change tenant id key (completion_digest id thumbprint) now s s' new e',
      )

  settle_repeat :
      (d : Decision) (tenant id key thumbprint thumbprint' : String) (now : ℕ) (z : Store)
      → first (has_key tenant false key) z.receipts
        ≡ some (receipt tenant grant_complete key (completion_digest id thumbprint) id)
      → settle services d tenant id key thumbprint' now z ≡ (
          if completion_digest id thumbprint == completion_digest id thumbprint'
          then ok z
          else err idempotency_conflict)
  unfolding activate deny
  settle_repeat approved tenant id key thumbprint thumbprint' now z known = rw known (
      decide_again activated tenant id key (completion_digest id thumbprint)
        (completion_digest id thumbprint') now z)
  settle_repeat denied tenant id key thumbprint thumbprint' now z known = rw known (
      decide_again (revoked_for "consent_denied" now) tenant id key
        (completion_digest id thumbprint) (completion_digest id thumbprint') now z)

  settle_again :
      (d : Decision) (tenant id key thumbprint : String) (now : ℕ) (z : Store)
      → IsPast is_pending tenant id z.grants
      → first (has_key tenant false key) z.receipts ≡ none
      → settle services d tenant id key thumbprint now z ≡ err completion_replay
  unfolding activate deny
  settle_again approved tenant id key thumbprint now z past new =
      rw new (undecidable activated tenant id key (completion_digest id thumbprint) now z past)
  settle_again denied tenant id key thumbprint now z past new = rw new (
      undecidable (revoked_for "consent_denied" now) tenant id key (completion_digest id thumbprint)
        now z past)

  -- After a first decision on a grant, whatever calls follow, a further decision on it changes nothing,
  -- whether it approves or denies. Under a key that is not used yet it fails with
  -- `grant_completion_replay`; under the key of the first decision it succeeds without effect if it is
  -- proved with the key of the same thumbprint, and fails with `idempotency_conflict` if the digest of
  -- the completion differs.
  pub decided_once :
      (d d' : Decision) (tenant id key key' thumbprint thumbprint' : String) (now later : ℕ)
      (cs : List Call) (s s' : Store)
      → settle services d tenant id key thumbprint now s ≡ ok s'
      → first (has_key tenant false key) s.receipts ≡ none
      → count (has_id tenant id) s.grants ≤ 1
      → first (has_key tenant false key') (run completion_digest cs s').receipts ≡ none
      → (settle services d' tenant id key' thumbprint' later (run completion_digest cs s')
          ≡ err completion_replay)
        × (settle services d' tenant id key thumbprint' later (run completion_digest cs s') ≡ (
            if completion_digest id thumbprint == completion_digest id thumbprint'
            then ok (run completion_digest cs s')
            else err idempotency_conflict))
  decided_once d d' tenant id key key' thumbprint thumbprint' now later cs s s' e new single
        unused =
      let (past, known) = decided_by d tenant id key thumbprint now s s' e new single in
      let z = run completion_digest cs s' in
      (
        settle_again d' tenant id key' thumbprint' later z
            (run-IsPast completion_digest is_pending tenant id cs s' pending-Falls past) unused,
        settle_repeat d' tenant id key thumbprint thumbprint' later z (
            run_receipt completion_digest (has_key tenant false key) cs s'
              (receipt tenant grant_complete key (completion_digest id thumbprint) id) known),
      )
