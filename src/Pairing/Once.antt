-- ===== src/Pairing/Once.antt =====
-- `PairingService.verify`: an attempt is verified at most once.
use wp_auto.Base.{
  ℕ, ◌+◌, ◌≤◌, String, ◌≡◌, refl, ◌≢◌, inl, inr, Bool, true, false, not, ◌&&◌, none, List, [], ◌∷◌,
  arith, Bool-cases, Option-cases, ◌==◌, ==_iff, nat_eq, text_eq, bytes_eq, count, any, Result, ok,
  err, >>=-eq-ok, guard-ok, Result-cases, ok_pair, ok_injective,
}
use wp_auto.Base.{update_where, count_mono, count-append, count-update_where, count-update_le}
use wp_auto.Base.Members.{any-count}
use wp_auto.Contracts.{is_opaque_id}
use wp_auto.SiteRequest.Resource.{as_failure, canonicalize_resource}
use wp_auto.Pairing.{
  Attempt, Proof, Store, Error, Environment, is_attempt, is_pending, markable, set_status,
  verifying, failable, failed_with, completable, completed, create_attempt, mark_verifying, fail,
  complete, prove, settle, mark_and_prove, begin, pending, ten_minutes, invalid_verifier,
  invalid_identifier, not_a_resource, persisted, checked_site, persistence_failed, pairing_replay,
  idempotency_conflict, storage, state_invalid,
}
use wp_auto.Base.Text.{is_word, matches}
use wp_auto.Base.Rows.{first, count-update_drop}

abbrev waits : String → String → Attempt → Bool
waits tenant id r = is_attempt tenant id r && is_pending r.status

-- The attempt is in the table and is not pending any more.
abbrev pub IsMarked : String → String → List Attempt → Type 0
IsMarked tenant id rows =
    (1 ≤ count (is_attempt tenant id) rows) × (count (waits tenant id) rows ≡ 0)

update-IsMarked :
    (tenant id : String) (p : Attempt → Bool) (f : Attempt → Attempt) (rows : List Attempt)
    → ((r : Attempt) → is_attempt tenant id (f r) ≡ is_attempt tenant id r)
    → ((r : Attempt) → waits tenant id (f r) ≡ true → waits tenant id r ≡ true)
    → IsMarked tenant id rows
    → IsMarked tenant id (update_where p f rows)
update-IsMarked tenant id p f rows same less (there, none_waits) = (
  omega (arith, there, count-update_where p (is_attempt tenant id) f rows same),
  omega (arith, none_waits, count-update_le p (waits tenant id) f rows less),
)

mark-IsMarked :
    (tenant id tenant' id' : String) (now : ℕ) (s : Store)
    → IsMarked tenant id s.attempts
    → IsMarked tenant id (mark_verifying tenant' id' now s).1.attempts
unfolding mark_verifying
mark-IsMarked tenant id tenant' id' now s =
    update-IsMarked tenant id (markable tenant' id' now) (set_status verifying) s.attempts
      (λ r. refl) (λ r w. ground arith)

fail-IsMarked :
    (tenant id tenant' id' code : String) (s : Store)
    → IsMarked tenant id s.attempts
    → IsMarked tenant id (fail tenant' id' code s).attempts
unfolding fail
fail-IsMarked tenant id tenant' id' code s =
    update-IsMarked tenant id (failable tenant' id') (failed_with code) s.attempts (λ r. refl)
      (λ r w. ground arith)

persisted-ok : {A : Type 0} (m : Result Error A) (x : A) → persisted m ≡ ok x → m ≡ ok x
persisted-ok (ok y) x e = e
persisted-ok (err y) x e = cc

-- An attempt that begins is refused when its id is taken.
create-IsMarked :
    (tenant id : String) (r : Attempt) (s s' : Store)
    → create_attempt r s ≡ ok s'
    → IsMarked tenant id s.attempts
    → IsMarked tenant id s'.attempts
unfolding create_attempt
create-IsMarked tenant id r s s' e (there, none_waits) =
    elim (Bool-cases (any (is_attempt r.tenant_id r.id) s.attempts)) [
      | inl taken ↦ absurd (err_ne_ok (rw taken at e))
      | inr free ↦ rw (← ok_injective (rw free at e)) (elim (Bool-cases (is_attempt tenant id r)) [
        | inl mine ↦
            let same : (r.tenant_id ≡ tenant) × (r.id ≡ id) = is_attempt-ids tenant id r mine in
            let absent : any (is_attempt tenant id) s.attempts ≡ false =
              rw (same.0, same.1) at free in
            absurd (ground (arith, absent, any-count (is_attempt tenant id) s.attempts))
        | inr other ↦
            let one : count (is_attempt tenant id) (r ∷ []) ≡ 0 = ground arith in
            let two : count (waits tenant id) (r ∷ []) ≡ 0 = ground arith in
            (
              omega (arith, there, count-append (is_attempt tenant id) s.attempts (r ∷ [])),
              omega (arith, none_waits, two, count-append (waits tenant id) s.attempts (r ∷ [])),
            )
      ])
    ]
  where
    err_ne_ok : {x : Store} → ¬ (Path (Result Error Store) (err storage) (ok x))
    err_ne_ok e = cc

    is_attempt-ids :
        (tenant id : String) (r : Attempt)
        → is_attempt tenant id r ≡ true
        → (r.tenant_id ≡ tenant) × (r.id ≡ id)
    is_attempt-ids tenant id r e = elim (Bool-cases (r.tenant_id == tenant)) [
      | inr n ↦ absurd (ground arith)
      | inl a ↦
          let b : (r.id == id) ≡ true = ground arith in
          ((==_iff r.tenant_id tenant).0 a, (==_iff r.id id).0 b)
    ]

abbrev pub after_begin : Store → Result Error (ℕ × Store) → Store
after_begin s (err e) = s
after_begin s (ok (expiry, s')) = s'

module _ (env : Environment) where
  complete-IsMarked :
      (tenant id : String) (attempt : Attempt) (proof : Proof) (site key : String) (now : ℕ)
      (s s' : Store)
      → complete env attempt proof site key now s ≡ ok s'
      → IsMarked tenant id s.attempts
      → IsMarked tenant id s'.attempts
  unfolding complete
  complete-IsMarked tenant id attempt proof site key now s s' e marked =
      let digest = env.completion_digest attempt.id site proof.thumbprint in
      elim (Option-cases
        (first (λ r. r.tenant_id == attempt.tenant_id && r.key == key) s.receipts)) [
          | inl unknown ↦
              let (_, e₁) =
                guard-ok (not (any (λ r. r.tenant_id == attempt.tenant_id && r.id == site) s.sites))
                  storage _ (rw unknown at e) in
              let (_, e₂) =
                guard-ok (count (completable attempt.tenant_id attempt.id now) s.attempts == 1)
                  pairing_replay _ e₁ in
              rw (← ok_injective e₂) (
                update-IsMarked tenant id (completable attempt.tenant_id attempt.id now)
                  (completed site) s.attempts (λ r. refl) (λ r w. ground arith) marked)
          | inr (receipt, known) ↦
              let (_, e₁) =
                guard-ok (receipt.request_digest == digest && receipt.result_reference == site)
                  idempotency_conflict _ (rw known at e) in
              rw (← ok_injective e₁) marked
        ]

  settle-IsMarked :
      (tenant id tenant' id' : String) (attempt : Attempt) (verifier site key : String) (now : ℕ)
      (s : Store)
      → IsMarked tenant id s.attempts
      → IsMarked tenant id
          (settle env tenant' id' s (prove env attempt verifier site key now s)).1.attempts
  unfolding prove
  settle-IsMarked tenant id tenant' id' attempt verifier site key now s marked =
      elim (Result-cases (prove env attempt verifier site key now s)) [
        | inr (e, failure) ↦
            rw failure (fail-IsMarked tenant id tenant' id' "verification_failed" s marked)
        | inl ((proof, s'), proved) ↦
            let (p, _, e₁) =
              >>=-eq-ok (checked_site (env.check_site attempt site verifier)) _ proved in
            let (_, e₂) = guard-ok (is_opaque_id site) persistence_failed _ e₁ in
            let (s₁, stored, e₃) =
              >>=-eq-ok (persisted (complete env attempt p site key now s)) _ e₂ in
            let (_, same) = ok_pair e₃ in
            let kept =
              complete-IsMarked tenant id attempt p site key now s s₁ (persisted-ok _ s₁ stored)
                marked in
            rw proved (rw same kept)
      ]

  pub proved-IsMarked :
      (tenant id tenant' id' verifier site key : String) (marked_at completed_at : ℕ) (s : Store)
      (opened : Result Error Attempt)
      → IsMarked tenant id s.attempts
      → IsMarked tenant id
          (mark_and_prove env tenant' id' verifier site key marked_at completed_at s
            opened).1.attempts
  proved-IsMarked tenant id tenant' id' verifier site key marked_at completed_at s (err e) marked =
      marked
  proved-IsMarked tenant id tenant' id' verifier site key marked_at completed_at s (ok attempt)
        marked =
      let after = (mark_verifying tenant' id' marked_at s).1 in
      let kept = mark-IsMarked tenant id tenant' id' marked_at s marked in
      elim (Bool-cases (mark_verifying tenant' id' marked_at s).0) [
        | inl mine ↦ rw mine (
            settle-IsMarked tenant id tenant' id' attempt verifier site key completed_at after kept)
        | inr late ↦ rw late kept
      ]

  begun-IsMarked :
      (tenant id tenant' id' account correlation resource verifier : String) (now : ℕ)
      (s s' : Store) (expiry : ℕ)
      → begin env tenant' id' account correlation resource verifier now s ≡ ok (expiry, s')
      → IsMarked tenant id s.attempts
      → IsMarked tenant id s'.attempts
  unfolding begin
  begun-IsMarked tenant id tenant' id' account correlation resource verifier now s s' expiry e
        marked =
      let (_, e₁) = guard-ok (matches is_word 43 128 verifier) invalid_verifier _ e in
      let (_, e₂) =
        guard-ok (is_opaque_id id' && (is_opaque_id account && is_opaque_id correlation))
          invalid_identifier _ e₁ in
      let (place, _, e₃) =
        >>=-eq-ok (as_failure not_a_resource (canonicalize_resource env.urls resource)) _ e₂ in
      let row : Attempt = record {
        tenant_id = tenant';
        id = id';
        initiator = account;
        correlation_id = correlation;
        resource = place;
        verifier_hash = env.sha256 verifier;
        status = pending;
        expires_at = now + ten_minutes;
        site_id = none;
        failure_code = none;
      } in
      let (s₁, created, e₄) = >>=-eq-ok (persisted (create_attempt row s)) _ e₃ in
      let (_, same) = ok_pair e₄ in
      rw same
        (create-IsMarked tenant id row s s₁ (persisted-ok (create_attempt row s) s₁ created) marked)

  pub begin-IsMarked :
      (tenant id tenant' id' account correlation resource verifier : String) (now : ℕ) (s : Store)
      → IsMarked tenant id s.attempts
      → IsMarked tenant id
          (after_begin s
            (begin env tenant' id' account correlation resource verifier now s)).attempts
  begin-IsMarked tenant id tenant' id' account correlation resource verifier now s marked =
      elim (Result-cases (begin env tenant' id' account correlation resource verifier now s)) [
        | inr (e, failure) ↦ rw failure marked
        | inl ((expiry, s'), begun) ↦ rw begun (
            begun-IsMarked tenant id tenant' id' account correlation resource verifier now s s'
              expiry begun marked)
      ]

  fresh-IsMarked :
      (tenant id : String) (now : ℕ) (s : Store)
      → count (is_attempt tenant id) s.attempts ≤ 1
      → (mark_verifying tenant id now s).0 ≡ true
      → IsMarked tenant id (mark_verifying tenant id now s).1.attempts
  unfolding mark_verifying
  fresh-IsMarked tenant id now s single done =
      let one = (==_iff (count (markable tenant id now) s.attempts) 1).0 done in
      let kept =
        count-update_where (markable tenant id now) (is_attempt tenant id) (set_status verifying)
          s.attempts λ r. refl in
      let drop =
        count-update_drop (markable tenant id now) (waits tenant id) (set_status verifying)
          s.attempts (λ r m. ground arith) (λ r m. ground arith) in
      let fewer =
        count_mono (waits tenant id) (is_attempt tenant id) s.attempts λ r w. ground arith in
      (omega (arith, kept, drop, fewer, one), omega (arith, drop, fewer, one, single))

  pub verified-IsMarked :
      (tenant id verifier site key : String) (marked_at completed_at : ℕ) (s : Store)
      (opened : Result Error Attempt) (proof : Proof)
      → count (is_attempt tenant id) s.attempts ≤ 1
      → (mark_and_prove env tenant id verifier site key marked_at completed_at s opened).0
        ≡ ok proof
      → IsMarked tenant id
          (mark_and_prove env tenant id verifier site key marked_at completed_at s
            opened).1.attempts
  verified-IsMarked tenant id verifier site key marked_at completed_at s (err e) proof single done =
      cc
  verified-IsMarked tenant id verifier site key marked_at completed_at s (ok attempt) proof single
        done =
      let after = (mark_verifying tenant id marked_at s).1 in
      elim (Bool-cases (mark_verifying tenant id marked_at s).0) [
        | inl mine ↦ rw mine (
            settle-IsMarked tenant id tenant id attempt verifier site key completed_at after
              (fresh-IsMarked tenant id marked_at s single mine))
        | inr late ↦ absurd (err_ne_ok (rw late at done))
      ]
    where
      err_ne_ok : {x : Proof} → ¬ (Path (Result Error Proof) (err state_invalid) (ok x))
      err_ne_ok e = cc

  pub unverifiable :
      (tenant id verifier site key : String) (marked_at completed_at : ℕ) (s : Store)
      (opened : Result Error Attempt) (proof : Proof)
      → IsMarked tenant id s.attempts
      → (mark_and_prove env tenant id verifier site key marked_at completed_at s opened).0
        ≢ ok proof
  unfolding mark_verifying
  unverifiable tenant id verifier site key marked_at completed_at s (err e) proof marked done = cc
  unverifiable tenant id verifier site key marked_at completed_at s (ok attempt) proof
        (there, none_waits) done =
      let fewer =
        count_mono (markable tenant id marked_at) (waits tenant id) s.attempts
          λ r m. ground arith in
      let none_left : count (markable tenant id marked_at) s.attempts ≡ 0 =
        omega (arith, fewer, none_waits) in
      err_is_ok (rw none_left at done)
    where
      err_is_ok : {x : Proof} → ¬ (Path (Result Error Proof) (err state_invalid) (ok x))
      err_is_ok e = cc
