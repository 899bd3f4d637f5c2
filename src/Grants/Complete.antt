-- ===== src/Grants/Complete.antt =====
-- `GrantService`: what a completion that succeeds was shown, and what it stores.
use wp_auto.Base.{
  ℕ, ◌/◌, ◌<◌, String, ◌≡◌, refl, sym, ap, ◌∙◌, ◌⊎◌, inl, inr, Bool, true, false, not, ◌&&◌, none,
  some, [], ◌∷◌, ◌++◌, arith, ltb, leb, Bool-cases, Option-cases, ◌==◌, ==_iff, nat_eq, text_eq,
  bytes_eq, take, count, Result, ok, err, >>=-eq-ok, guard-ok, or_fail-ok, ok_pair, ok_injective,
}
use wp_auto.Base.{update_where}
use wp_auto.SiteProof.{Diagnostic, Decision, approved, denied, consent, Verified, verify_site_proof}
use wp_auto.SiteProof.Bound.{IsSigned, Answers, proof_binds}
use wp_auto.Grants.{
  Store, PendingGrant, Site, Grant, active, revoked, Receipt, grant_complete, find_pending,
  is_pending, has_key, idempotency_conflict, completion_replay, decidable, decide_or_repeat,
  activate, deny,
}
use wp_auto.Grants.{Error as StoreError}
use wp_auto.Grants.Service.{
  Services, CompleteInput, lifted, checked_proof, expected_of, check_consent, complete, settle,
  grant_not_pending, challenge_invalid,
}
use wp_auto.Base.Text.{codes, utf16}
use wp_auto.Base.Rows.{first}
use wp_auto.Grants.Pending.{is_recorded, Reads, found_pending}

lifted-ok : {A : Type 0} (m : Result StoreError A) (x : A) → lifted m ≡ ok x → m ≡ ok x
lifted-ok (ok y) x e = rw (ok_injective e) refl
lifted-ok (err y) x e = cc

checked-ok : (m : Result Diagnostic Verified) (v : Verified) → checked_proof m ≡ ok v → m ≡ ok v
checked-ok (ok y) v e = rw (ok_injective e) refl
checked-ok (err y) v e = cc

-- What a completion was decided on: the stored grant of its id and the stored site of that grant, in time
-- unless it is repeated; the secret of the challenge; and a proof by the key of that site, of this
-- grant, its tenant, site, subject, client, resource and scopes and of the decision.
pub record Consents (services : Services) (i : CompleteInput) (now : ℕ) (s : Store) (v : Verified)
    : Type 0 where
  pub row : Grant
  pub site : Site
  pub reads : Reads i.tenant_id i.grant_id i.idempotency_key s row site
  pub in_time :
      (is_recorded i.tenant_id i.grant_id i.idempotency_key s ≡ true)
      ⊎ (now < row.consent_expires_at)
  pub its_challenge : services.sha256 i.challenge ≡ row.challenge_hash
  pub its_key : IsSigned services.library i.proof site.public_jwk v
  pub its_claims :
      Answers
        (record {
          kind = consent;
          platform_issuer = services.issuer;
          tenant_id = row.tenant_id;
          resource = site.resource;
          hostname = services.hostname site.resource;
          challenge = i.challenge;
          pairing_attempt_id = none;
          site_id = some row.site_id;
          platform_signing_key_sha256 = none;
          platform_signing_kid = none;
          grant_id = some row.id;
          client_id = some row.client_id;
          subject_id = some row.subject_id;
          scopes = some row.scopes;
          decision = some i.decision;
          now = now / 1000;
        })
        v.claims

-- What a decision sets in the row of its grant.
abbrev pub outcome : Decision → ℕ → Grant → Grant
outcome approved now g = record g { status = active }
outcome denied now g = record g {
  status = revoked;
  revoked_at = some now;
  revocation_reason = some (take 64 (utf16 (codes "consent_denied")));
}

-- The tables after a decision: as they were when it is recorded under its key already, or else with the
-- pending grant that was still in time decided, once, and a new record under the key.
abbrev pub Stores : Services → CompleteInput → String → ℕ → Store → Store → Type 0
Stores services i thumbprint now s s' =
    let prior = first (has_key i.tenant_id false i.idempotency_key) s.receipts in
    let digest = services.completion_digest i.grant_id thumbprint in
    let decided : Grant → Bool = λ g.
      (g.tenant_id == i.tenant_id && g.id == i.grant_id)
      && (is_pending g.status && ltb now g.consent_expires_at) in
    ((r : Receipt) × (prior ≡ some r)
      × (r.request_digest ≡ digest)
      × (r.result_reference ≡ i.grant_id)
      × (s' ≡ s))
    ⊎ ((prior ≡ none)
        × (count decided s.grants ≡ 1)
        × (s'.sites ≡ s.sites)
        × (s'.grants ≡ update_where decided (outcome i.decision now) s.grants)
        × (s'.receipts
            ≡ s.receipts
              ++ record {
                tenant_id = i.tenant_id;
                operation = grant_complete;
                key = i.idempotency_key;
                request_digest = digest;
                result_reference = i.grant_id;
              }
                ∷ []))

module _ (services : Services) where
  check-Consents :
      (i : CompleteInput) (now : ℕ) (s : Store) (g : PendingGrant) (v : Verified)
      → check_consent services i now s ≡ ok (g, v)
      → Consents services i now s v × (g.tenant_id ≡ i.tenant_id) × (g.id ≡ i.grant_id)
  unfolding check_consent
  check-Consents i now s g v e =
      let (found, looked_up, e₁) =
        >>=-eq-ok (lifted (find_pending i.tenant_id i.grant_id i.idempotency_key s)) _ e in
      let (g', there, e₂) = or_fail-ok found grant_not_pending _ e₁ in
      let (timely, e₃) =
        guard-ok (not (not g'.completion_replay && leb g'.expires_at now)) grant_not_pending _ e₂ in
      let (hashes, e₄) =
        guard-ok (services.sha256 i.challenge == g'.challenge_hash) challenge_invalid _ e₃ in
      let (v', proved, e₅) =
        >>=-eq-ok
          (checked_proof (
            verify_site_proof services.library i.proof g'.public_jwk
              (expected_of services g' i now)))
          _ e₄ in
      let (same_g, same_v) = ok_pair e₅ in
      let held : find_pending i.tenant_id i.grant_id i.idempotency_key s ≡ ok (some g') =
        lifted-ok (find_pending i.tenant_id i.grant_id i.idempotency_key s) found looked_up
        ∙ ap ok there in
      let (row, site, reads, is_it) =
        found_pending i.tenant_id i.grant_id i.idempotency_key s g' held in
      let (signed, answers) =
        proof_binds services.library i.proof g'.public_jwk (expected_of services g' i now) v'
          (checked-ok _ v' proved) in
      let replay = is_recorded i.tenant_id i.grant_id i.idempotency_key s in
      (
        record {
          row = row;
          site = site;
          reads = reads;
          in_time = timely_cases replay row.consent_expires_at now (rw (← is_it) at timely);
          its_challenge =
              rw (← is_it) at ((==_iff (services.sha256 i.challenge) g'.challenge_hash).0 hashes);
          its_key = rw (← is_it, ← same_v) at signed;
          its_claims = rw (← is_it, ← same_v) at answers;
        },
        rw (same_g, ← is_it) (reads.same_tenant),
        rw (same_g, ← is_it) (reads.same_id),
      )
    where
      timely_cases :
          (replay : Bool) (expiry now : ℕ)
          → not (not replay && leb expiry now) ≡ true
          → (replay ≡ true) ⊎ (now < expiry)
      timely_cases true expiry now e = inl refl
      timely_cases false expiry now e = elim (Bool-cases (leb expiry now)) [
        | inl late ↦ absurd (ground arith)
        | inr early ↦ inr (ground arith)
      ]

  decide-Stores :
      (i : CompleteInput) (thumbprint : String) (now : ℕ) (s s' : Store)
      → decide_or_repeat i.tenant_id i.grant_id i.idempotency_key
          (services.completion_digest i.grant_id thumbprint)
          now
          (outcome i.decision now)
          s
          (first (has_key i.tenant_id false i.idempotency_key) s.receipts)
        ≡ ok s'
      → Stores services i thumbprint now s s'
  decide-Stores i thumbprint now s s' e =
      let digest = services.completion_digest i.grant_id thumbprint in
      elim (Option-cases (first (has_key i.tenant_id false i.idempotency_key) s.receipts)) [
        | inl unused ↦
            let (one, e₁) =
              guard-ok (count (decidable i.tenant_id i.grant_id now) s.grants == 1)
                completion_replay _ (rw unused at e) in
            let same = sym (ok_injective e₁) in
            inr (
              unused,
              (==_iff (count (decidable i.tenant_id i.grant_id now) s.grants) 1).0 one,
              ap (λ z. z.sites) same,
              ap (λ z. z.grants) same,
              ap (λ z. z.receipts) same,
            )
        | inr (r, used) ↦
            let (fits, e₁) =
              guard-ok (r.request_digest == digest && r.result_reference == i.grant_id)
                idempotency_conflict _ (rw used at e) in
            let digests : (r.request_digest == digest) ≡ true = ground arith in
            let refers : (r.result_reference == i.grant_id) ≡ true = ground arith in
            inl (
              r,
              used,
              (==_iff r.request_digest digest).0 digests,
              (==_iff r.result_reference i.grant_id).0 refers,
              sym (ok_injective e₁),
            )
      ]

  settle-Stores :
      (i : CompleteInput) (decision : Decision) (thumbprint : String) (now : ℕ) (s s' : Store)
      → i.decision ≡ decision
      → settle services decision i.tenant_id i.grant_id i.idempotency_key thumbprint now s ≡ ok s'
      → Stores services i thumbprint now s s'
  unfolding activate deny
  settle-Stores i approved thumbprint now s s' d e = decide-Stores i thumbprint now s s' (rw d e)
  settle-Stores i denied thumbprint now s s' d e = decide-Stores i thumbprint now s s' (rw d e)

  -- A completion that succeeds was decided on the stored grant of the tenant with the id of the request,
  -- pending or completed under the same key before, and on the active site that this grant names; it
  -- carried the secret of the grant's challenge, in time unless it repeats, and a proof signed by the key
  -- of that site whose claims are the tenant, site, subject, client, scopes and id of the grant, the
  -- resource of the site, the challenge and the decision. It stores nothing when its decision is recorded
  -- under the key already; otherwise it makes the one pending grant, if it has not expired, active on
  -- approval and revoked with the reason "consent_denied" on denial, and records it under the key.
  pub complete_binds :
      (i : CompleteInput) (now decided_at : ℕ) (s s' : Store) (v : Verified)
      → complete services i now decided_at s ≡ ok (v, s')
      → Consents services i now s v × Stores services i v.thumbprint decided_at s s'
  unfolding complete
  complete_binds i now decided_at s s' v e =
      let ((g, v'), checks, e₁) = >>=-eq-ok (check_consent services i now s) _ e in
      let (s₁, stored, e₂) =
        >>=-eq-ok
          (lifted (
            settle services i.decision g.tenant_id g.id i.idempotency_key v'.thumbprint decided_at
              s))
          _ e₁ in
      let (same_v, same_s) = ok_pair e₂ in
      let (c, tenants, ids) = check-Consents i now s g v' checks in
      let kept : settle services i.decision g.tenant_id g.id i.idempotency_key v'.thumbprint
            decided_at s
          ≡ ok s₁ =
        lifted-ok
          (settle services i.decision g.tenant_id g.id i.idempotency_key v'.thumbprint decided_at s)
          s₁ stored in
      rw (same_v, same_s)
        (
          c,
          settle-Stores i i.decision v'.thumbprint decided_at s s₁ refl (rw (tenants, ids) at kept),
        )
