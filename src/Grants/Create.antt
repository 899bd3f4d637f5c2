-- ===== src/Grants/Create.antt =====
-- `createPending` answers a repeated request with the grant that it stored.
use wp_auto.Base.{
  ◌≡◌, refl, ◌∙◌, inl, inr, true, not, Option, none, some, [], ◌∷◌, ◌++◌, arith, if◌then◌else◌,
  Bool-cases, ◌==◌, ==_iff, nat_eq, text_eq, bytes_eq, ==_refl, count, any, ok, err, guard-ok,
  ok_pair,
}
use wp_auto.Base.{count_mono}
use wp_auto.Base.Rows.{first, first-append}
use wp_auto.Base.Members.{any-count}
use wp_auto.Grants.{
  Grant, Store, NewGrant, Created, Receipt, grant_create, has_id, has_key, collides, is_its_site,
  pending_row, receipt, prior_grant, repeat_or_insert, insert_pending, create_pending, storage,
  active_site_not_found, idempotency_conflict,
}

-- The request's receipt and its grant, and what they answer.
record Known (n : NewGrant) (c : Created) (s : Store) : Type 0 where
  row : Receipt
  grant : Grant
  found :
      prior_grant s (first (has_key n.tenant_id true n.idempotency_key) s.receipts)
      ≡ some (row, grant)
  same_digest : row.request_digest ≡ n.request_digest
  answers : Path Created c (record {
    id = row.result_reference;
    created_at = grant.created_at;
    expires_at = grant.consent_expires_at;
  })

insert-Known :
    (n : NewGrant) (s s' : Store) (c : Created) → insert_pending n s ≡ ok (c, s') → Known n c s'
unfolding insert_pending
insert-Known n s s' c e =
    let (_, e₁) = guard-ok (count (is_its_site n) s.sites == 1) active_site_not_found _ e in
    let (free, e₂) = guard-ok (not (any (collides n) s.grants)) storage _ e₁ in
    let (fresh, e₃) =
      guard-ok (not (any (has_key n.tenant_id true n.idempotency_key) s.receipts)) storage _ e₂ in
    let (answer, same) = ok_pair e₃ in
    let row = receipt n.tenant_id grant_create n.idempotency_key n.request_digest n.id in
    let no_key : count (has_key n.tenant_id true n.idempotency_key) s.receipts ≡ 0 =
      ground (arith, fresh, any-count (has_key n.tenant_id true n.idempotency_key) s.receipts) in
    let fewer = count_mono (has_id n.tenant_id n.id) (collides n) s.grants λ g h. ground arith in
    let no_id : count (has_id n.tenant_id n.id) s.grants ≡ 0 =
      ground (arith, fewer, free, any-count (collides n) s.grants) in
    let got : first (has_key n.tenant_id true n.idempotency_key) (s.receipts ++ row ∷ [])
        ≡ some row =
      first-append (has_key n.tenant_id true n.idempotency_key) s.receipts (row ∷ []) no_key
      ∙ ground (arith, ==_refl n.tenant_id, ==_refl n.idempotency_key) in
    let its : first (has_id n.tenant_id n.id) (s.grants ++ pending_row n ∷ [])
        ≡ some (pending_row n) =
      first-append (has_id n.tenant_id n.id) s.grants (pending_row n ∷ []) no_id
      ∙ ground (arith, ==_refl n.tenant_id, ==_refl n.id) in
    rw same (record {
      row = row;
      grant = pending_row n;
      found = rw (got, its) refl;
      same_digest = refl;
      answers = answer;
    })

create-Known :
    (n : NewGrant) (s s' : Store) (c : Created) (prior : Option (Receipt × Grant))
    → prior_grant s (first (has_key n.tenant_id true n.idempotency_key) s.receipts) ≡ prior
    → repeat_or_insert n s prior ≡ ok (c, s')
    → Known n c s'
create-Known n s s' c none none_yet e = insert-Known n s s' c e
create-Known n s s' c (some (r, g)) found e =
    let (digests, e₁) = guard-ok (r.request_digest == n.request_digest) idempotency_conflict _ e in
    let (answer, same) = ok_pair e₁ in
    rw same (record {
      row = r;
      grant = g;
      found = found;
      same_digest = (==_iff r.request_digest n.request_digest).0 digests;
      answers = answer;
    })

-- After `createPending` stored or found a grant for a key, it answers another request of the tenant with
-- that key by the same grant if the digests of the two agree, even if the new request carries another
-- id, and by `idempotency_conflict` if they do not; it stores nothing either way.
pub created_once :
    (n n' : NewGrant) (s s' : Store) (c : Created)
    → create_pending n s ≡ ok (c, s')
    → n'.tenant_id ≡ n.tenant_id
    → n'.idempotency_key ≡ n.idempotency_key
    → create_pending n' s'
      ≡ (if n.request_digest == n'.request_digest then ok (c, s') else err idempotency_conflict)
unfolding create_pending
created_once n n' s s' c e tenant key =
    let known = create-Known n s s' c _ refl e in
    elim (Bool-cases (n.request_digest == n'.request_digest)) [
      | inl same ↦ rw (tenant, key, known.found, known.same_digest, known.answers, same) refl
      | inr other ↦ rw (tenant, key, known.found, known.same_digest, other) refl
    ]
