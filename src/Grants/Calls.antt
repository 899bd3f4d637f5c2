-- ===== src/Grants/Calls.antt =====
-- `PostgresGrantRepository`: its calls, and what each may do to the table of grants.
use wp_auto.Base.{
  ℕ, String, ◌≡◌, refl, ◌⊎◌, inl, inr, true, false, not, ◌&&◌, Option, none, some, List, [], ◌∷◌,
  ◌++◌, arith, Bool-cases, ◌==◌, nat_eq, text_eq, bytes_eq, Bytes, count, any, Result, ok, err,
  guard-ok, Result-cases, ok_pair,
}
use wp_auto.Base.{update_where}
use wp_auto.Base.Rows.{first}
use wp_auto.Grants.{
  Grant, Store, NewGrant, Created, Error, Receipt, is_open, has_id, has_key, collides, is_its_site,
  pending_row, decidable, activated, revoked_for, revoke, repeat_or_insert, decide_or_repeat,
  insert_pending, create_pending, activate, deny, storage, active_site_not_found,
  idempotency_conflict,
}

pub data Call : Type 0 where
  creates : NewGrant → Call
  activates denies : String → String → String → String → ℕ → Call
  revokes : String → String → String → ℕ → Call

abbrev pub after {ℓ} : {A : Type ℓ} → Store → Result Error (A × Store) → Store
after s (err e) = s
after s (ok (x, s')) = s'

abbrev pub settled : Store → Result Error Store → Store
settled s (err e) = s
settled s (ok s') = s'

module _ (digest : String → String → Bytes) where
  abbrev pub step : Call → Store → Store
  step (creates n) s = after s (create_pending n s)
  step (activates tenant id key thumbprint now) s =
      settled s (activate digest tenant id key thumbprint now s)
  step (denies tenant id key thumbprint now) s =
      settled s (deny digest tenant id key thumbprint now s)
  step (revokes tenant id reason now) s = (revoke tenant id reason now s).1

  abbrev pub run : List Call → Store → Store
  run [] s = s
  run (c ∷ cs) s = run cs (step c s)

-- What a repository call may do to the grants: nothing, add a row that collides with none, or change
-- rows to others of the same key.
pub data Changes : List Grant → List Grant → Type 0 where
  keeps : {gs : List Grant} → Changes gs gs
  adds :
      {gs : List Grant} (n : NewGrant)
      → any (collides n) gs ≡ false
      → Changes gs (gs ++ pending_row n ∷ [])
  grants_one :
      {gs : List Grant} (tenant id : String) (now : ℕ)
      → Changes gs (update_where (decidable tenant id now) activated gs)
  denies_one :
      {gs : List Grant} (tenant id : String) (now : ℕ)
      → Changes gs (update_where (decidable tenant id now) (revoked_for "consent_denied" now) gs)
  revokes_one :
      {gs : List Grant} (tenant id reason : String) (now : ℕ)
      → Changes gs
          (update_where (λ g. has_id tenant id g && is_open g.status) (revoked_for reason now) gs)

insert-Changes :
    (n : NewGrant) (s s' : Store) (c : Created)
    → insert_pending n s ≡ ok (c, s')
    → Changes s.grants s'.grants
unfolding insert_pending
insert-Changes n s s' c e =
    let (_, e₁) = guard-ok (count (is_its_site n) s.sites == 1) active_site_not_found _ e in
    let (free, e₂) = guard-ok (not (any (collides n) s.grants)) storage _ e₁ in
    let (_, e₃) =
      guard-ok (not (any (has_key n.tenant_id true n.idempotency_key) s.receipts)) storage _ e₂ in
    let (_, same) = ok_pair e₃ in rw same (adds n (ground arith))

repeat-Changes :
    (n : NewGrant) (s s' : Store) (c : Created) (prior : Option (Receipt × Grant))
    → repeat_or_insert n s prior ≡ ok (c, s')
    → Changes s.grants s'.grants
repeat-Changes n s s' c none e = insert-Changes n s s' c e
repeat-Changes n s s' c (some (r, g)) e =
    let (_, e₁) = guard-ok (r.request_digest == n.request_digest) idempotency_conflict _ e in
    let (_, same) = ok_pair e₁ in rw same keeps

pub create-Changes :
    (n : NewGrant) (s : Store) → Changes s.grants (after s (create_pending n s)).grants
unfolding create_pending
create-Changes n s = elim (Result-cases (create_pending n s)) [
  | inr (x, failure) ↦ rw failure keeps
  | inl ((c, s'), done) ↦ rw done (repeat-Changes n s s' c _ done)
]

-- A decision leaves the table alone or makes its one change.
decide-or :
    (change : Grant → Grant) (tenant id key : String) (digest : Bytes) (now : ℕ) (s : Store)
    (prior : Option Receipt)
    → ((settled s (decide_or_repeat tenant id key digest now change s prior)).grants ≡ s.grants)
      ⊎ ((settled s (decide_or_repeat tenant id key digest now change s prior)).grants
          ≡ update_where (decidable tenant id now) change s.grants)
decide-or change tenant id key digest now s none =
    elim (Bool-cases (count (decidable tenant id now) s.grants == 1)) [
      | inl one ↦ inr (rw one refl)
      | inr other ↦ inl (rw other refl)
    ]
decide-or change tenant id key digest now s (some r) =
    elim (Bool-cases (r.request_digest == digest && r.result_reference == id)) [
      | inl same ↦ inl (rw same refl)
      | inr other ↦ inl (rw other refl)
    ]

module _ (digest : String → String → Bytes) where
  pub step-Changes : (c : Call) (s : Store) → Changes s.grants (step digest c s).grants
  unfolding activate deny
  step-Changes (creates n) s = create-Changes n s
  step-Changes (activates tenant id key thumbprint now) s =
      elim (decide-or activated tenant id key (digest id thumbprint) now s
        (first (has_key tenant false key) s.receipts)) [
          | inl same ↦ rw same keeps
          | inr changed ↦ rw changed (grants_one tenant id now)
        ]
  step-Changes (denies tenant id key thumbprint now) s =
      elim (decide-or (revoked_for "consent_denied" now) tenant id key (digest id thumbprint) now s
        (first (has_key tenant false key) s.receipts)) [
          | inl same ↦ rw same keeps
          | inr changed ↦ rw changed (denies_one tenant id now)
        ]
  step-Changes (revokes tenant id reason now) s = revokes_one tenant id reason now
