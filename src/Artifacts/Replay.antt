-- ===== src/Artifacts/Replay.antt =====
-- `PostgresOidcAdapter.consume`: what a refresh token that is used again brings about.
use wp_auto.Base.{
  ℕ, ◌≤◌, String, ◌≡◌, refl, inl, inr, Bool, true, ◌&&◌, Option, some, List, [], ◌∷◌, arith,
  Bool-cases, Option-cases, ◌==◌, nat_eq, text_eq, bytes_eq, count, any, ok, or_fail-ok,
  ok_injective,
}
use wp_auto.Base.{update_where}
use wp_auto.Base.Rows.{first, first-count}
use wp_auto.Base.Members.{any-count}
use wp_auto.Artifacts.{
  Secret, Grant, Store, is_unexpired, is_open_grant, of_grant, expire, revoke_grant,
  revoke_refresh_grant, revoke_found, site_missing,
}

abbrev is_refresh_of : String → Secret → Bool
is_refresh_of grant r = r.model == "RefreshToken" && of_grant grant r.payload

-- The grant is revoked, and no refresh token of it can be used from `now` on, if it is in the table.
pub record IsRevoked (grant : String) (now : ℕ) (s : Store) : Type 0 where
  pub none_open : count (λ g. g.id == grant && is_open_grant g.status) s.grants ≡ 0
  pub none_usable :
      (later : ℕ)
      → now ≤ later
      → any (λ g. g.id == grant) s.grants ≡ true
      → count (λ r. is_refresh_of grant r && is_unexpired later r.expires_at) s.secrets ≡ 0

count-and :
    {A : Type 0} (p q : A → Bool) (rows : List A)
    → count p rows ≡ 0
    → count (λ r. p r && q r) rows ≡ 0
count-and p q [] e = refl
count-and p q (r ∷ rs) e = ground (arith, count-and p q rs)

revoke-open :
    (grant : String) (now : ℕ) (reason : String) (rows : List Grant)
    → count
        (λ g. g.id == grant && is_open_grant g.status)
        (update_where (λ g. g.id == grant && is_open_grant g.status) (revoke_grant now reason) rows)
      ≡ 0
unfolding update_where
revoke-open grant now reason [] = refl
revoke-open grant now reason (g ∷ gs) = ground (arith, revoke-open grant now reason gs)

expire-usable :
    (grant : String) (now later : ℕ) (rows : List Secret)
    → now ≤ later
    → count
        (λ r. is_refresh_of grant r && is_unexpired later r.expires_at)
        (update_where (is_refresh_of grant) (expire now) rows)
      ≡ 0
unfolding update_where
expire-usable grant now later [] h = refl
expire-usable grant now later (r ∷ rs) h = ground (arith, expire-usable grant now later rs h)

module _ (site_resource : String → String → Option String) where
  revoke_found-IsRevoked :
      (grant : String) (now : ℕ) (reason : String) (g : Grant) (s s' : Store)
      → revoke_found site_resource grant now reason g s ≡ ok s'
      → IsRevoked grant now s'
  revoke_found-IsRevoked grant now reason g s s' e =
      let none_open = revoke-open grant now reason s.grants in
      elim (Bool-cases (is_open_grant g.status)) [
        | inl open_grant ↦
            let (resource, _, e₁) =
              or_fail-ok (site_resource g.tenant_id g.site_id) site_missing _
                (rw open_grant at e) in
            rw (← ok_injective e₁) (record {
              none_open = none_open;
              none_usable = λ later h _. expire-usable grant now later s.secrets h;
            })
        | inr closed ↦ rw (← ok_injective (rw closed at e)) (record {
          none_open = none_open;
          none_usable = λ later h _. expire-usable grant now later s.secrets h;
        })
      ]

  pub revoke_refresh_grant-IsRevoked :
      (grant : String) (now : ℕ) (reason : String) (s s' : Store)
      → revoke_refresh_grant site_resource grant now reason s ≡ ok s'
      → IsRevoked grant now s'
  unfolding revoke_refresh_grant
  revoke_refresh_grant-IsRevoked grant now reason s s' e =
      elim (Option-cases (first (λ r. r.id == grant) s.grants)) [
        | inl none_found ↦
            let absent = first-count (λ r. r.id == grant) s.grants none_found in
            rw (← ok_injective (rw none_found at e)) (record {
              none_open =
                  count-and (λ r. r.id == grant) (λ r. is_open_grant r.status) s.grants absent;
              none_usable = λ later h there.
                  let counted = any-count (λ r. r.id == grant) s.grants in
                  absurd (ground (arith, counted, absent));
            })
        | inr (g, found) ↦ revoke_found-IsRevoked grant now reason g s s' (rw found at e)
      ]

  -- The site of the grant has a resource, if the grant is in the table.
  abbrev pub HasSite : String → Store → Type 0
  HasSite grant s =
      (g : Grant)
      → first (λ r. r.id == grant) s.grants ≡ some g
      → (resource : String) × (site_resource g.tenant_id g.site_id ≡ some resource)

  revoke_found-ok :
      (grant : String) (now : ℕ) (reason : String) (g : Grant) (s : Store) (resource : String)
      → site_resource g.tenant_id g.site_id ≡ some resource
      → (s' : Store) × (revoke_found site_resource grant now reason g s ≡ ok s')
  revoke_found-ok grant now reason g s resource known = elim (Bool-cases (is_open_grant g.status)) [
    | inl open_grant ↦ rw (open_grant, known) (_, refl)
    | inr closed ↦ rw closed (_, refl)
  ]

  pub revoke_refresh_grant-ok :
      (grant : String) (now : ℕ) (reason : String) (s : Store)
      → HasSite grant s
      → (s' : Store) × (revoke_refresh_grant site_resource grant now reason s ≡ ok s')
  unfolding revoke_refresh_grant
  revoke_refresh_grant-ok grant now reason s sites =
      elim (Option-cases (first (λ r. r.id == grant) s.grants)) [
        | inl none_found ↦ (s, rw none_found refl)
        | inr (g, found) ↦
            let (resource, known) = sites g found in
            let (s', done) = revoke_found-ok grant now reason g s resource known in
            (s', rw found done)
      ]
