-- ===== src/SigningKeys/Revoked.antt =====
-- `PostgresSigningKeyRepository`: a revoked key never signs again.
use wp_auto.Base.{
  ℕ, ◌≤◌, String, ◌≡◌, refl, inl, inr, Bool, true, false, ◌&&◌, Option, none, some, List, [], ◌∷◌,
  arith, Bool-cases, ◌==◌, ==_iff, nat_eq, text_eq, bytes_eq, count, any,
}
use wp_auto.Base.{update_where, count_mono, count-append, count-update_where}
use wp_auto.Base.Rows.{first, count-update_within, count-update_drop}
use wp_auto.Base.Options.{is_none}
use wp_auto.Base.Members.{any-count}
use wp_auto.SigningKeys.{
  SigningKey, Store, CustodyProvider, KeyStatus, published, active, retiring, revoked,
  is_active_status, is_published_status, is_retiring_status, is_kept, has_kid, is_signing, passed,
  is_ready, is_active, publish, activate, retire_current, retiring_from, active_from, revoked_from,
  is_current, revoke, retire, new_key,
}
use wp_auto.SigningKeys.Sound.{
  Call, publishes, activates, revokes, retires, after, step, run, IsSound, run-IsSound,
  revoke-IsSound,
}

-- The key is in the table, and revoked.
abbrev IsGone : String → List SigningKey → Type 0
IsGone kid ks =
    (1 ≤ count (has_kid kid) ks) × (count (λ k. has_kid kid k && is_kept k.status) ks ≡ 0)

update-IsGone :
    (kid : String) (p : SigningKey → Bool) (f : SigningKey → SigningKey) (ks : List SigningKey)
    → ((k : SigningKey) → has_kid kid (f k) ≡ has_kid kid k)
    → ((k : SigningKey) → p k ≡ true → is_kept (f k).status ≡ true → is_kept k.status ≡ true)
    → IsGone kid ks
    → IsGone kid (update_where p f ks)
update-IsGone kid p f ks same less (there, gone) =
    let fewer =
      count-update_within p (λ k. has_kid kid k && is_kept k.status) f ks
        λ k h o. ground (arith, same k, less k h) in
    (omega (arith, there, count-update_where p (has_kid kid) f ks same), omega (arith, gone, fewer))

signing_is_kept : (x : KeyStatus) → is_active_status x ≡ true → is_kept x ≡ true
signing_is_kept published e = refl
signing_is_kept active e = refl
signing_is_kept retiring e = refl
signing_is_kept revoked e = cc

published_is_kept : (x : KeyStatus) → is_published_status x ≡ true → is_kept x ≡ true
published_is_kept published e = refl
published_is_kept active e = refl
published_is_kept retiring e = refl
published_is_kept revoked e = cc

publish-IsGone :
    (id kid : String) (provider : CustodyProvider) (reference jwk : String) (now : ℕ) (s : Store)
    → IsGone id s.keys
    → IsGone id (after s (publish kid provider reference jwk now s)).keys
unfolding publish
publish-IsGone id kid provider reference jwk now s (there, gone) =
    elim (Bool-cases (any (has_kid kid) s.keys)) [
      | inl taken ↦ rw taken (there, gone)
      | inr free ↦
          let row = new_key kid provider reference jwk now in
          let other : (kid == id) ≡ false = absent_other free in
          let one : count (has_kid id) (row ∷ []) ≡ 0 = ground arith in
          let two : count (λ k. has_kid id k && is_kept k.status) (row ∷ []) ≡ 0 = ground arith in
          rw free (
            omega (arith, there, count-append (has_kid id) s.keys (row ∷ [])),
            omega (
              arith,
              gone,
              two,
              count-append (λ k. has_kid id k && is_kept k.status) s.keys (row ∷ []),
            ),
          )
    ]
  where
    absent_other : any (has_kid kid) s.keys ≡ false → (kid == id) ≡ false
    absent_other free = elim (Bool-cases (kid == id)) [
      | inr e ↦ e
      | inl e ↦
          let absent : any (has_kid id) s.keys ≡ false = rw ((==_iff kid id).0 e) at free in
          absurd (ground (arith, absent, there, any-count (has_kid id) s.keys))
    ]

retire_current-IsGone :
    (id : String) (now : ℕ) (current : Option SigningKey) (ks : List SigningKey)
    → IsGone id ks
    → IsGone id (retire_current now current ks)
retire_current-IsGone id now none ks gone = gone
retire_current-IsGone id now (some c) ks gone =
    update-IsGone id (λ k. has_kid c.kid k && is_signing k) (retiring_from now) ks (λ k. refl)
      (λ k h o. signing_is_kept k.status (ground arith)) gone

activate-IsGone :
    (id kid : String) (now : ℕ) (s : Store)
    → IsGone id s.keys
    → IsGone id (activate kid now s).1.keys
unfolding activate
activate-IsGone id kid now s gone = elim (Bool-cases (is_current (first is_signing s.keys) kid)) [
  | inl itself ↦ rw itself gone
  | inr other ↦ elim (Bool-cases (any (is_ready kid now) s.keys)) [
    | inr early ↦ rw (other, early) gone
    | inl ready ↦
        rw (other, ready)
          (update-IsGone id (λ k. has_kid kid k && is_published_status k.status) (active_from now)
            (retire_current now (first is_signing s.keys) s.keys) (λ k. refl)
            (λ k h o. published_is_kept k.status (ground arith))
            (retire_current-IsGone id now (first is_signing s.keys) s.keys gone))
  ]
]

revoke-IsGone :
    (id kid : String) (now : ℕ) (s : Store) → IsGone id s.keys → IsGone id (revoke kid now s).1.keys
unfolding revoke
revoke-IsGone id kid now s gone =
    let p = λ (k : SigningKey). has_kid kid k && is_kept k.status in
    elim (Bool-cases (any p s.keys)) [
      | inr missing ↦ rw missing gone
      | inl there ↦
          rw there (update-IsGone id p (revoked_from now) s.keys (λ k. refl) (λ k h o. cc) gone)
    ]

step-IsGone : (id : String) (c : Call) (s : Store) → IsGone id s.keys → IsGone id (step c s).keys
unfolding retire
step-IsGone id (publishes kid provider reference jwk now) s gone =
    publish-IsGone id kid provider reference jwk now s gone
step-IsGone id (activates kid now) s gone = activate-IsGone id kid now s gone
step-IsGone id (revokes kid now) s gone = revoke-IsGone id kid now s gone
step-IsGone id (retires kid now) s gone =
    update-IsGone id (λ k. has_kid kid k && (is_retiring_status k.status && passed now k.retire_at))
      (revoked_from now) s.keys (λ k. refl) (λ k h o. cc) gone

run-IsGone :
    (id : String) (cs : List Call) (s : Store) → IsGone id s.keys → IsGone id (run cs s).keys
run-IsGone id [] s gone = gone
run-IsGone id (c ∷ cs) s gone = run-IsGone id cs (step c s) (step-IsGone id c s gone)

fresh-IsGone :
    (kid : String) (now : ℕ) (s : Store)
    → any (has_kid kid) s.keys ≡ true
    → IsGone kid (revoke kid now s).1.keys
unfolding revoke
fresh-IsGone kid now s there =
    let p = λ (k : SigningKey). has_kid kid k && is_kept k.status in
    let known : 1 ≤ count (has_kid kid) s.keys = ground (arith, any-count (has_kid kid) s.keys) in
    elim (Bool-cases (any p s.keys)) [
      | inr gone ↦ rw gone (known, ground (arith, any-count p s.keys))
      | inl kept ↦
          let drop =
            count-update_drop p p (revoked_from now) s.keys (λ k h. h) (λ k h. ground arith) in
          rw kept (
            omega (
              arith,
              known,
              count-update_where p (has_kid kid) (revoked_from now) s.keys λ k. refl,
            ),
            omega (arith, drop),
          )
    ]

gone_inactive :
    (kid : String) (now : ℕ) (s : Store) → IsGone kid s.keys → is_active kid now s ≡ false
unfolding is_active
gone_inactive kid now s (_, gone) =
    let signs = λ (k : SigningKey).
      has_kid kid k && (is_signing k && (passed now k.activate_at && is_none k.revoke_at)) in
    let fewer =
      count_mono signs (λ k. has_kid kid k && is_kept k.status) s.keys
        λ k h. ground (arith, signing_is_kept k.status) in
    ground (arith, fewer, gone, any-count signs s.keys)

-- From an empty table on, whatever sequence of calls publishes, activates, retires and revokes keys, at
-- most one key signs; and a published key that is revoked is never active again, whatever calls follow.
pub keys_safe :
    (before later : List Call) (s : Store) (kid : String) (now seen : ℕ)
    → s.keys ≡ []
    → any (has_kid kid) (run before s).keys ≡ true
    → (count is_signing (run later (revoke kid now (run before s)).1).keys ≤ 1)
      × (is_active kid seen (run later (revoke kid now (run before s)).1) ≡ false)
keys_safe before later s kid now seen empty there =
    let start : IsSound s.keys =
      rw empty (record { unique = λ id. omega arith; single = omega arith }) in
    let reached = revoke-IsSound kid now (run before s) (run-IsSound before s start) in
    let z = (revoke kid now (run before s)).1 in
    (
      (run-IsSound later z reached).single,
      gone_inactive kid seen (run later z)
          (run-IsGone kid later z (fresh-IsGone kid now (run before s) there)),
    )
