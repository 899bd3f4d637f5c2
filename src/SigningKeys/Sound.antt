-- ===== src/SigningKeys/Sound.antt =====
-- `PostgresSigningKeyRepository`: at most one key signs.
use wp_auto.Base.{
  ℕ, ◌≤◌, String, ◌≡◌, refl, sym, ◌∙◌, inl, inr, Bool, true, false, ◌&&◌, Option, none, some, List,
  [], ◌∷◌, ◌++◌, arith, Bool-cases, Option-cases, ==_iff, nat_eq, text_eq, bytes_eq, ==_refl, count,
  any, Result, ok, err,
}
use wp_auto.Base.{update_where, count_mono, count-append, count-update_where}
use wp_auto.Base.Rows.{
  first, first-count, first_holds, count-update_within, count-update_drop, count-update_add,
  first_counts,
}
use wp_auto.Base.Members.{any-count}
use wp_auto.SigningKeys.{
  SigningKey, Store, Error, CustodyProvider, is_published_status, is_retiring_status, is_kept,
  has_kid, is_signing, passed, is_ready, publish, activate, retire_current, activated,
  retiring_from, active_from, revoked_from, is_current, revoke, retire, new_key,
}

pub data Call : Type 0 where
  publishes : String → CustodyProvider → String → String → ℕ → Call
  activates revokes retires : String → ℕ → Call

abbrev pub after : Store → Result Error Store → Store
after s (err e) = s
after s (ok s') = s'

abbrev pub step : Call → Store → Store
step (publishes kid provider reference jwk now) s =
    after s (publish kid provider reference jwk now s)
step (activates kid now) s = (activate kid now s).1
step (revokes kid now) s = (revoke kid now s).1
step (retires kid now) s = (retire kid now s).1

abbrev pub run : List Call → Store → Store
run [] s = s
run (c ∷ cs) s = run cs (step c s)

-- Each key has its own id, and one key signs at most.
pub record IsSound (ks : List SigningKey) : Type 0 where
  pub unique : (kid : String) → count (has_kid kid) ks ≤ 1
  pub single : count is_signing ks ≤ 1

update-IsSound :
    (p : SigningKey → Bool) (f : SigningKey → SigningKey) (ks : List SigningKey)
    → ((kid : String) (k : SigningKey) → has_kid kid (f k) ≡ has_kid kid k)
    → ((k : SigningKey) → p k ≡ true → is_signing (f k) ≡ true → is_signing k ≡ true)
    → IsSound ks
    → IsSound (update_where p f ks)
update-IsSound p f ks same less sound = record {
  unique =
      λ kid. omega (arith, sound.unique kid, count-update_where p (has_kid kid) f ks (same kid));
  single = omega (arith, sound.single, count-update_within p is_signing f ks less);
}

appended_unique :
    (kid id : String) (row : SigningKey) (ks : List SigningKey)
    → any (has_kid kid) ks ≡ false
    → has_kid kid row ≡ true
    → count (has_kid id) ks ≤ 1
    → count (has_kid id) (ks ++ row ∷ []) ≤ 1
appended_unique kid id row ks free mine few = elim (Bool-cases (has_kid id row)) [
  | inr other ↦
      let one : count (has_kid id) (row ∷ []) ≡ 0 = ground arith in
      omega (arith, few, one, count-append (has_kid id) ks (row ∷ []))
  | inl same ↦
      let ids : kid ≡ id = sym ((==_iff row.kid kid).0 mine) ∙ (==_iff row.kid id).0 same in
      let absent : any (has_kid id) ks ≡ false = rw ids at free in
      let none_yet : count (has_kid id) ks ≡ 0 = ground (arith, any-count (has_kid id) ks) in
      let one : count (has_kid id) (row ∷ []) ≡ 1 = ground arith in
      omega (arith, none_yet, one, count-append (has_kid id) ks (row ∷ []))
]

publish-IsSound :
    (kid : String) (provider : CustodyProvider) (reference jwk : String) (now : ℕ) (s : Store)
    → IsSound s.keys
    → IsSound (after s (publish kid provider reference jwk now s)).keys
unfolding publish
publish-IsSound kid provider reference jwk now s sound =
    elim (Bool-cases (any (has_kid kid) s.keys)) [
      | inl taken ↦ rw taken sound
      | inr free ↦
          let row = new_key kid provider reference jwk now in
          rw free (record {
            unique = λ id. appended_unique kid id row s.keys free (==_refl kid) (sound.unique id);
            single = omega (arith, sound.single, count-append is_signing s.keys (row ∷ []));
          })
    ]

-- Once no key signs, activating one makes it the only one.
activated-IsSound :
    (kid : String) (now : ℕ) (ks : List SigningKey)
    → IsSound ks
    → count is_signing ks ≡ 0
    → IsSound (activated kid now ks)
activated-IsSound kid now ks sound idle = record {
  unique = λ id. omega (
    arith,
    sound.unique id,
    count-update_where (λ k. has_kid kid k && is_published_status k.status) (has_kid id)
        (active_from now) ks λ k. refl,
  );
  single =
      let p = λ (k : SigningKey). has_kid kid k && is_published_status k.status in
      let most = count-update_add p is_signing (active_from now) ks in
      let few = count_mono p (has_kid kid) ks λ k h. ground arith in
      omega (arith, idle, most, few, sound.unique kid);
}

retired_idle :
    (now : ℕ) (ks : List SigningKey)
    → IsSound ks
    → count is_signing (retire_current now (first is_signing ks) ks) ≡ 0
retired_idle now ks sound = elim (Option-cases (first is_signing ks)) [
  | inl idle ↦ rw idle (first-count is_signing ks idle)
  | inr (c, found) ↦
      let p = λ (k : SigningKey). has_kid c.kid k && is_signing k in
      let drop =
        count-update_drop p is_signing (retiring_from now) ks (λ k h. ground arith) (λ k h. refl) in
      let itself : p c ≡ true = ground (arith, ==_refl c.kid, first_holds is_signing ks found) in
      let some_one = first_counts is_signing p ks c found itself in
      rw found (omega (arith, drop, some_one, sound.single))
]

retire_current-IsSound :
    (now : ℕ) (current : Option SigningKey) (ks : List SigningKey)
    → IsSound ks
    → IsSound (retire_current now current ks)
retire_current-IsSound now none ks sound = sound
retire_current-IsSound now (some c) ks sound =
    update-IsSound (λ k. has_kid c.kid k && is_signing k) (retiring_from now) ks (λ kid k. refl)
      (λ k h o. cc) sound

activate-IsSound :
    (kid : String) (now : ℕ) (s : Store) → IsSound s.keys → IsSound (activate kid now s).1.keys
unfolding activate
activate-IsSound kid now s sound = elim (Bool-cases (is_current (first is_signing s.keys) kid)) [
  | inl itself ↦ rw itself sound
  | inr other ↦ elim (Bool-cases (any (is_ready kid now) s.keys)) [
    | inr early ↦ rw (other, early) sound
    | inl ready ↦
        rw (other, ready)
          (activated-IsSound kid now (retire_current now (first is_signing s.keys) s.keys)
            (retire_current-IsSound now (first is_signing s.keys) s.keys sound)
            (retired_idle now s.keys sound))
  ]
]

pub revoke-IsSound :
    (kid : String) (now : ℕ) (s : Store) → IsSound s.keys → IsSound (revoke kid now s).1.keys
unfolding revoke
revoke-IsSound kid now s sound =
    let p = λ (k : SigningKey). has_kid kid k && is_kept k.status in
    elim (Bool-cases (any p s.keys)) [
      | inr gone ↦ rw gone sound
      | inl there ↦
          rw there (update-IsSound p (revoked_from now) s.keys (λ id k. refl) (λ k h o. cc) sound)
    ]

step-IsSound : (c : Call) (s : Store) → IsSound s.keys → IsSound (step c s).keys
unfolding retire
step-IsSound (publishes kid provider reference jwk now) s sound =
    publish-IsSound kid provider reference jwk now s sound
step-IsSound (activates kid now) s sound = activate-IsSound kid now s sound
step-IsSound (revokes kid now) s sound = revoke-IsSound kid now s sound
step-IsSound (retires kid now) s sound =
    update-IsSound (λ k. has_kid kid k && (is_retiring_status k.status && passed now k.retire_at))
      (revoked_from now) s.keys (λ id k. refl) (λ k h o. cc) sound

pub run-IsSound : (cs : List Call) (s : Store) → IsSound s.keys → IsSound (run cs s).keys
run-IsSound [] s sound = sound
run-IsSound (c ∷ cs) s sound = run-IsSound cs (step c s) (step-IsSound c s sound)
