-- ===== src/Artifacts/Verdict.antt =====
-- `PostgresOidcAdapter.consume`: the answer to a refresh token that cannot be used any more.
use wp_auto.Base.{
  ℕ, zero, suc, ◌≤◌, String, ◌≡◌, refl, ap, ◌⊎◌, inl, inr, Bool, true, not, ◌&&◌, ◌||◌, Option,
  none, some, List, [], ◌∷◌, arith, Bool-cases, Option-cases, ==_iff, nat_eq, text_eq, bytes_eq,
  Bytes, count, any, ok, err,
}
use wp_auto.Base.{count_mono, count-or, count-false}
use wp_auto.Base.Json.{member, as_text}
use wp_auto.Base.Rows.{first, first-count, first-none, first_holds, first_counts}
use wp_auto.Artifacts.{
  Lookup, Secret, Store, invalid_grant, already_consumed, missing, replay, Key, consumable, is_none,
  is_unexpired, has_lookup, of_grant, text_is,
}
use wp_auto.Artifacts.Adapter.{candidates, spend_first, replayed, consume_secret, consume}
use wp_auto.Artifacts.Replay.{
  IsRevoked, HasSite, revoke_refresh_grant-IsRevoked, revoke_refresh_grant-ok,
}

-- A row of the token, under any of its lookups.
abbrev pub is_under : List Lookup → Secret → Bool
is_under ls r = any (λ l. has_lookup "RefreshToken" l r) ls

abbrev pub is_spendable : List Lookup → ℕ → Secret → Bool
is_spendable ls now r = is_under ls r && (is_none r.consumed_at && is_unexpired now r.expires_at)

abbrev pub is_used : List Lookup → Secret → Bool
is_used ls r = is_under ls r && not (is_none r.consumed_at)

abbrev pub is_used_elsewhere : List Lookup → String → Secret → Bool
is_used_elsewhere ls grant r = is_used ls r && not (of_grant grant r.payload)

text_is-some : (grant : String) (o : Option String) → text_is grant o ≡ true → o ≡ some grant
text_is-some grant none e = cc
text_is-some grant (some x) e = ap some ((==_iff x grant).0 e)

no_more :
    (p q : Secret → Bool) (rows : List Secret)
    → ((r : Secret) → p r ≡ true → q r ≡ true)
    → count q rows ≡ 0
    → count p rows ≡ 0
no_more p q rows within e = omega (arith, e, count_mono p q rows within)

module _ (hmac : Bytes → String → Bytes) (keys : List Key)
    (site_resource : String → String → Option String)
    (family_hmac : Option (String → String → Bytes)) where
  spend_first-none :
      (cs : List Lookup) (now : ℕ) (s : Store)
      → count (is_spendable cs now) s.secrets ≡ 0
      → spend_first hmac keys site_resource family_hmac "RefreshToken" cs now s ≡ ok (none, s)
  spend_first-none [] now s unusable = refl
  spend_first-none (l ∷ cs) now s unusable =
      let own : count (consumable "RefreshToken" l now) s.secrets ≡ 0 =
        no_more (consumable "RefreshToken" l now) (is_spendable (l ∷ cs) now) s.secrets
          (λ r e. ground arith) unusable in
      let others : count (is_spendable cs now) s.secrets ≡ 0 =
        no_more (is_spendable cs now) (is_spendable (l ∷ cs) now) s.secrets (λ r e. ground arith)
          unusable in
      rw (first-none (consumable "RefreshToken" l now) s.secrets own)
        (spend_first-none cs now s others)

  replayed-missing :
      (cs : List Lookup) (now : ℕ) (s : Store)
      → count (is_used cs) s.secrets ≡ 0
      → replayed hmac keys site_resource family_hmac "RefreshToken" cs now s ≡ ok (missing, s)
  replayed-missing [] now s unused = refl
  replayed-missing (l ∷ cs) now s unused =
      let mine : Secret → Bool =
        λ r. has_lookup "RefreshToken" l r && not (is_none r.consumed_at) in
      let own = no_more mine (is_used (l ∷ cs)) s.secrets (λ r e. ground arith) unused in
      let others = no_more (is_used cs) (is_used (l ∷ cs)) s.secrets (λ r e. ground arith) unused in
      rw (first-none mine s.secrets own) (replayed-missing cs now s others)

  -- A used row that the loop finds is of the grant.
  its_grant :
      (ls : List Lookup) (mine : Secret → Bool) (grant : String) (rows : List Secret) (row : Secret)
      → first mine rows ≡ some row
      → is_used ls row ≡ true
      → count (is_used_elsewhere ls grant) rows ≡ 0
      → as_text (member "grantId" row.payload) ≡ some grant
  its_grant ls mine grant rows row found used none_else =
      elim (Bool-cases (of_grant grant row.payload)) [
        | inl its ↦ text_is-some grant (as_text (member "grantId" row.payload)) its
        | inr other ↦
            let there =
              first_counts mine (is_used_elsewhere ls grant) rows row found
                (rw (used, other) refl) in
            absurd (omega (arith, there, none_else))
      ]

  replayed-replay :
      (cs : List Lookup) (grant : String) (now : ℕ) (s : Store)
      → 1 ≤ count (is_used cs) s.secrets
      → count (is_used_elsewhere cs grant) s.secrets ≡ 0
      → HasSite site_resource grant s
      → (s' : Store) × (replayed hmac keys site_resource family_hmac "RefreshToken" cs now s
          ≡ ok (replay, s'))
        × IsRevoked grant now s'
  replayed-replay [] grant now s used none_else sites =
      absurd (omega (arith, used, count-false s.secrets))
  replayed-replay (l ∷ cs) grant now s used none_else sites =
      let mine : Secret → Bool =
        λ r. has_lookup "RefreshToken" l r && not (is_none r.consumed_at) in
      elim (Option-cases (first mine s.secrets)) [
        | inl absent ↦
            let still : 1 ≤ count (is_used cs) s.secrets = omega (
              arith,
              used,
              first-count mine s.secrets absent,
              count-or mine (is_used cs) s.secrets,
              count_mono (is_used (l ∷ cs)) (λ r. mine r || is_used cs r) s.secrets
                  (λ r e. ground arith),
            ) in
            let others =
              no_more (is_used_elsewhere cs grant) (is_used_elsewhere (l ∷ cs) grant) s.secrets
                (λ r e. ground arith) none_else in
            let (s', done, is_revoked) = replayed-replay cs grant now s still others sites in
            (s', rw absent done, is_revoked)
        | inr (row, found) ↦
            let holds = first_holds mine s.secrets found in
            let known =
              its_grant (l ∷ cs) mine grant s.secrets row found (ground arith) none_else in
            let (s', done) =
              revoke_refresh_grant-ok site_resource grant now "refresh_replay" s sites in
            (
              s',
              rw (found, known, done) refl,
              revoke_refresh_grant-IsRevoked site_resource grant now "refresh_replay" s s' done,
            )
      ]

  -- What the use of a spent token brings about: nothing and `already_consumed` if no row of it was ever
  -- consumed; `invalid_grant` and the revocation of its grant if one was.
  abbrev pub Answers : String → String → ℕ → Store → Type 0
  Answers value grant now s =
      let used = count (is_used (candidates hmac keys value)) s.secrets in
      let answer = consume hmac keys site_resource family_hmac "RefreshToken" value now s in
      ((used ≡ 0) × (answer ≡ (err already_consumed, s)))
      ⊎ ((1 ≤ used) × (s' : Store) × (answer ≡ (err invalid_grant, s')) × IsRevoked grant now s')

  -- A refresh token of which no stored row can be used any more, each being consumed or expired, fails to be
  -- consumed. If a row of it was consumed before, and the consumed rows of it name one grant, whose site
  -- has a resource if the grant is in the table, then the failure is `invalid_grant`, and it stays
  -- stored that the grant is revoked and, if it is in the table, that no refresh token of it can be used
  -- any more. If none was consumed, the failure is `already_consumed` and nothing changes.
  pub replay_revokes :
      (value grant : String) (now : ℕ) (s : Store)
      → count (is_spendable (candidates hmac keys value) now) s.secrets ≡ 0
      → count (is_used_elsewhere (candidates hmac keys value) grant) s.secrets ≡ 0
      → HasSite site_resource grant s
      → Answers value grant now s
  unfolding consume_secret consume
  replay_revokes value grant now s unusable none_else sites =
      let cs = candidates hmac keys value in
      let unspent = spend_first-none cs now s unusable in
      elim (zero_or_more (count (is_used cs) s.secrets)) [
        | inl none_used ↦
            let done = replayed-missing cs now s none_used in
            inl (none_used, rw (unspent, done) refl)
        | inr some_used ↦
            let (s', done, is_revoked) = replayed-replay cs grant now s some_used none_else sites in
            inr (some_used, s', rw (unspent, done) refl, is_revoked)
      ]
    where
      zero_or_more : (n : ℕ) → (n ≡ 0) ⊎ (1 ≤ n)
      zero_or_more zero = inl refl
      zero_or_more (suc n) = inr (omega arith)
