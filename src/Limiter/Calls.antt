-- ===== src/Limiter/Calls.antt =====
-- `PostgresOAuthRateLimiter`: sequences of calls.
use wp_auto.Base.{
  ℕ, suc, ◌+◌, ◌≤◌, max, String, ◌≡◌, ◌⊎◌, inl, inr, Bool, true, false, ◌&&◌, List, [], ◌∷◌, arith,
  leb, if◌then◌else◌, leb→le, Bool-cases, nat_eq, text_eq, bytes_eq, Bytes, Result, ok, err,
  Result-cases,
}
use wp_auto.Limiter.{
  Bucket, Error, Policy, is_bucket, is_limit, window_start, bump, consume_rate_limit, digest, allow,
}
use wp_auto.Limiter.Windows.{counter_of, key_matches, same_key, bump_own, bump_other}
use wp_auto.Base.Rows.{first}

pub record Call : Type 0 where
  pub policy : Policy
  pub subject : String
  pub observed_at : ℕ

-- An error refuses the call and rolls back.
abbrev answer : List Bucket → Result Error (Bool × List Bucket) → Bool × List Bucket
answer rows (err e) = (false, rows)
answer rows (ok (allowed, rows')) = (allowed, rows')

-- What one call does to the counter of a window, when it falls in the window or does not.
abbrev Counts : String → Bytes → ℕ → ℕ → Bool → List Bucket → Bool × List Bucket → Type 0
Counts policy h start limit mine rows reply =
    (counter_of policy h start reply.1
      ≡ counter_of policy h start rows + (if reply.0 && mine then 1 else 0))
    × (counter_of policy h start reply.1 ≤ max limit (counter_of policy h start rows))

refused :
    (policy : String) (h : Bytes) (start limit : ℕ) (mine : Bool) (rows : List Bucket)
    → Counts policy h start limit mine rows (false, rows)
refused policy h start limit mine rows = (omega arith, omega arith)

unchanged :
    (policy : String) (h : Bytes) (start limit : ℕ) (rows : List Bucket)
    (reply : Bool × List Bucket)
    → counter_of policy h start reply.1 ≡ counter_of policy h start rows
    → Counts policy h start limit false rows reply
unchanged policy h start limit rows reply same = (ground arith, omega (arith, same))

Counts-own :
    (policy : String) (h : Bytes) (start limit limit' : ℕ) (rows : List Bucket)
    (reply : Bool × List Bucket)
    → limit' ≤ limit
    → ((reply.0 ≡ true)
        × (counter_of policy h start reply.1 ≡ suc (counter_of policy h start rows))
        × (suc (counter_of policy h start rows) ≤ limit'))
      ⊎ ((reply.0 ≡ false) × (reply.1 ≡ rows))
    → Counts policy h start limit true rows reply
Counts-own policy h start limit limit' rows reply within (inl (granted, more, below)) =
    (rw granted (omega (arith, more)), omega (arith, more, below, within))
Counts-own policy h start limit limit' rows reply within (inr (denied, same)) =
    (rw (denied, same) (omega arith), rw same (omega arith))

bump-Counts :
    (policy policy' : String) (h h' : Bytes) (start start' limit limit' : ℕ) (rows : List Bucket)
    → (policy' ≡ policy → limit' ≤ limit)
    → 1 ≤ limit'
    → Counts policy h start limit
        (key_matches policy h start policy' h' start')
        rows
        (bump policy' h' start' limit' rows (first (is_bucket policy' h' start') rows))
bump-Counts policy policy' h h' start start' limit limit' rows within positive =
    elim (Bool-cases (key_matches policy h start policy' h' start')) [
      | inl mine ↦
          let (e₁, e₂, e₃) = same_key policy policy' h h' start start' mine in
          let own = bump_own policy h start limit' rows positive in
          rw mine (rw (e₁, e₂, e₃) (Counts-own policy h start limit limit' rows _ (within e₁) own))
      | inr other ↦ rw other (
          unchanged policy h start limit rows _ (
            bump_other policy policy' h h' start start' limit' rows
              (first (is_bucket policy' h' start') rows) other))
    ]

consume-Counts :
    (policy policy' : String) (h h' : Bytes) (start limit limit' seconds observed_at : ℕ)
    (rows : List Bucket)
    → (policy' ≡ policy → limit' ≤ limit)
    → Counts policy h start limit
        (key_matches policy h start policy' h' (window_start observed_at seconds))
        rows
        (consume_rate_limit policy' h' limit' seconds observed_at rows)
unfolding consume_rate_limit
consume-Counts policy policy' h h' start limit limit' seconds observed_at rows within =
    let start' = window_start observed_at seconds in
    elim (Bool-cases (is_limit policy' h' limit' seconds)) [
      | inl valid ↦
          let positive : 1 ≤ limit' =
            leb→le 1 limit' (positive_limit policy' h' limit' seconds valid) in
          rw valid (bump-Counts policy policy' h h' start start' limit limit' rows within positive)
      | inr invalid ↦
          rw invalid
            (refused policy h start limit (key_matches policy h start policy' h' start') rows)
    ]
  where
    positive_limit :
        (policy : String) (h : Bytes) (limit seconds : ℕ)
        → is_limit policy h limit seconds ≡ true
        → leb 1 limit ≡ true
    positive_limit policy h limit seconds e = ground arith

module _ (hmac : String → String → Bytes) where
  abbrev pub call : Call → List Bucket → Bool × List Bucket
  call c rows = answer rows (allow hmac c.policy c.subject c.observed_at rows)

  -- The call falls in the window.
  abbrev pub falls_in : String → Bytes → ℕ → Call → Bool
  falls_in policy h start c =
      key_matches policy h start c.policy.name (hmac c.policy.name c.subject)
        (window_start c.observed_at c.policy.window_seconds)

  -- How many calls of the sequence that fall in the window are allowed.
  abbrev pub allowed_in : String → Bytes → ℕ → List Call → List Bucket → ℕ
  allowed_in policy h start [] rows = 0
  allowed_in policy h start (c ∷ cs) rows =
      (if (call c rows).0 && falls_in policy h start c then 1 else 0)
      + allowed_in policy h start cs (call c rows).1

  -- The calls under this policy have at most this limit.
  abbrev pub Limits : String → ℕ → List Call → Type 0
  Limits policy limit [] = Unit
  Limits policy limit (c ∷ cs) =
      (c.policy.name ≡ policy → c.policy.limit ≤ limit) × Limits policy limit cs

  call-Counts :
      (policy : String) (h : Bytes) (start limit : ℕ) (c : Call) (rows : List Bucket)
      → (c.policy.name ≡ policy → c.policy.limit ≤ limit)
      → Counts policy h start limit (falls_in policy h start c) rows (call c rows)
  unfolding allow digest
  call-Counts policy h start limit c rows within =
      elim (Result-cases (digest hmac c.policy.name c.subject)) [
        | inr (e, bad) ↦ rw bad (refused policy h start limit (falls_in policy h start c) rows)
        | inl (key, hashed) ↦
            let is_key : key ≡ hmac c.policy.name c.subject = ground arith in
            rw hashed (
              rw is_key (
                consume-Counts policy c.policy.name h (hmac c.policy.name c.subject) start limit
                  c.policy.limit c.policy.window_seconds c.observed_at rows within))
      ]

  allowed_bounded :
      (policy : String) (h : Bytes) (start limit : ℕ) (cs : List Call) (rows : List Bucket)
      → Limits policy limit cs
      → counter_of policy h start rows ≤ limit
      → counter_of policy h start rows + allowed_in policy h start cs rows ≤ limit
  allowed_bounded policy h start limit [] rows _ below = omega (arith, below)
  allowed_bounded policy h start limit (c ∷ cs) rows (within, rest) below =
      let (counted, bounded) = call-Counts policy h start limit c rows within in
      let after =
        allowed_bounded policy h start limit cs (call c rows).1 rest
          (omega (arith, bounded, below)) in
      omega (arith, counted, after)

  -- However many calls are made, for whatever subjects and at whatever times, the limiter allows at most
  -- `limit` of those whose subject has one given hash and that fall in one window of a policy, if no call
  -- under the policy has a higher limit and the window has not been counted in for that hash before.
  pub window_bounded :
      (policy : String) (h : Bytes) (start limit : ℕ) (cs : List Call) (rows : List Bucket)
      → Limits policy limit cs
      → counter_of policy h start rows ≡ 0
      → allowed_in policy h start cs rows ≤ limit
  window_bounded policy h start limit cs rows limits unused =
      let bounded = allowed_bounded policy h start limit cs rows limits (omega (arith, unused)) in
      omega (arith, bounded, unused)
