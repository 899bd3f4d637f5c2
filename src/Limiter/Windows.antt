-- ===== src/Limiter/Windows.antt =====
-- `PostgresOAuthRateLimiter`: how many calls a window allows.
use wp_auto.Base.{
  ℕ, suc, ◌≤◌, String, ◌≡◌, refl, ◌⊎◌, inl, inr, Bool, true, false, ◌&&◌, Option, none, some, List,
  [], ◌∷◌, ◌++◌, arith, ltb, le→leb, Bool-cases, Option-cases, ◌==◌, ==_iff, nat_eq, text_eq,
  bytes_eq, Bytes, ==_refl,
}
use wp_auto.Base.{update_where}
use wp_auto.Base.Rows.{first, first-update_where, first-append, first-count, first_holds}
use wp_auto.Limiter.{Bucket, is_bucket, counted, bump}

-- The counter of a window, 0 before its first call.
abbrev pub counter_in : Option Bucket → ℕ
counter_in none = 0
counter_in (some b) = b.counter

abbrev pub counter_of : String → Bytes → ℕ → List Bucket → ℕ
counter_of policy h start rows = counter_in (first (is_bucket policy h start) rows)

abbrev pub key_matches : String → Bytes → ℕ → String → Bytes → ℕ → Bool
key_matches policy h start policy' h' start' = policy' == policy && (h' == h && start' == start)

pub same_key :
    (policy policy' : String) (h h' : Bytes) (start start' : ℕ)
    → key_matches policy h start policy' h' start' ≡ true
    → (policy' ≡ policy) × (h' ≡ h) × (start' ≡ start)
same_key policy policy' h h' start start' e = elim (Bool-cases (policy' == policy)) [
  | inr n ↦ absurd (ground arith)
  | inl a ↦ elim (Bool-cases (h' == h)) [
    | inr n ↦ absurd (ground arith)
    | inl b ↦
        let c : (start' == start) ≡ true = ground arith in
        ((==_iff policy' policy).0 a, (==_iff h' h).0 b, (==_iff start' start).0 c)
  ]
]

other_bucket :
    (policy policy' : String) (h h' : Bytes) (start start' : ℕ) (b : Bucket)
    → key_matches policy h start policy' h' start' ≡ false
    → is_bucket policy' h' start' b ≡ true
    → is_bucket policy h start b ≡ false
other_bucket policy policy' h h' start start' b differ mine =
    let (e₁, e₂, e₃) =
      same_key policy' b.policy h' b.subject_hash start' b.window_started_at mine in
    rw (e₁, e₂, e₃) differ

key_self :
    (policy : String) (h : Bytes) (start : ℕ) → key_matches policy h start policy h start ≡ true
key_self policy h start = rw (==_refl policy, ==_refl h, ==_refl start) refl

module _ {A : Type 0} where
  first-append_other :
      (p : A → Bool) (rows : List A) (x : A) → p x ≡ false → first p (rows ++ x ∷ []) ≡ first p rows
  first-append_other p [] x h = ground arith
  first-append_other p (y ∷ ys) x h = ground (arith, first-append_other p ys x h)

  first-update_other :
      (p q : A → Bool) (f : A → A) (rows : List A)
      → ((r : A) → p (f r) ≡ p r)
      → ((r : A) → q r ≡ true → p r ≡ false)
      → first p (update_where q f rows) ≡ first p rows
  unfolding update_where
  first-update_other p q f [] same apart = refl
  first-update_other p q f (r ∷ rs) same apart =
      ground (arith, first-update_other p q f rs same apart, same r, apart r)

-- A call for another window leaves the counter.
pub bump_other :
    (policy policy' : String) (h h' : Bytes) (start start' limit : ℕ) (rows : List Bucket)
    (found : Option Bucket)
    → key_matches policy h start policy' h' start' ≡ false
    → counter_of policy h start (bump policy' h' start' limit rows found).1
      ≡ counter_of policy h start rows
bump_other policy policy' h h' start start' limit rows none differ =
    rw
      (first-append_other (is_bucket policy h start) rows
        (record { policy = policy'; subject_hash = h'; window_started_at = start'; counter = 1 })
        differ)
      refl
bump_other policy policy' h h' start start' limit rows (some b) differ =
    elim (Bool-cases (ltb b.counter limit)) [
      | inl room ↦
          rw
            (
              room,
              first-update_other (is_bucket policy h start) (is_bucket policy' h' start') counted
                  rows (λ r. refl) (λ r. other_bucket policy policy' h h' start start' r differ),
            )
            refl
      | inr full ↦ rw full refl
    ]

-- A call for the window itself counts, and is allowed only while the counter is below the limit.
pub bump_own :
    (policy : String) (h : Bytes) (start limit : ℕ) (rows : List Bucket)
    → 1 ≤ limit
    → let answer = bump policy h start limit rows (first (is_bucket policy h start) rows) in
      ((answer.0 ≡ true)
        × (counter_of policy h start answer.1 ≡ suc (counter_of policy h start rows))
        × (suc (counter_of policy h start rows) ≤ limit))
      ⊎ ((answer.0 ≡ false) × (answer.1 ≡ rows))
bump_own policy h start limit rows positive =
    elim (Option-cases (first (is_bucket policy h start) rows)) [
      | inl missing ↦ rw missing (
          inl (
            le→leb 1 limit positive,
            rw
                (
                  first-append (is_bucket policy h start) rows
                      (record {
                        policy = policy;
                        subject_hash = h;
                        window_started_at = start;
                        counter = 1;
                      }
                        ∷ [])
                      (first-count (is_bucket policy h start) rows missing),
                  key_self policy h start,
                )
                refl,
            positive,
          ))
      | inr (b, found) ↦ rw found (elim (Bool-cases (ltb b.counter limit)) [
        | inl room ↦
            let below : suc b.counter ≤ limit = ground arith in
            rw room (
              inl (
                le→leb (suc b.counter) limit below,
                rw
                    (
                      first-update_where (is_bucket policy h start) (is_bucket policy h start)
                          counted rows b (λ r. refl) found,
                      first_holds (is_bucket policy h start) rows found,
                    )
                    refl,
                below,
              ))
        | inr full ↦ rw full (inr (refl, refl))
      ])
    ]
