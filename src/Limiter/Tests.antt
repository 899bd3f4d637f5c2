-- ===== src/Limiter/Tests.antt =====
-- The limiter on concrete calls, and its theorem at them.
use wp_auto.Base.{ℕ, ◌≤◌, String, ◌≡◌, refl, List, [], ◌∷◌, arith, nat_eq, text_eq, bytes_eq, Bytes}
use wp_auto.Base.{update_where}
use wp_auto.Limiter.{allow, digest, consume_rate_limit}
use wp_auto.Limiter.Calls.{Call, allowed_in, window_bounded}

-- A hash of 32 bytes that is the same for every subject.
abbrev hash : Bytes
hash =
    1 ∷ 2 ∷ 3 ∷ 4 ∷ 5 ∷ 6 ∷ 7 ∷ 8 ∷ 9 ∷ 10 ∷ 11 ∷ 12 ∷ 13 ∷ 14 ∷ 15 ∷ 16 ∷ 17 ∷ 18 ∷ 19 ∷ 20 ∷ 21
    ∷ 22 ∷ 23 ∷ 24 ∷ 25 ∷ 26 ∷ 27 ∷ 28 ∷ 29 ∷ 30 ∷ 31 ∷ 32 ∷ []

abbrev hmac : String → String → Bytes
hmac policy subject = hash

abbrev call_at : ℕ → Call
call_at t = record {
  policy = record { name = "oauth.token"; limit = 2; window_seconds = 60 };
  subject = "client";
  observed_at = t;
}

-- Three calls in one minute, and one in the next.
abbrev calls : List Call
calls = call_at 60000 ∷ call_at 70000 ∷ call_at 80000 ∷ call_at 130000 ∷ []

calls_test : allowed_in hmac "oauth.token" hash 60000 calls [] ≡ 2
unfolding allow digest consume_rate_limit update_where
calls_test = refl

window_bounded_example : allowed_in hmac "oauth.token" hash 60000 calls [] ≤ 2
window_bounded_example =
    window_bounded hmac "oauth.token" hash 60000 2 calls []
      (at_most, (at_most, (at_most, (at_most, tt)))) refl
  where
    at_most : Path String "oauth.token" "oauth.token" → 2 ≤ 2
    at_most e = omega arith
