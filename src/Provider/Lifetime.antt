-- ===== src/Provider/Lifetime.antt =====
-- `refreshTokenTtl`: how long a refresh token lives.
use wp_auto.Base.{ℕ, ◌+◌, ◌≤◌, max, some, arith, nat_eq, text_eq, bytes_eq}
use wp_auto.Provider.{refresh_ttl}

-- A refresh token lives at least a second and at most 30 days, and ends within 90 days of the first
-- issue, or a second from now if these have passed.
pub ttl_bounded :
    (issued now : ℕ)
    → (1 ≤ refresh_ttl (some issued) now)
      × (refresh_ttl (some issued) now ≤ 2592000)
      × (now + refresh_ttl (some issued) now ≤ max (issued + 7776000) (now + 1))
unfolding refresh_ttl
ttl_bounded issued now = (ground arith, ground arith, ground arith)
