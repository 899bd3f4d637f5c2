-- ===== src/Artifacts/Consume.antt =====
-- `PostgresOidcAdapter.consume`: a bearer secret is consumed at most once.
use wp_auto.Base.{
  ℕ, suc, ◌+◌, ◌≤◌, String, ◌≡◌, sym, ap, inl, inr, Bool, true, false, ◌&&◌, Option, none, some,
  List, [], ◌∷◌, arith, Bool-cases, Option-cases, ◌==◌, ==_iff, nat_eq, text_eq, bytes_eq, Bytes,
  count, any, Result, ok, >>=-eq-ok, or_fail-ok, ok_injective,
}
use wp_auto.Base.{update_where, count-update_le}
use wp_auto.Base.Rows.{count-update_drop, first}
use wp_auto.Base.Json.{member, as_text}
use wp_auto.Limiter.{digest}
use wp_auto.Artifacts.{
  Lookup, Secret, Grant, Store, Error, Consumption, consumed, missing, rate_limited, replay, Key,
  is_none, is_open_grant, has_lookup, consumable, expire, of_grant, revoke_refresh_grant,
  revoke_found, site_missing,
}
use wp_auto.Artifacts.Adapter.{
  spend, mark_consumed, allowed_family, spend_refresh, spend_first, hashed,
}

-- A row of the model under one of the lookups that is not consumed.
abbrev pub is_live : String → List Lookup → Secret → Bool
is_live model ls r = any (λ l. has_lookup model l r) ls && is_none r.consumed_at

abbrev pub live : String → List Lookup → List Secret → ℕ
live model ls rows = count (is_live model ls) rows

pub spend-le :
    (model : String) (ls : List Lookup) (other : String) (l : Lookup) (now : ℕ) (rows : List Secret)
    → live model ls (update_where (consumable other l now) (mark_consumed now) rows)
      ≤ live model ls rows
spend-le model ls other l now rows =
    count-update_le (consumable other l now) (is_live model ls) (mark_consumed now) rows
      λ r e. ground arith

pub spend-lt :
    (model : String) (ls : List Lookup) (l : Lookup) (now : ℕ) (rows : List Secret)
    → ((r : Secret) → has_lookup model l r ≡ true → any (λ k. has_lookup model k r) ls ≡ true)
    → count (consumable model l now) rows ≡ 1
    → suc (live model ls (update_where (consumable model l now) (mark_consumed now) rows))
      ≤ live model ls rows
spend-lt model ls l now rows among one =
    let drop =
      count-update_drop (consumable model l now) (is_live model ls) (mark_consumed now) rows
        (λ r e. ground (arith, among r)) (λ r e. ground arith) in
    omega (arith, drop, one)

-- A success that takes a row out under this lookup takes `n` out of the count.
abbrev pub Pays : ℕ → String → List Lookup → String → Lookup → Type 0
Pays n model ls other l =
    (now : ℕ)
    → (rows : List Secret) → count (consumable other l now) rows ≡ 1
    → n + live model ls (update_where (consumable other l now) (mark_consumed now) rows)
      ≤ live model ls rows

abbrev pub AllPay : ℕ → String → List Lookup → String → List Lookup → Type 0
AllPay n model ls other [] = Unit
AllPay n model ls other (l ∷ rest) = Pays n model ls other l × AllPay n model ls other rest

abbrev pub cost : ℕ → Option Consumption → ℕ
cost n (some consumed) = n
cost n (some missing) = 0
cost n (some rate_limited) = 0
cost n (some replay) = 0
cost n none = 0

-- The count after a step, with what the step cost.
abbrev pub Uses : ℕ → String → List Lookup → ℕ → Option Consumption × Store → Type 0
Uses n model ls before reply = cost n reply.0 + live model ls reply.1.secrets ≤ before

module _ (hmac : Bytes → String → Bytes) (keys : List Key)
    (site_resource : String → String → Option String)
    (family_hmac : Option (String → String → Bytes)) where
  allowed_family-secrets :
      (codec : Option (String → String → Bytes)) (grant : Option String) (now : ℕ) (s : Store)
      (allowed : Bool × Store)
      → allowed_family hmac keys codec grant now s ≡ ok allowed
      → allowed.1.secrets ≡ s.secrets
  allowed_family-secrets codec none now s allowed e =
      let same : Path (Bool × Store) (false, s) allowed = cc in ap (λ z. z.1.secrets) (sym same)
  allowed_family-secrets none (some grant) now s allowed e =
      let same : Path (Bool × Store) (false, s) allowed = cc in ap (λ z. z.1.secrets) (sym same)
  allowed_family-secrets (some codec) (some grant) now s allowed e =
      let (h, _, e₁) =
        >>=-eq-ok (hashed hmac keys (digest codec "oauth.refresh_family" grant)) _ e in
      ap (λ z. z.1.secrets) (sym (ok_injective e₁))

  spend-Uses :
      (n : ℕ) (model : String) (ls : List Lookup) (other : String) (l : Lookup) (now : ℕ)
      (s : Store) (rest : Store → Result Error (Option Consumption × Store))
      (reply : Option Consumption × Store)
      → Pays n model ls other l
      → ((s' : Store) → rest s' ≡ ok reply → Uses n model ls (live model ls s'.secrets) reply)
      → spend hmac keys other l now s rest ≡ ok reply
      → Uses n model ls (live model ls s.secrets) reply
  spend-Uses n model ls other l now s rest reply pays follows e =
      elim (Bool-cases (count (consumable other l now) s.secrets == 1)) [
        | inl one ↦
            let same = ok_injective (rw one at e) in
            rw (← same)
              (pays now s.secrets ((==_iff (count (consumable other l now) s.secrets) 1).0 one))
        | inr several ↦
            let after : Store = record s {
              secrets = update_where (consumable other l now) (mark_consumed now) s.secrets;
            } in
            let later : rest after ≡ ok reply = rw several at e in
            omega (arith, follows after later, spend-le model ls other l now s.secrets)
      ]

  spend_refresh-Uses :
      (n : ℕ) (model : String) (ls : List Lookup) (other : String) (l : Lookup) (now : ℕ)
      (s : Store) (found : Option Secret) (rest : Store → Result Error (Option Consumption × Store))
      (reply : Option Consumption × Store)
      → Pays n model ls other l
      → ((s' : Store) → rest s' ≡ ok reply → Uses n model ls (live model ls s'.secrets) reply)
      → spend_refresh hmac keys site_resource family_hmac other l now s found rest ≡ ok reply
      → Uses n model ls (live model ls s.secrets) reply
  spend_refresh-Uses n model ls other l now s none rest reply pays follows e = follows s e
  spend_refresh-Uses n model ls other l now s (some row) rest reply pays follows e =
      let (allowed, known, e₁) =
        >>=-eq-ok
          (allowed_family hmac keys family_hmac (as_text (member "grantId" row.payload)) now s) _
          e in
      let same =
        allowed_family-secrets family_hmac (as_text (member "grantId" row.payload)) now s allowed
          known in
      rw (← same) (elim (Bool-cases allowed.0) [
        | inl granted ↦
            spend-Uses n model ls other l now allowed.1 rest reply pays follows (rw granted at e₁)
        | inr full ↦ let denied = ok_injective (rw full at e₁) in rw (← denied) (omega arith)
      ])

  pub spend_first-Uses :
      (n : ℕ) (model : String) (ls : List Lookup) (other : String) (cs : List Lookup) (now : ℕ)
      (s : Store) (reply : Option Consumption × Store)
      → AllPay n model ls other cs
      → spend_first hmac keys site_resource family_hmac other cs now s ≡ ok reply
      → Uses n model ls (live model ls s.secrets) reply
  spend_first-Uses n model ls other [] now s reply _ e = rw (← ok_injective e) (omega arith)
  spend_first-Uses n model ls other (l ∷ cs) now s reply (pays, all_pay) e =
      let rest : Store → Result Error (Option Consumption × Store) =
        λ s'. spend_first hmac keys site_resource family_hmac other cs now s' in
      let follows : (s' : Store)
          → rest s' ≡ ok reply
          → Uses n model ls (live model ls s'.secrets) reply =
        λ s' e'. spend_first-Uses n model ls other cs now s' reply all_pay e' in
      elim (Bool-cases (other == "RefreshToken")) [
        | inl refresh ↦
            spend_refresh-Uses n model ls other l now s (first (consumable other l now) s.secrets)
              rest reply pays follows (rw refresh at e)
        | inr plain ↦ spend-Uses n model ls other l now s rest reply pays follows (rw plain at e)
      ]

  -- A revocation expires rows and consumes none.
  revoke_found-le :
      (model : String) (ls : List Lookup) (grant : String) (now : ℕ) (reason : String) (g : Grant)
      (s s' : Store)
      → revoke_found site_resource grant now reason g s ≡ ok s'
      → live model ls s'.secrets ≤ live model ls s.secrets
  revoke_found-le model ls grant now reason g s s' e =
      let wanted : Secret → Bool = λ r. r.model == "RefreshToken" && of_grant grant r.payload in
      let fewer = count-update_le wanted (is_live model ls) (expire now) s.secrets λ r l. l in
      elim (Bool-cases (is_open_grant g.status)) [
        | inl open_grant ↦
            let (resource, _, e₁) =
              or_fail-ok (site_resource g.tenant_id g.site_id) site_missing _
                (rw open_grant at e) in
            rw (← ok_injective e₁) fewer
        | inr closed ↦ rw (← ok_injective (rw closed at e)) fewer
      ]

  pub revoke_refresh_grant-le :
      (model : String) (ls : List Lookup) (grant : String) (now : ℕ) (reason : String)
      (s s' : Store)
      → revoke_refresh_grant site_resource grant now reason s ≡ ok s'
      → live model ls s'.secrets ≤ live model ls s.secrets
  unfolding revoke_refresh_grant
  revoke_refresh_grant-le model ls grant now reason s s' e =
      elim (Option-cases (first (λ r. r.id == grant) s.grants)) [
        | inl none_found ↦ rw (← ok_injective (rw none_found at e)) (omega arith)
        | inr (g, found) ↦ revoke_found-le model ls grant now reason g s s' (rw found at e)
      ]
