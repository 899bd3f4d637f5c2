-- ===== src/Artifacts/Once.antt =====
-- `PostgresOidcAdapter.consume` in sequences: a bearer secret is consumed at most once.
use wp_auto.Base.{
  ℕ, suc, ◌≤◌, String, ◌≡◌, refl, ◌≢◌, inl, inr, true, not, ◌&&◌, Option, none, some, List, [], ◌∷◌,
  arith, Bool-cases, ◌==◌, nat_eq, text_eq, bytes_eq, Bytes, any, Result, ok, err, >>=-eq-ok,
  ok_injective,
}
use wp_auto.Base.Json.{member, as_text}
use wp_auto.Base.Rows.{first}
use wp_auto.Artifacts.{
  Lookup, Secret, Store, Error, Consumption, consumed, missing, rate_limited, replay, Key, is_none,
  is_secret_model, has_lookup, revoke_refresh_grant,
}
use wp_auto.Artifacts.Adapter.{
  candidates, spend_first, revoke_grant_of, revoke_replayed, replayed, settled, consume_secret,
  committed, consume,
}
use wp_auto.Artifacts.Consume.{
  live, spend-le, spend-lt, AllPay, Uses, spend_first-Uses, revoke_refresh_grant-le,
}

pub record Use : Type 0 where
  pub model : String
  pub value : String
  pub observed_at : ℕ

module _ (hmac : Bytes → String → Bytes) (keys : List Key)
    (site_resource : String → String → Option String)
    (family_hmac : Option (String → String → Bytes)) where
  -- The end of the transaction consumes nothing more.
  abbrev Ends : ℕ → String → List Lookup → ℕ → Consumption × Store → Type 0
  Ends n model ls before reply = Uses n model ls before (some reply.0, reply.1)

  grant-Ends :
      (n : ℕ) (model : String) (ls : List Lookup) (grant : Option String) (now : ℕ) (s : Store)
      (rest : Result Error (Consumption × Store)) (reply : Consumption × Store)
      → (rest ≡ ok reply → Ends n model ls (live model ls s.secrets) reply)
      → revoke_grant_of hmac keys site_resource family_hmac grant now s rest ≡ ok reply
      → Ends n model ls (live model ls s.secrets) reply
  grant-Ends n model ls none now s rest reply follows e = follows e
  grant-Ends n model ls (some grant) now s rest reply follows e =
      let (s', revoked, e₁) =
        >>=-eq-ok (revoke_refresh_grant site_resource grant now "refresh_replay" s) _ e in
      rw (← ok_injective e₁) (
        omega (
          arith,
          revoke_refresh_grant-le hmac keys site_resource family_hmac model ls grant now
              "refresh_replay" s s' revoked,
        ))

  row-Ends :
      (n : ℕ) (model : String) (ls : List Lookup) (found : Option Secret) (now : ℕ) (s : Store)
      (rest : Result Error (Consumption × Store)) (reply : Consumption × Store)
      → (rest ≡ ok reply → Ends n model ls (live model ls s.secrets) reply)
      → revoke_replayed hmac keys site_resource family_hmac found now s rest ≡ ok reply
      → Ends n model ls (live model ls s.secrets) reply
  row-Ends n model ls none now s rest reply follows e = follows e
  row-Ends n model ls (some row) now s rest reply follows e =
      grant-Ends n model ls (as_text (member "grantId" row.payload)) now s rest reply follows e

  replayed-Ends :
      (n : ℕ) (model : String) (ls : List Lookup) (other : String) (cs : List Lookup) (now : ℕ)
      (s : Store) (reply : Consumption × Store)
      → replayed hmac keys site_resource family_hmac other cs now s ≡ ok reply
      → Ends n model ls (live model ls s.secrets) reply
  replayed-Ends n model ls other [] now s reply e = rw (← ok_injective e) (omega arith)
  replayed-Ends n model ls other (l ∷ cs) now s reply e =
      row-Ends n model ls
        (first (λ r. has_lookup other l r && not (is_none r.consumed_at)) s.secrets) now s
        (replayed hmac keys site_resource family_hmac other cs now s) reply
        (replayed-Ends n model ls other cs now s reply) e

  settled-Ends :
      (n : ℕ) (model : String) (ls : List Lookup) (other : String) (cs : List Lookup) (now : ℕ)
      (before : ℕ) (found : Option Consumption) (s : Store) (reply : Consumption × Store)
      → Uses n model ls before (found, s)
      → settled hmac keys site_resource family_hmac other cs now (found, s) ≡ ok reply
      → Ends n model ls before reply
  settled-Ends n model ls other cs now before (some c) s reply uses e = rw (← ok_injective e) uses
  settled-Ends n model ls other cs now before none s reply uses e =
      elim (Bool-cases (other == "RefreshToken")) [
        | inl refresh ↦
            let ends = replayed-Ends n model ls other cs now s reply (rw refresh at e) in
            omega (arith, ends, uses)
        | inr plain ↦ rw (← ok_injective (rw plain at e)) uses
      ]

  consume_secret-Ends :
      (n : ℕ) (model : String) (ls : List Lookup) (other id : String) (now : ℕ) (s : Store)
      (reply : Consumption × Store)
      → AllPay n model ls other (candidates hmac keys id)
      → consume_secret hmac keys site_resource family_hmac other id now s ≡ ok reply
      → Ends n model ls (live model ls s.secrets) reply
  unfolding consume_secret
  consume_secret-Ends n model ls other id now s reply pays e =
      let cs = candidates hmac keys id in
      let (found, known, e₁) =
        >>=-eq-ok (spend_first hmac keys site_resource family_hmac other cs now s) _ e in
      let uses =
        spend_first-Uses hmac keys site_resource family_hmac n model ls other cs now s found pays
          known in
      settled-Ends n model ls other cs now (live model ls s.secrets) found.0 found.1 reply uses e₁

  all_free :
      (model : String) (ls : List Lookup) (other : String) (cs : List Lookup)
      → AllPay 0 model ls other cs
  all_free model ls other [] = tt
  all_free model ls other (l ∷ cs) = (
    λ now rows one. omega (arith, spend-le model ls other l now rows),
    all_free model ls other cs,
  )

  all_pay :
      (model : String) (ls cs : List Lookup)
      → ((r : Secret)
          → any (λ k. has_lookup model k r) cs ≡ true
          → any (λ k. has_lookup model k r) ls ≡ true)
      → AllPay 1 model ls model cs
  all_pay model ls [] among = tt
  all_pay model ls (l ∷ cs) among = (
    λ now rows one. omega (arith, spend-lt model ls l now rows (λ r e. among r (rw e refl)) one),
    all_pay model ls cs λ r e. among r (ground arith),
  )

  committed-le :
      (model : String) (ls : List Lookup) (s : Store) (m : Result Error (Consumption × Store))
      → ((reply : Consumption × Store)
          → m ≡ ok reply
          → Ends 0 model ls (live model ls s.secrets) reply)
      → live model ls (committed hmac keys site_resource family_hmac s m).1.secrets
        ≤ live model ls s.secrets
  committed-le model ls s (err e) ends = omega arith
  committed-le model ls s (ok (c, s')) ends = omega (arith, ends (c, s') refl)

  committed-lt :
      (model : String) (ls : List Lookup) (s : Store) (m : Result Error (Consumption × Store))
      → ((reply : Consumption × Store)
          → m ≡ ok reply
          → Ends 1 model ls (live model ls s.secrets) reply)
      → (committed hmac keys site_resource family_hmac s m).0 ≡ ok tt
      → suc (live model ls (committed hmac keys site_resource family_hmac s m).1.secrets)
        ≤ live model ls s.secrets
  committed-lt model ls s (err e) ends done = cc
  committed-lt model ls s (ok (consumed, s')) ends done = omega (arith, ends (consumed, s') refl)
  committed-lt model ls s (ok (missing, s')) ends done = cc
  committed-lt model ls s (ok (rate_limited, s')) ends done = cc
  committed-lt model ls s (ok (replay, s')) ends done = cc

  consume-le :
      (model : String) (ls : List Lookup) (other id : String) (now : ℕ) (s : Store)
      → live model ls (consume hmac keys site_resource family_hmac other id now s).1.secrets
        ≤ live model ls s.secrets
  unfolding consume
  consume-le model ls other id now s = elim (Bool-cases (is_secret_model other)) [
    | inl secret ↦ rw secret (
        committed-le model ls s (consume_secret hmac keys site_resource family_hmac other id now s)
          λ reply e.
            consume_secret-Ends 0 model ls other id now s reply
              (all_free model ls other (candidates hmac keys id)) e)
    | inr plain ↦ rw plain (omega arith)
  ]

  consume-lt :
      (model id : String) (now : ℕ) (s : Store)
      → is_secret_model model ≡ true
      → (consume hmac keys site_resource family_hmac model id now s).0 ≡ ok tt
      → suc (
          live model
            (candidates hmac keys id)
            (consume hmac keys site_resource family_hmac model id now s).1.secrets)
        ≤ live model (candidates hmac keys id) s.secrets
  unfolding consume
  consume-lt model id now s secret done =
      let cs = candidates hmac keys id in
      let ends : (reply : Consumption × Store)
          → consume_secret hmac keys site_resource family_hmac model id now s ≡ ok reply
          → Ends 1 model cs (live model cs s.secrets) reply =
        λ reply e.
          consume_secret-Ends 1 model cs model id now s reply (all_pay model cs cs λ r e. e) e in
      rw secret (
        committed-lt model cs s (consume_secret hmac keys site_resource family_hmac model id now s)
          ends (rw secret at done))

  -- Calls of `consume`, of this or of other models and values.
  abbrev pub run : List Use → Store → Store
  run [] s = s
  run (u ∷ us) s =
      run us (consume hmac keys site_resource family_hmac u.model u.value u.observed_at s).1

  run-le :
      (model : String) (ls : List Lookup) (us : List Use) (s : Store)
      → live model ls (run us s).secrets ≤ live model ls s.secrets
  run-le model ls [] s = omega arith
  run-le model ls (u ∷ us) s =
      let s' = (consume hmac keys site_resource family_hmac u.model u.value u.observed_at s).1 in
      omega (arith, run-le model ls us s', consume-le model ls u.model u.value u.observed_at s)

  -- A bearer secret that is stored once, under whichever key, is consumed at most once: when a call of
  -- `consume` has succeeded, every later one for the same value fails, whatever secrets of whatever models
  -- are consumed or replayed in between.
  pub consume_once :
      (model value : String) (now later : ℕ) (s : Store) (between : List Use)
      → is_secret_model model ≡ true
      → live model (candidates hmac keys value) s.secrets ≤ 1
      → (consume hmac keys site_resource family_hmac model value now s).0 ≡ ok tt
      → (consume hmac keys site_resource family_hmac model value later
          (run between (consume hmac keys site_resource family_hmac model value now s).1)).0
        ≢ ok tt
  consume_once model value now later s between secret single done again =
      let s' = (consume hmac keys site_resource family_hmac model value now s).1 in
      omega (
        arith,
        single,
        consume-lt model value now s secret done,
        run-le model (candidates hmac keys value) between s',
        consume-lt model value later (run between s') secret again,
      )
