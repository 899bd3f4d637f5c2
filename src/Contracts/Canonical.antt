-- ===== src/Contracts/Canonical.antt =====
-- `McpScopeSetSchema`: a set of scopes has one list.
use wp_auto.Base.{
  ℕ, suc, ◌≤◌, ◌<◌, ◌≡◌, refl, sym, ap, ◌∙◌, inl, inr, Bool, true, false, ◌&&◌, List, [], ◌∷◌,
  arith, ltb, leb, ltb→lt, Bool-cases, ◌==◌, nat_eq, text_eq, bytes_eq, ==_refl, length, any,
}
use wp_auto.Contracts.{
  McpScope, scope_index, scope_eq, same_scope_iff, in_order, is_scope_set, set_size,
}

-- The scopes are those of a strictly increasing list that begins at `n` or after it.
abbrev IsAscending : ℕ → List McpScope → Type 0
IsAscending n [] = Unit
IsAscending n (s ∷ ss) = (n ≤ scope_index s) × IsAscending (suc (scope_index s)) ss

in_order-IsAscending :
    (n : ℕ) (s : McpScope) (ss : List McpScope)
    → n ≤ scope_index s
    → in_order (s ∷ ss) ≡ true
    → IsAscending n (s ∷ ss)
in_order-IsAscending n s [] h e = (h, tt)
in_order-IsAscending n s (t ∷ ss) h e =
    let below : suc (scope_index s) ≤ scope_index t = ground arith in
    let rest : in_order (t ∷ ss) ≡ true = ground arith in
    (h, in_order-IsAscending (suc (scope_index s)) t ss below rest)

abbrev has : McpScope → List McpScope → Bool
has s = any (λ t. t == s)

absent_below :
    (n : ℕ) (s : McpScope) (ss : List McpScope)
    → IsAscending n ss
    → scope_index s < n
    → has s ss ≡ false
absent_below n s [] a h = refl
absent_below n s (t ∷ ss) (b, a) h =
    let rest = absent_below (suc (scope_index t)) s ss a (omega (arith, b, h)) in ground arith

-- Two ascending lists with the same members.
first_below :
    (s t : McpScope) (n : ℕ) (ss ts : List McpScope)
    → IsAscending n (t ∷ ts)
    → has s (s ∷ ss) ≡ has s (t ∷ ts)
    → scope_index t ≤ scope_index s
first_below s t n ss ts (_, above) same = elim (Bool-cases (ltb (scope_index s) (scope_index t))) [
  | inr after ↦ ground arith
  | inl before ↦
      let before' = ltb→lt (scope_index s) (scope_index t) before in
      let absent = absent_below (scope_index t) s (t ∷ ts) (omega arith, above) before' in
      absurd (true_ne_false (sym (own s ss) ∙ same ∙ absent))
]
  where
    true_ne_false : ¬ (true ≡ false)
    true_ne_false e = cc

    own : (s : McpScope) (ss : List McpScope) → has s (s ∷ ss) ≡ true
    own s ss = rw (==_refl s) refl

tail_same :
    (s : McpScope) (ss ts : List McpScope)
    → IsAscending (suc (scope_index s)) ss
    → IsAscending (suc (scope_index s)) ts
    → ((u : McpScope) → has u (s ∷ ss) ≡ has u (s ∷ ts))
    → (u : McpScope) → has u ss ≡ has u ts
tail_same s ss ts ascending ascending' same u = elim (Bool-cases (s == u)) [
  | inr other ↦ ground (arith, same u)
  | inl mine ↦
      let it : scope_index u < suc (scope_index s) = ground arith in
      absent_below (suc (scope_index s)) u ss ascending it
      ∙ sym (absent_below (suc (scope_index s)) u ts ascending' it)
]

ascending_unique :
    (n : ℕ) (ss ts : List McpScope)
    → IsAscending n ss
    → IsAscending n ts
    → ((u : McpScope) → has u ss ≡ has u ts)
    → ss ≡ ts
ascending_unique n [] [] a b same = refl
ascending_unique n [] (t ∷ ts) a b same = ground (arith, same t)
ascending_unique n (s ∷ ss) [] a b same = ground (arith, same s)
ascending_unique n (s ∷ ss) (t ∷ ts) (hs, a) (ht, b) same =
    let down = first_below s t n ss ts (ht, b) (same s) in
    let up = first_below t s n ts ss (hs, a) (sym (same t)) in
    let it : s ≡ t = (same_scope_iff s t).0 (ground arith) in
    let a' : IsAscending (suc (scope_index t)) ss = rw it at a in
    let same' : (u : McpScope) → has u (t ∷ ss) ≡ has u (t ∷ ts) = rw it at same in
    rw it (
      ap (λ us. t ∷ us)
        (ascending_unique (suc (scope_index t)) ss ts a' b (tail_same t ss ts a' b same')))

set-IsAscending : (ss : List McpScope) → is_scope_set ss ≡ true → IsAscending 0 ss
set-IsAscending [] e = tt
set-IsAscending (s ∷ ss) e = in_order-IsAscending 0 s ss (omega arith) (
    last_test (leb 1 (length (s ∷ ss))) (leb (length (s ∷ ss)) 5)
      (set_size (s ∷ ss) == length (s ∷ ss)) (in_order (s ∷ ss)) e)
  where
    last_test : (a b c d : Bool) → (a && (b && (c && d))) ≡ true → d ≡ true
    last_test a b c d e = ground arith

-- A valid list of scopes is the only valid list of its members: two valid lists that permit the same
-- scopes are equal, so scopes may be compared as lists.
pub scope_set_unique :
    (ss ts : List McpScope)
    → is_scope_set ss ≡ true
    → is_scope_set ts ≡ true
    → ((u : McpScope) → any (λ t. t == u) ss ≡ any (λ t. t == u) ts)
    → ss ≡ ts
scope_set_unique ss ts valid valid' same =
    ascending_unique 0 ss ts (set-IsAscending ss valid) (set-IsAscending ts valid') same
