-- ===== src/Provider/Loopback/Bounded.antt =====
-- `allowRegisteredNativeLoopbackPort`: a client has few variants of its redirect URIs, and keeps the
-- registered ones.
use wp_auto.Base.{
  suc, ◌≤◌, String, ◌≡◌, refl, sym, ◌∙◌, inl, inr, Bool, true, false, ◌||◌, Option, none, some,
  List, [], ◌∷◌, ◌++◌, arith, ltb, Bool-cases, ◌==◌, ==_iff, nat_eq, text_eq, bytes_eq, length,
  filter, count, any,
}
use wp_auto.Base.{count-append, length-filter}
use wp_auto.Provider.{Url}
use wp_auto.Provider.Loopback.{
  allow_port, both_match, includes, is_variant, loopback_matches, run_ports, splice, variants,
  without_oldest,
}

-- Lists from which one element is taken.
any-splice :
    (p : String → Bool) (u : String) (vs : List String)
    → p u ≡ false
    → any p (splice u vs) ≡ any p vs
any-splice p u [] f = refl
any-splice p u (v ∷ vs) f = elim (Bool-cases (v == u)) [
  | inl same ↦ let e : p v ≡ false = rw ((==_iff v u).0 same) f in rw same (rw e refl)
  | inr other ↦ rw other (ground (arith, any-splice p u vs f))
]

count-splice :
    (q : String → Bool) (u : String) (vs : List String)
    → q u ≡ true
    → includes u vs ≡ true
    → suc (count q (splice u vs)) ≡ count q vs
count-splice q u [] t i = cc
count-splice q u (v ∷ vs) t i = elim (Bool-cases (v == u)) [
  | inl same ↦ let e : q v ≡ true = rw ((==_iff v u).0 same) t in rw same (rw e (omega arith))
  | inr other ↦ rw other (ground (arith, count-splice q u vs t (rw other at i)))
]

other_text : (r u : String) → (r == u) ≡ false → (u == r) ≡ false
other_text r u other = elim (Bool-cases (u == r)) [
  | inr e ↦ e
  | inl e ↦
      let back : (r == u) ≡ true = (==_iff r u).1 (sym ((==_iff u r).0 e)) in absurd (ground arith)
]

includes-splice :
    (r u : String) (vs : List String) → (r == u) ≡ false → includes r (splice u vs) ≡ includes r vs
includes-splice r u vs other = any-splice (λ v. v == r) u vs (other_text r u other)

any-append :
    (p : String → Bool) (us : List String) (u : String) → any p (us ++ u ∷ []) ≡ (any p us || p u)
any-append p [] u = ground arith
any-append p (v ∷ us) u = ground (arith, any-append p us u)

count_same :
    (p q : String → Bool) (us : List String) → ((u : String) → p u ≡ q u) → count p us ≡ count q us
count_same p q [] h = refl
count_same p q (u ∷ us) h = rw (h u, count_same p q us h) refl

-- A URI with a port is not the registered one of another.
both_registers : (x y z : Option Url) → both_match x y ≡ true → both_match y z ≡ false
both_registers none y z e = cc
both_registers (some r) none z e = cc
both_registers (some r) (some u) none e = refl
both_registers (some r) (some u) (some c) e =
    let port : (u.port == "") ≡ false = ground arith in ground arith

first-filter :
    (q : String → Bool) (us : List String) (v : String) (vs : List String)
    → filter q us ≡ v ∷ vs
    → (q v ≡ true) × (includes v us ≡ true)
first-filter q [] v vs e = cc
first-filter q (u ∷ us) v vs e = elim (Bool-cases (q u)) [
  | inl here ↦
      let same : u ≡ v = head_of u v (rw here at e) in
      (rw same at here, ground (arith, (==_iff u v).1 same))
  | inr other ↦
      let (holds, there) = first-filter q us v vs (rw other at e) in (holds, ground (arith, there))
]
  where
    head_of : {xs ys : List String} (x y : String) → Path (List String) (x ∷ xs) (y ∷ ys) → x ≡ y
    head_of x y e = cc

module _ (parse : String → Option Url) where
  variant_registers :
      (uris : List String) (u c : String)
      → is_variant parse uris u ≡ true
      → loopback_matches parse u c ≡ false
  variant_registers [] u c e = cc
  variant_registers (r ∷ rs) u c e = elim (Bool-cases (loopback_matches parse r u)) [
    | inl here ↦ both_registers (parse r) (parse u) (parse c) here
    | inr other ↦ variant_registers rs u c (ground arith)
  ]

  -- A list that differs in a variant has the same variants.
  grown_variants :
      (uris : List String) (u c : String)
      → is_variant parse uris u ≡ true
      → is_variant parse (uris ++ u ∷ []) c ≡ is_variant parse uris c
  grown_variants uris u c e =
      ground
        (arith, any-append (λ r. loopback_matches parse r c) uris u, variant_registers uris u c e)

  spliced_variants :
      (uris : List String) (u c : String)
      → is_variant parse uris u ≡ true
      → is_variant parse (splice u uris) c ≡ is_variant parse uris c
  spliced_variants uris u c e =
      any-splice (λ r. loopback_matches parse r c) u uris (variant_registers uris u c e)

  -- What a call keeps of a list.
  record Keeps (uris new : List String) : Type 0 where
    same_variants : (c : String) → is_variant parse new c ≡ is_variant parse uris c
    bounded : count (is_variant parse new) new ≤ 8
    registered :
        (r : String)
        → includes r uris ≡ true
        → is_variant parse uris r ≡ false
        → includes r new ≡ true

  trimmed-Keeps :
      (uris : List String) (found : List String)
      → filter (is_variant parse uris) uris ≡ found
      → count (is_variant parse uris) uris ≤ 9
      → Keeps uris (without_oldest found uris)
  trimmed-Keeps uris [] e few = record {
    same_variants = λ c. refl;
    bounded =
        let size = length-filter (is_variant parse uris) uris in
        (let size' = rw e at size in omega (arith, size'));
    registered = λ r i n. i;
  }
  trimmed-Keeps uris (v ∷ vs) e few =
      let size = length-filter (is_variant parse uris) uris in
      let size' : length (v ∷ vs) ≡ count (is_variant parse uris) uris = rw e at size in
      let (variant, there) = first-filter (is_variant parse uris) uris v vs e in
      elim (Bool-cases (ltb 8 (length (v ∷ vs)))) [
        | inr small ↦ rw small (record {
          same_variants = λ c. refl;
          bounded = ground (arith, small, size');
          registered = λ r i n. i;
        })
        | inl large ↦
            let same = λ (c : String). spliced_variants uris v c variant in
            let moved =
              count_same (is_variant parse (splice v uris)) (is_variant parse uris) (splice v uris)
                same in
            let fewer = count-splice (is_variant parse uris) v uris variant there in
            rw large (record {
              same_variants = same;
              bounded = omega (arith, moved, fewer, few);
              registered = λ r i n. includes-splice r v uris (registered_other r v n variant) ∙ i;
            })
      ]
    where
      registered_other :
          (r v : String)
          → is_variant parse uris r ≡ false
          → is_variant parse uris v ≡ true
          → (r == v) ≡ false
      registered_other r v n variant = elim (Bool-cases (r == v)) [
        | inr e ↦ e
        | inl e ↦
            let m : is_variant parse uris r ≡ true = rw ((==_iff r v).0 e) variant in
            absurd (ground arith)
      ]

  allow_port-Keeps :
      (u : String) (uris : List String)
      → count (is_variant parse uris) uris ≤ 8
      → Keeps uris (allow_port parse u uris).1
  unfolding allow_port
  allow_port-Keeps u uris few = elim (Bool-cases (includes u uris)) [
    | inl known ↦ rw known (same_list few)
    | inr new ↦ elim (Bool-cases (is_variant parse uris u)) [
      | inr foreign ↦ rw (new, foreign) (same_list few)
      | inl variant ↦
          let grown = uris ++ u ∷ [] in
          let same = λ (c : String). grown_variants uris u c variant in
          let moved = count_same (is_variant parse grown) (is_variant parse uris) grown same in
          let more = count-append (is_variant parse uris) uris (u ∷ []) in
          let one : count (is_variant parse uris) (u ∷ []) ≡ 1 = ground (arith, variant) in
          let kept =
            trimmed-Keeps grown (variants parse grown) refl
              (omega (arith, moved, more, one, few)) in
          rw (new, variant)
            (record {
              same_variants = λ c. kept.same_variants c ∙ same c;
              bounded = kept.bounded;
              registered = λ r i n.
                  kept.registered r (ground (arith, any-append (λ v. v == r) uris u, i))
                    (same r ∙ n);
            })
    ]
  ]
    where
      same_list : count (is_variant parse uris) uris ≤ 8 → Keeps uris uris
      same_list few = record { same_variants = λ c. refl; bounded = few; registered = λ r i n. i }

  -- Whatever redirect URIs are asked for, in whatever order, a client keeps each URI that is not a loopback
  -- variant of another, and never has more than eight variants, if it starts with at most eight.
  pub ports_bounded :
      (us uris : List String) (r : String)
      → count (is_variant parse uris) uris ≤ 8
      → includes r uris ≡ true
      → is_variant parse uris r ≡ false
      → (count (is_variant parse (run_ports parse us uris)) (run_ports parse us uris) ≤ 8)
        × (includes r (run_ports parse us uris) ≡ true)
  ports_bounded [] uris r few i n = (few, i)
  ports_bounded (u ∷ us) uris r few i n =
      let kept = allow_port-Keeps u uris few in
      ports_bounded us (allow_port parse u uris).1 r kept.bounded (kept.registered r i n)
        (kept.same_variants r ∙ n)
