-- ===== src/SiteRequest/Addresses.antt =====
-- `resolvePublicAddresses` and `HttpsSiteVerificationClient.verify`: only public addresses are asked.
use wp_auto.Base.{
  suc, ◌≤◌, String, ◌≡◌, refl, ◌∙◌, inl, inr, Bool, true, false, not, List, [], ◌∷◌, arith, ltb,
  ltb→lt, Bool-cases, nat_eq, text_eq, bytes_eq, length, any, Result, ok, >>=-eq-ok, guard-ok,
  or_fail-ok, Result-cases, ok_pair, ok_injective,
}
use wp_auto.SiteProof.{Diagnostic, dns_failed, destination_unsafe, Library}
use wp_auto.SiteRequest.{Response}
use wp_auto.SiteRequest.Resource.{as_failure}
use wp_auto.SiteRequest.Client.{
  diagnosed, not_a_resource, canonical, insert_text, sort_texts, Network, is_public, answers,
  resolve_public_addresses, SiteInput, Resource, Services, first_address, pinned, verify,
}

any-insert_text :
    (p : String → Bool) (x : String) (xs : List String) → any p (insert_text x xs) ≡ any p (x ∷ xs)
any-insert_text p x [] = refl
any-insert_text p x (y ∷ ys) = ground (arith, any-insert_text p x ys)

any-sort_texts : (p : String → Bool) (xs : List String) → any p (sort_texts xs) ≡ any p xs
any-sort_texts p [] = refl
any-sort_texts p (x ∷ xs) = ground (arith, any-sort_texts p xs, any-insert_text p x (sort_texts xs))

length-insert_text : (x : String) (xs : List String) → length (insert_text x xs) ≡ suc (length xs)
length-insert_text x [] = refl
length-insert_text x (y ∷ ys) = ground (arith, length-insert_text x ys)

length-sort_texts : (xs : List String) → length (sort_texts xs) ≡ length xs
length-sort_texts [] = refl
length-sort_texts (x ∷ xs) =
    ground (arith, length-sort_texts xs, length-insert_text x (sort_texts xs))

not-true : (b : Bool) → not b ≡ true → b ≡ false
not-true true e = cc
not-true false e = refl

module _ (net : Network) where
  -- When a name is resolved, it is resolved to one address at least, and all of them are public.
  pub resolved_public :
      (hostname : String) (xs : List String)
      → resolve_public_addresses net hostname ≡ ok xs
      → (1 ≤ length xs) × (any (λ a. not (is_public net a)) xs ≡ false)
  unfolding resolve_public_addresses
  resolved_public hostname xs e = elim (Bool-cases (net.is_ip hostname)) [
    | inl literal ↦
        let (good, e₁) =
          guard-ok (net.in_unicast hostname) destination_unsafe _ (rw literal at e) in
        rw (← ok_injective e₁) (omega arith, rw (literal, good) refl)
    | inr name ↦
        let found = answers net hostname in
        let (some_found, e₁) = guard-ok (ltb 0 (length found)) dns_failed _ (rw name at e) in
        let (good, e₂) =
          guard-ok (not (any (λ a. not (is_public net a)) found)) destination_unsafe _ e₁ in
        rw (← ok_injective e₂) (
          omega (arith, ltb→lt 0 (length found) some_found, length-sort_texts found),
          any-sort_texts (λ a. not (is_public net a)) found
              ∙ not-true (any (λ a. not (is_public net a)) found) good,
        )
  ]

module _ (net : Network) (services : Services) (lib : Library) where
  open services use {resolve, request}

  abbrev with_request : (String → SiteInput → String → Result Diagnostic Response) → Services
  with_request other = record services { request = other }

  pinned_public :
      (input : SiteInput) (place : Resource) (address : String)
      → pinned net services lib input ≡ ok (place, address)
      → is_public net address ≡ true
  unfolding pinned
  pinned_public input place address e =
      let (p, _, e₁) =
        >>=-eq-ok (as_failure not_a_resource (canonical net services lib input.resource)) _ e in
      let (addresses, _, e₂) = >>=-eq-ok (as_failure diagnosed (resolve p.hostname)) _ e₁ in
      let (a, _, e₃) = or_fail-ok (first_address addresses) (diagnosed dns_failed) _ e₂ in
      let (good, e₄) = guard-ok (is_public net a) (diagnosed destination_unsafe) _ e₃ in
      let (_, same) = ok_pair e₄ in rw same good

  -- A verification depends on no answer that an address which is not public could give: two networks that
  -- agree on the requests to public addresses verify alike, whatever names resolve to.
  pub asks_public_only :
      (other : String → SiteInput → String → Result Diagnostic Response) (input : SiteInput)
      → ((origin : String)
          → (i : SiteInput) → (address : String) → is_public net address ≡ true
          → request origin i address ≡ other origin i address)
      → verify net services lib input ≡ verify net (with_request other) lib input
  unfolding verify pinned
  asks_public_only other input agree = elim (Result-cases (pinned net services lib input)) [
    | inr (d, refused) ↦ rw refused refl
    | inl ((place, address), asked) ↦
        let good = pinned_public input place address asked in
        rw (asked, agree place.origin input address good) refl
  ]
