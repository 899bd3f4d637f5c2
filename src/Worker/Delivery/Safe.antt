-- ===== src/Worker/Delivery/Safe.antt =====
-- `HttpsRevocationDelivery.send`: where a revocation that is delivered went.
use wp_auto.Base.{
  ℕ, ◌≤◌, String, ◌≡◌, refl, sym, ap, ◌∙◌, inl, inr, true, not, Option, none, some, List, [], ◌∷◌,
  arith, ltb, Bool-cases, ◌==◌, ==_iff, nat_eq, text_eq, bytes_eq, length, Result, ok, err,
  >>=-eq-ok, guard-ok, or_fail-ok, Result-cases, ok_pair, ok_injective,
}
use wp_auto.Base.Options.{some_injective}
use wp_auto.Worker.{Thrown, error}
use wp_auto.Worker.Delivery.{
  Url, Event, responds, times_out, fails, Network, canonical, resolve, is_public, settled,
  first_address, max_bytes, revocation_endpoint, pinned, send,
}

module _ (net : Network) where
  open net use {utf8, events}

  -- A delivery: the resource, the address and the answer.
  pub record Delivers (resource compact : String) : Type 0 where
    pub parsed : Url
    pub address : String
    pub others : List String
    pub status : Option ℕ
    pub later : List Event
    pub small : length (utf8 compact) ≤ 16384
    pub its_resource : canonical net resource ≡ ok parsed
    pub its_path : parsed.pathname ≡ "/wp-json/wp-auto/mcp"
    pub resolved : resolve net parsed.hostname ≡ ok (address ∷ others)
    pub public_address : is_public net address ≡ true
    pub answered :
        events
          (record { hostname = parsed.hostname; pathname = "/wp-json/wp-auto/v1/revocations" })
          (utf8 compact)
          address
        ≡ responds status ∷ later
    pub accepted : status ≡ some 204

  first_of :
      (addresses : List String) (a : String)
      → first_address addresses ≡ some a
      → (others : List String) × (addresses ≡ a ∷ others)
  first_of [] a e = cc
  first_of (b ∷ bs) a e = (bs, ap (λ x. x ∷ bs) (some_injective e))

  settled_by :
      (es : List Event)
      → settled es ≡ some (ok tt)
      → (status : Option ℕ) × (later : List Event) × (es ≡ responds status ∷ later)
        × (status ≡ some 204)
  unfolding settled
  settled_by [] e = cc
  settled_by (times_out ∷ es) e = absurd (err_ne (some_injective e))
    where
      err_ne : {x : Thrown} → ¬ (Path (Result Thrown (Unit {0})) (err x) (ok tt))
      err_ne e = cc
  settled_by (fails x ∷ es) e = absurd (err_ne (some_injective e))
    where
      err_ne : {x : Thrown} → ¬ (Path (Result Thrown (Unit {0})) (err x) (ok tt))
      err_ne e = cc
  settled_by (responds none ∷ es) e = absurd (err_ne (some_injective e))
    where
      err_ne : {x : Thrown} → ¬ (Path (Result Thrown (Unit {0})) (err x) (ok tt))
      err_ne e = cc
  settled_by (responds (some n) ∷ es) e = elim (Bool-cases (n == 204)) [
    | inl is_204 ↦ (some n, es, refl, ap some ((==_iff n 204).0 is_204))
    | inr other ↦ absurd (err_ne (rw other at (some_injective e)))
  ]
    where
      err_ne : {x : Thrown} → ¬ (Path (Result Thrown (Unit {0})) (err x) (ok tt))
      err_ne e = cc

  -- A revocation counts as delivered only if its event has at most 16 KiB and the first answer of the
  -- request is status 204, of a request to the revocation endpoint on the host of a resource that is
  -- canonical and has the path of the plugin, at the first address that the host resolves to, which is
  -- public.
  pub send-Delivers :
      (resource compact : String)
      → send net resource compact ≡ some (ok tt)
      → Delivers resource compact
  unfolding send pinned revocation_endpoint
  send-Delivers resource compact e = elim (Result-cases (pinned net resource compact)) [
    | inr (x, failure) ↦ absurd (err_ne (some_injective (rw failure at e)))
    | inl ((endpoint, address), chosen) ↦
        let (small, e₁) =
          guard-ok (not (ltb max_bytes (length (utf8 compact))))
            (error none "revocation_event_too_large") _ chosen in
        let (found, its, e₂) = >>=-eq-ok (revocation_endpoint net resource) _ e₁ in
        let (parsed, read, e₃) = >>=-eq-ok (canonical net resource) _ its in
        let (path, e₄) =
          guard-ok (parsed.pathname == "/wp-json/wp-auto/mcp")
            (error none "resource_path_not_supported") _ e₃ in
        let (addresses, resolved, e₅) = >>=-eq-ok (resolve net found.hostname) _ e₂ in
        let (a, first_one, e₆) =
          or_fail-ok (first_address addresses) (error none "unsafe_destination") _ e₅ in
        let (good, e₇) = guard-ok (is_public net a) (error none "unsafe_destination") _ e₆ in
        let (same_endpoint, same_address) = ok_pair e₇ in
        let target = same_endpoint ∙ sym (ok_injective e₄) in
        let (others, listed) = first_of addresses a first_one in
        let (status, later, answers, accepted) =
          settled_by (events endpoint (utf8 compact) address) (rw chosen at e) in
        let host = ap (λ u. u.hostname) (sym (ok_injective e₄)) in
        record {
          parsed = parsed;
          address = address;
          others = others;
          status = status;
          later = later;
          small = ground (arith, small);
          its_resource = read;
          its_path = (==_iff parsed.pathname "/wp-json/wp-auto/mcp").0 path;
          resolved =
              ap (resolve net) (sym host)
              ∙ resolved
              ∙ ap ok listed
              ∙ ap (λ x. ok (x ∷ others)) (sym same_address);
          public_address = ap (is_public net) same_address ∙ good;
          answered = sym (ap (λ u. events u (utf8 compact) address) target) ∙ answers;
          accepted = accepted;
        }
  ]
    where
      err_ne : {x : Thrown} → ¬ (Path (Result Thrown (Unit {0})) (err x) (ok tt))
      err_ne e = cc
