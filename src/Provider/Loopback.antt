-- ===== src/Provider/Loopback.antt =====
-- packages/oauth-provider/src/index.ts, `allowRegisteredNativeLoopbackPort`: a native client may use any
-- port of its registered loopback address. The redirect URIs of a client are a list that it changes.
pub mod Bounded
use wp_auto.Base.{
  suc, ◌≤◌, String, ◌≡◌, refl, sym, ◌∙◌, inl, inr, Bool, true, false, not, ◌&&◌, ◌||◌, Option, none,
  some, List, [], ◌∷◌, ◌++◌, arith, ltb, if◌then◌else◌, Bool-cases, ◌==◌, ==_iff, nat_eq, text_eq,
  bytes_eq, length, filter, count, any,
}
use wp_auto.Base.{count-append, length-filter}
use wp_auto.Provider.{Url}

-- `nativeLoopbackRedirectMatches`, on URLs that parse.
abbrev pub url_matches : Url → Url → Bool
url_matches expected observed =
    expected.protocol == "http:"
    && (expected.hostname == "127.0.0.1"
        && (expected.port == ""
            && (expected.username == ""
                && (expected.password == ""
                    && (observed.protocol == expected.protocol
                        && (observed.hostname == expected.hostname
                            && (not (observed.port == "")
                                && (observed.username == ""
                                    && (observed.password == ""
                                        && (observed.pathname == expected.pathname
                                            && (observed.search == expected.search
                                                && (observed.hash == ""
                                                    && expected.hash == ""))))))))))))

abbrev pub both_match : Option Url → Option Url → Bool
both_match (some expected) (some observed) = url_matches expected observed
both_match none observed = false
both_match (some expected) none = false

-- `splice(indexOf(u), 1)`
abbrev pub splice : String → List String → List String
splice u [] = []
splice u (v ∷ vs) = let rest = splice u vs in if v == u then vs else v ∷ rest

abbrev pub without_oldest : List String → List String → List String
without_oldest [] uris = uris
without_oldest (v ∷ vs) uris = if ltb 8 (length (v ∷ vs)) then splice v uris else uris

abbrev pub includes : String → List String → Bool
includes u uris = any (λ v. v == u) uris

module _ (parse : String → Option Url) where
  abbrev pub loopback_matches : String → String → Bool
  loopback_matches registered candidate = both_match (parse registered) (parse candidate)

  abbrev pub is_variant : List String → String → Bool
  is_variant uris u = any (λ r. loopback_matches r u) uris

  abbrev pub variants : List String → List String
  variants uris = filter (is_variant uris) uris

  -- What it answers, and the list that it leaves.
  unfoldable pub allow_port : String → List String → Bool × List String
  allow_port u uris =
      if includes u uris
      then (true, uris)
      else (if is_variant uris u
          then (true, without_oldest (variants (uris ++ u ∷ [])) (uris ++ u ∷ []))
          else (false, uris))

  -- The whole function, with the list of the client that the provider finds.
  abbrev pub allow_client :
      Option String → Option String → (String → Option (List String)) → Bool × Option (List String)
  allow_client none u find = (false, none)
  allow_client (some client) none find = (false, find client)
  allow_client (some client) (some u) find = changed (find client)
    where
      changed : Option (List String) → Bool × Option (List String)
      changed none = (false, none)
      changed (some uris) = ((allow_port u uris).0, some (allow_port u uris).1)

  abbrev pub run_ports : List String → List String → List String
  run_ports [] uris = uris
  run_ports (u ∷ us) uris = run_ports us (allow_port u uris).1
