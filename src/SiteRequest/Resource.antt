-- ===== src/SiteRequest/Resource.antt =====
-- packages/pairing/src/index.ts, `canonicalizeResource`, with `CanonicalResourceSchema` of
-- packages/contracts/src/index.ts. The parser of URLs and what setting a part of a URL does are parameters.
use wp_auto.Base.{
  ℕ, String, Bool, false, not, ◌&&◌, ◌||◌, Option, none, some, List, [], ◌∷◌, ◌==◌, nat_eq, text_eq,
  Result, ok, err, ◌>>=◌, ◌>>◌, guard, or_fail, ◌≡◌, refl, ok_injective,
}
use wp_auto.Base.Text.{codes}

-- Why a text is not the resource of a site: the errors that are thrown, by their messages, the error of
-- the parser of URLs and the one of the schema.
pub data Refusal : Type 0 where
  not_a_url invalid_resource resource_port_not_allowed : Refusal
  resource_path_not_canonical schema_refused : Refusal

-- What is read of a URL.
pub record Url : Type 0 where
  pub protocol : String
  pub username : String
  pub password : String
  pub search : String
  pub hash : String
  pub port : String
  pub hostname : String
  pub pathname : String
  pub origin : String
  pub href : String

-- `new URL`, assignments to `hostname` and `port`, `toLowerCase`, and the format test of `z.url()`.
pub record Urls : Type 0 where
  pub parse : String → Option Url
  pub set_hostname : String → Url → Url
  pub set_port : String → Url → Url
  pub lower_case : String → String
  pub is_url : String → Bool

-- An https URL without user, password, query and fragment.
abbrev pub is_plain : Url → Bool
is_plain u =
    u.protocol == "https:"
    && (u.username == "" && (u.password == "" && (u.search == "" && u.hash == "")))

abbrev pub is_standard_port : String → Bool
is_standard_port port = port == "" || port == "443"

-- `endsWith('/')`
abbrev pub ends_in : ℕ → List ℕ → Bool
ends_in c [] = false
ends_in c (x ∷ []) = x == c
ends_in c (x ∷ y ∷ xs) = ends_in c (y ∷ xs)

abbrev pub is_open_ended : String → Bool
is_open_ended path = path == "/" || ends_in 47 (codes path)

-- A failure of one kind as one of another.
abbrev pub as_failure {ℓ} : {A : Type ℓ} {E F : Type 0} → (E → F) → Result E A → Result F A
as_failure f (ok x) = ok x
as_failure f (err e) = err (f e)

pub as_failure-ok :
    {A E F : Type 0} (f : E → F) (m : Result E A) (x : A) → as_failure f m ≡ ok x → m ≡ ok x
as_failure-ok f (ok y) x e = rw (ok_injective e) refl
as_failure-ok f (err y) x e = cc

module _ (urls : Urls) where
  open urls use {parse, set_hostname, set_port, lower_case, is_url}

  abbrev pub refined : Option Url → Bool
  refined none = false
  refined (some u) = is_plain u && is_standard_port u.port

  -- `CanonicalResourceSchema`
  abbrev pub is_resource : String → Bool
  is_resource value = is_url value && refined (parse value)

  abbrev pub canonicalize_resource : String → Result Refusal String
  canonicalize_resource input = do
    parsed ← or_fail (parse input) not_a_url
    guard (is_plain parsed) invalid_resource
    guard (is_standard_port parsed.port) resource_port_not_allowed
    let changed = set_port "" (set_hostname (lower_case parsed.hostname) parsed) in
        (do
          guard (not (is_open_ended changed.pathname)) resource_path_not_canonical
          guard (is_resource changed.href) schema_refused
          ok changed.href)
