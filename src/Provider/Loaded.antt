-- ===== src/Provider/Loaded.antt =====
-- `createResourceGrantLoader`: what a grant that is loaded agrees with.
use wp_auto.Base.{
  String, ◌≡◌, refl, ap, ◌∙◌, true, false, Option, none, some, List, [], ◌∷◌, arith, ltb, ◌==◌,
  ==_iff, nat_eq, text_eq, bytes_eq, length, all, Result, ok, err, >>=-eq-ok, guard-ok, or_fail-ok,
  ok_injective,
}
use wp_auto.Base.Text.{codes}
use wp_auto.Base.Options.{some_injective}
use wp_auto.Contracts.{McpScope}
use wp_auto.Grants.Resolve.{GrantBinding}
use wp_auto.Provider.Words.{words, scope_set}
use wp_auto.Provider.{
  Code, Context, Services, ProviderGrant, Thrown, binding_mismatch, account_mismatch,
  client_mismatch, resource_mismatch, scope_mismatch, one_resource, text_of, exact_resource,
  is_canonical, is_known, is_oidc, mcp_scopes, scope_words, is_submitted, looked_up, only_resource,
  is_scoped, check_grant, check_binding, exact_request, find_binding, load,
}

-- A grant of the provider that is for the binding and for nothing else.
pub record IsFor (account client resource : String) (b : GrantBinding) (g : ProviderGrant)
    : Type 0 where
  pub same_id : g.jti ≡ b.grant_id
  pub same_account : g.account_id ≡ account
  pub same_client : g.client_id ≡ client
  pub only_its_resource : g.resources ≡ resource ∷ []
  pub its_scopes :
      scope_set (words (codes (g.resource_scope resource))) ≡ scope_set (scope_words b.scopes)
  pub oidc_only : all is_oidc (words (codes g.oidc_scope)) ≡ true
  pub subject_only : all (λ c. c == "sub") g.oidc_claims ≡ true
  pub without_rar : g.has_rar ≡ false

none_ne_some :
    {g : ProviderGrant} → ¬ (Path (Result Code (Option ProviderGrant)) (ok none) (ok (some g)))
none_ne_some e = cc

only_sound :
    (resource : String) (rs : List String) → only_resource resource rs ≡ true → rs ≡ resource ∷ []
only_sound resource [] e = cc
only_sound resource (r ∷ []) e = let same = (==_iff r resource).0 e in rw same refl
only_sound resource (r ∷ q ∷ rs) e = cc

check_grant-IsFor :
    (account client resource : String) (submitted : Option String) (b : GrantBinding)
    (found : Option ProviderGrant) (g : ProviderGrant)
    → check_grant account client resource submitted b found ≡ ok (some g)
    → (found ≡ some g) × IsFor account client resource b g
unfolding check_grant
check_grant-IsFor account client resource none b none g e = absurd (none_ne_some e)
check_grant-IsFor account client resource (some id) b none g e = cc
check_grant-IsFor account client resource submitted b (some x) g e =
    let (a₁, e₁) = guard-ok (x.jti == b.grant_id) binding_mismatch _ e in
    let (a₂, e₂) = guard-ok (x.account_id == account) account_mismatch _ e₁ in
    let (a₃, e₃) = guard-ok (x.client_id == client) client_mismatch _ e₂ in
    let (a₄, e₄) = guard-ok (only_resource resource x.resources) resource_mismatch _ e₃ in
    let (a₅, e₅) = guard-ok (is_scoped resource b x) scope_mismatch _ e₄ in
    let same : x ≡ g = some_injective (ok_injective e₅) in
    let scopes : (scope_set (words (codes (x.resource_scope resource)))
          == scope_set (scope_words b.scopes))
        ≡ true =
      ground arith in
    rw (← same) (
      refl,
      record {
        same_id = (==_iff x.jti b.grant_id).0 a₁;
        same_account = (==_iff x.account_id account).0 a₂;
        same_client = (==_iff x.client_id client).0 a₃;
        only_its_resource = only_sound resource x.resources a₄;
        its_scopes =
            (==_iff (scope_set (words (codes (x.resource_scope resource))))
                (scope_set (scope_words b.scopes))).0
              scopes;
        oidc_only = ground arith;
        subject_only = ground arith;
        without_rar = ground arith;
      },
    )

looked_up-ok : {A : Type 0} (m : Result Thrown A) (x : A) → looked_up m ≡ ok x → m ≡ ok x
looked_up-ok (ok y) x e = rw (ok_injective e) refl
looked_up-ok (err y) x e = cc

module _ (services : Services) where
  open services use {parse, is_active, resolve_exact, find_grant}

  -- What a request that loads a grant was.
  pub record Loads (ctx : Context) (g : ProviderGrant) : Type 0 where
    pub account : String
    pub client : String
    pub resource : String
    pub scope : String
    pub binding : GrantBinding
    pub its_account : ctx.account_id ≡ some account
    pub its_client : ctx.client_id ≡ some client
    pub its_resource : one_resource ctx.resource ≡ some resource
    pub its_scope : text_of ctx.scope ≡ some scope
    pub canonical : is_canonical resource (exact_resource (parse resource)) ≡ true
    pub known_scopes : all is_known (words (codes scope)) ≡ true
    pub account_active : is_active account ≡ ok true
    pub bound :
        resolve_exact (exact_request account client resource (mcp_scopes (words (codes scope))))
        ≡ ok (some binding)
    pub bound_account : binding.subject_id ≡ account
    pub bound_client : binding.client_id ≡ client
    pub bound_resource : binding.resource ≡ resource
    pub bound_scopes :
        scope_set (scope_words binding.scopes)
        ≡ scope_set (scope_words (mcp_scopes (words (codes scope))))
    pub as_submitted : is_submitted ctx.submitted (some binding) ≡ true
    pub found : find_grant binding.grant_id ≡ ok (some g)
    pub is_for : IsFor account client resource binding g

  check_binding-ok :
      (account client resource : String) (scopes : List McpScope) (submitted : Option String)
      (found : Option GrantBinding) (g : ProviderGrant)
      → check_binding services account client resource scopes submitted found ≡ ok (some g)
      → (b : GrantBinding) × (found ≡ some b)
        × (b.subject_id ≡ account)
        × (b.client_id ≡ client)
        × (b.resource ≡ resource)
        × (scope_set (scope_words b.scopes) ≡ scope_set (scope_words scopes))
        × (find_grant b.grant_id ≡ ok (some g))
        × IsFor account client resource b g
  unfolding check_binding
  check_binding-ok account client resource scopes submitted none g e = absurd (none_ne_some e)
  check_binding-ok account client resource scopes submitted (some b) g e =
      let (a₁, e₁) = guard-ok (b.subject_id == account) account_mismatch _ e in
      let (a₂, e₂) = guard-ok (b.client_id == client) client_mismatch _ e₁ in
      let (a₃, e₃) = guard-ok (b.resource == resource) resource_mismatch _ e₂ in
      let (a₄, e₄) =
        guard-ok (scope_set (scope_words b.scopes) == scope_set (scope_words scopes)) scope_mismatch
          _ e₃ in
      let (x, found, e₅) = >>=-eq-ok (looked_up (find_grant b.grant_id)) _ e₄ in
      let (same, is_for) = check_grant-IsFor account client resource submitted b x g e₅ in
      (
        b,
        refl,
        (==_iff b.subject_id account).0 a₁,
        (==_iff b.client_id client).0 a₂,
        (==_iff b.resource resource).0 a₃,
        (==_iff (scope_set (scope_words b.scopes)) (scope_set (scope_words scopes))).0 a₄,
        looked_up-ok (find_grant b.grant_id) x found ∙ ap ok same,
        is_for,
      )

  find_binding-ok :
      (account client resource : String) (scopes : List McpScope) (found : Option GrantBinding)
      → find_binding services account client resource scopes ≡ ok found
      → (is_active account ≡ ok true)
        × (resolve_exact (exact_request account client resource scopes) ≡ ok found)
  find_binding-ok account client resource scopes found e =
      let (live, asked, e₁) = >>=-eq-ok (looked_up (is_active account)) _ e in
      let (alive, e₂) = guard-ok live account_mismatch _ e₁ in
      (
        looked_up-ok (is_active account) live asked ∙ ap ok alive,
        looked_up-ok (resolve_exact (exact_request account client resource scopes)) found e₂,
      )

  -- A grant that is loaded for a request is the provider's grant under the id of the binding that the
  -- lookup returns for the request's account, client, resource and distinct scopes, and agrees with it:
  -- the account is active, the resource is canonical, all requested scopes are known, the binding has the
  -- account, client, resource and set of scopes of the request, a submitted consent is of the binding,
  -- and the grant has its id, account and client, exactly the one resource with the same set of scopes,
  -- no scope of OpenID but openid and offline_access, no claim but sub and no further details.
  pub load-Loads :
      (ctx : Context) (g : ProviderGrant) → load services ctx ≡ ok (some g) → Loads ctx g
  unfolding load
  load-Loads ctx g e =
      let (client, c, e₁) = or_fail-ok ctx.client_id client_mismatch _ e in
      let (account, a, e₂) = or_fail-ok ctx.account_id account_mismatch _ e₁ in
      let (resource, r, e₃) = or_fail-ok (one_resource ctx.resource) resource_mismatch _ e₂ in
      let (canonical, e₄) =
        guard-ok (is_canonical resource (exact_resource (parse resource))) resource_mismatch _ e₃ in
      let (scope, s, e₅) = or_fail-ok (text_of ctx.scope) scope_mismatch _ e₄ in
      let scopes = mcp_scopes (words (codes scope)) in
      let (known, e₆) = guard-ok (all is_known (words (codes scope))) scope_mismatch _ e₅ in
      let (some_scope, e₇) = guard-ok (ltb 0 (length scopes)) scope_mismatch _ e₆ in
      let (found, bound, e₈) =
        >>=-eq-ok (find_binding services account client resource scopes) _ e₇ in
      let (submitted, e₉) = guard-ok (is_submitted ctx.submitted found) binding_mismatch _ e₈ in
      let (b, here, ba, bc, br, bs, its, is_for) =
        check_binding-ok account client resource scopes ctx.submitted found g e₉ in
      let (active, resolved) = find_binding-ok account client resource scopes found bound in
      record {
        account = account;
        client = client;
        resource = resource;
        scope = scope;
        binding = b;
        its_account = a;
        its_client = c;
        its_resource = r;
        its_scope = s;
        canonical = canonical;
        known_scopes = known;
        account_active = active;
        bound = resolved ∙ ap ok here;
        bound_account = ba;
        bound_client = bc;
        bound_resource = br;
        bound_scopes = bs;
        as_submitted = rw here at submitted;
        found = its;
        is_for = is_for;
      }
