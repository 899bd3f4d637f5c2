-- ===== src/Artifacts/Adapter.antt =====
-- packages/database/src/index.ts, the operations of `PostgresOidcAdapter`. The keyed hashes and the
-- resources of the sites are parameters; the adapter of a model is the operations at that model.
use wp_auto.Base.{
  ℕ, ◌+◌, ◌*◌, ◌/◌, String, Bool, false, not, ◌&&◌, Option, none, some, List, [], ◌∷◌, map,
  if◌then◌else◌, ◌==◌, nat_eq, text_eq, bytes_eq, Bytes, filter, count, Result, ok, err, ◌>>=◌,
  guard,
}
use wp_auto.Base.{update_where}
use wp_auto.Base.Rows.{first}
use wp_auto.Base.Json.{text, number, Object, member, without, with_member, has_member, as_text}
use wp_auto.Limiter.{consume_rate_limit, digest, Error as LimiterError}
use wp_auto.Artifacts.{
  Lookup, Plain, Secret, Store, Error, invalid_artifact, already_consumed, family_rate_limited,
  invalid_grant, invalid_rate_limit_subject, Consumption, consumed, missing, rate_limited, replay,
  Key, is_none, is_secret_value, is_secret_model, payload_tenant_id, is_unexpired, has_plain,
  has_lookup, consumable, upsert_row, of_grant, text_is, revoke_refresh_grant,
}

-- now() of the database as the `consumed` member, in seconds.
abbrev with_consumed : Option ℕ → Object → Object
with_consumed none o = o
with_consumed (some t) o = with_member "consumed" (number (t / 1000)) o

abbrev payload_of : Option Plain → Option Object
payload_of none = none
payload_of (some r) = some r.payload

abbrev expiry : ℕ → Option ℕ → Option ℕ
expiry now none = none
expiry now (some seconds) = some (now + seconds * 1000)

abbrev pub mark_consumed : ℕ → Secret → Secret
mark_consumed now r = record r { consumed_at = some now }

module _ (hmac : Bytes → String → Bytes) (keys : List Key) where
  -- `SecretArtifactCodec.current` and `candidates`
  abbrev pub lookup : Key → String → Lookup
  lookup k value = record { version = k.version; digest = hmac k.key value }

  abbrev pub current_of : List Key → String → Result Error Lookup
  current_of [] value = err invalid_artifact
  current_of (k ∷ _) value =
      if is_secret_value value then ok (lookup k value) else err invalid_artifact

  unfoldable pub current : String → Result Error Lookup
  current value = current_of keys value

  unfoldable pub candidates : String → List Lookup
  candidates value = if is_secret_value value then map (λ k. lookup k value) keys else []

  unfoldable pub upsert : String → String → Object → Option ℕ → ℕ → Store → Result Error Store
  unfolding current
  upsert model id payload expires_in now s =
      let tenant = payload_tenant_id payload in
      let expires_at = expiry now expires_in in
      let secret = (do
        l ← current id
        ok (record s {
          secrets =
              upsert_row (has_lookup model l)
                (record {
                  model = model;
                  lookup = l;
                  tenant_id = tenant;
                  payload = without "jti" payload;
                  expires_at = expires_at;
                  consumed_at = none;
                })
                s.secrets;
        })) in
      if is_secret_model model
      then secret
      else ok (record s {
        plain =
            upsert_row (has_plain model id)
              (record {
                model = model;
                artifact_id = id;
                tenant_id = tenant;
                payload = payload;
                expires_at = expires_at;
              })
              s.plain;
      })

  -- The loop of `find` over the candidates.
  abbrev found_secret : String → Option Secret → Option Object → Option Object
  found_secret id none rest = rest
  found_secret id (some r) rest =
      some (with_consumed r.consumed_at (with_member "jti" (text id) r.payload))

  abbrev pub find_secret : String → String → ℕ → List Secret → List Lookup → Option Object
  find_secret model id now rows [] = none
  find_secret model id now rows (l ∷ ls) =
      found_secret id (first (λ r. has_lookup model l r && is_unexpired now r.expires_at) rows)
        (find_secret model id now rows ls)

  unfoldable pub find : String → String → ℕ → Store → Option Object
  unfolding candidates
  find model id now s =
      let secret = find_secret model id now s.secrets (candidates id) in
      let plain =
        payload_of (first (λ r. has_plain model id r && is_unexpired now r.expires_at) s.plain) in
      if is_secret_model model then secret else plain

  abbrev delete_secrets : String → List Lookup → List Secret → List Secret
  delete_secrets model [] rows = rows
  delete_secrets model (l ∷ ls) rows =
      delete_secrets model ls (filter (λ r. not (has_lookup model l r)) rows)

  unfoldable pub destroy : String → String → Store → Store
  unfolding candidates
  destroy model id s =
      if is_secret_model model
      then record s { secrets = delete_secrets model (candidates id) s.secrets }
      else record s { plain = filter (λ r. not (has_plain model id r)) s.plain }

  -- `findByUid` and `findByUserCode`
  unfoldable pub find_secondary : String → String → String → ℕ → Store → Option Object
  find_secondary model field value now s =
      let plain = payload_of (
        first
          (λ r.
            r.model == model
            && (text_is value (as_text (member field r.payload)) && is_unexpired now r.expires_at))
          s.plain) in
      if is_secret_model model then none else plain

  -- The UPDATE of one candidate, and what follows when it changed no row.
  abbrev pub spend :
      String
      → Lookup
      → ℕ
      → Store
      → (Store → Result Error (Option Consumption × Store))
      → Result Error (Option Consumption × Store)
  spend model l now s rest =
      let s' = record s {
        secrets = update_where (consumable model l now) (mark_consumed now) s.secrets;
      } in
      if count (consumable model l now) s.secrets == 1 then ok (some consumed, s') else rest s'

  -- `this.#rateLimitCodec.digest(…)`
  abbrev pub hashed : Result LimiterError Bytes → Result Error Bytes
  hashed (err _) = err invalid_rate_limit_subject
  hashed (ok h) = ok h

  -- Whether the family of a refresh token may rotate now: never without a grant or a codec.
  abbrev pub allowed_family :
      Option (String → String → Bytes) → Option String → ℕ → Store → Result Error (Bool × Store)
  allowed_family family_hmac none now s = ok (false, s)
  allowed_family none (some grant) now s = ok (false, s)
  allowed_family (some family_hmac) (some grant) now s = do
    h ← hashed (digest family_hmac "oauth.refresh_family" grant)
    let reply = consume_rate_limit "oauth.refresh_family" h 10 60 now s.buckets in
        ok (reply.0, record s { buckets = reply.1 })

  module _ (site_resource : String → String → Option String)
      (family_hmac : Option (String → String → Bytes)) where
    abbrev pub spend_refresh :
        String
        → Lookup
        → ℕ
        → Store
        → Option Secret
        → (Store → Result Error (Option Consumption × Store))
        → Result Error (Option Consumption × Store)
    spend_refresh model l now s none rest = rest s
    spend_refresh model l now s (some row) rest = do
      allowed ← allowed_family family_hmac (as_text (member "grantId" row.payload)) now s
      let spent = spend model l now allowed.1 rest in
          if allowed.0 then spent else ok (some rate_limited, allowed.1)

    -- The first loop of `consume`.
    abbrev pub spend_first :
        String → List Lookup → ℕ → Store → Result Error (Option Consumption × Store)
    spend_first model [] now s = ok (none, s)
    spend_first model (l ∷ ls) now s =
        let rest : Store → Result Error (Option Consumption × Store) =
          λ s'. spend_first model ls now s' in
        let refresh = spend_refresh model l now s (first (consumable model l now) s.secrets) rest in
        let other = spend model l now s rest in if model == "RefreshToken" then refresh else other

    -- The second loop: a token that was consumed before gives its grant away.
    abbrev pub revoke_grant_of :
        Option String
        → ℕ
        → Store
        → Result Error (Consumption × Store)
        → Result Error (Consumption × Store)
    revoke_grant_of none now s rest = rest
    revoke_grant_of (some grant) now s rest = do
      s' ← revoke_refresh_grant site_resource grant now "refresh_replay" s
      ok (replay, s')

    abbrev pub revoke_replayed :
        Option Secret
        → ℕ
        → Store
        → Result Error (Consumption × Store)
        → Result Error (Consumption × Store)
    revoke_replayed none now s rest = rest
    revoke_replayed (some row) now s rest =
        revoke_grant_of (as_text (member "grantId" row.payload)) now s rest

    abbrev pub replayed : String → List Lookup → ℕ → Store → Result Error (Consumption × Store)
    replayed model [] now s = ok (missing, s)
    replayed model (l ∷ ls) now s =
        let rest = replayed model ls now s in
        revoke_replayed (first (λ r. has_lookup model l r && not (is_none r.consumed_at)) s.secrets)
          now s rest

    abbrev pub settled :
        String → List Lookup → ℕ → Option Consumption × Store → Result Error (Consumption × Store)
    settled model ls now (some c, s) = ok (c, s)
    settled model ls now (none, s) =
        let again = replayed model ls now s in
        if model == "RefreshToken" then again else ok (missing, s)

    -- The transaction of `consume` for a secret model.
    unfoldable pub consume_secret : String → String → ℕ → Store → Result Error (Consumption × Store)
    unfolding candidates
    consume_secret model id now s = do
      found ← spend_first model (candidates id) now s
      settled model (candidates id) now found

    -- What is thrown after the COMMIT.
    abbrev pub verdict : Consumption → Result Error (Unit {0})
    verdict consumed = ok tt
    verdict rate_limited = err family_rate_limited
    verdict replay = err invalid_grant
    verdict missing = err already_consumed

    -- An error inside the transaction rolls back, one after it does not.
    abbrev pub committed :
        Store → Result Error (Consumption × Store) → Result Error (Unit {0}) × Store
    committed s (err e) = (err e, s)
    committed s (ok (c, s')) = (verdict c, s')

    abbrev pub unconsumed_plain : String → String → Plain → Bool
    unconsumed_plain model id r = has_plain model id r && not (has_member "consumed" r.payload)

    abbrev pub set_consumed : ℕ → Plain → Plain
    set_consumed now r = record r {
      payload = with_member "consumed" (number (now / 1000)) r.payload;
    }

    unfoldable pub consume : String → String → ℕ → Store → Result Error (Unit {0}) × Store
    unfolding consume_secret
    consume model id now s =
        let secret = committed s (consume_secret model id now s) in
        if is_secret_model model then secret else (
          guard (count (unconsumed_plain model id) s.plain == 1) already_consumed,
          record s { plain = update_where (unconsumed_plain model id) (set_consumed now) s.plain },
        )

    unfoldable pub revoke_by_grant_id : String → String → String → ℕ → Store → Result Error Store
    revoke_by_grant_id model grant reason now s = do
      s' ←
          (let revoked = revoke_refresh_grant site_resource grant now reason s in
            if model == "RefreshToken" then revoked else ok s)
      ok (record s' {
        secrets = filter (λ r. not (of_grant grant r.payload)) s'.secrets;
        plain = filter (λ r. not (of_grant grant r.payload)) s'.plain;
      })
