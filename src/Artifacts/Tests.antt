-- ===== src/Artifacts/Tests.antt =====
-- A refresh token on concrete inputs, and the theorems at it.
use wp_auto.Base.{
  String, ◌≡◌, refl, ◌≢◌, Option, none, some, List, [], ◌∷◌, arith, nat_eq, text_eq, bytes_eq,
  Bytes, ok,
}
use wp_auto.Base.{update_where}
use wp_auto.Base.Json.{text}
use wp_auto.Limiter.{consume_rate_limit, digest}
use wp_auto.Artifacts.{Secret, active, revoked, Store, replay, Key, revoke_refresh_grant}
use wp_auto.Artifacts.Adapter.{candidates, consume, consume_secret, mark_consumed}
use wp_auto.Artifacts.Once.{consume_once, Use, run}
use wp_auto.Artifacts.Verdict.{Answers, replay_revokes}

-- A keyed hash of 32 bytes that is the same for every value.
abbrev hash : Bytes
hash =
    1 ∷ 2 ∷ 3 ∷ 4 ∷ 5 ∷ 6 ∷ 7 ∷ 8 ∷ 9 ∷ 10 ∷ 11 ∷ 12 ∷ 13 ∷ 14 ∷ 15 ∷ 16 ∷ 17 ∷ 18 ∷ 19 ∷ 20 ∷ 21
    ∷ 22 ∷ 23 ∷ 24 ∷ 25 ∷ 26 ∷ 27 ∷ 28 ∷ 29 ∷ 30 ∷ 31 ∷ 32 ∷ []

abbrev hmac : Bytes → String → Bytes
hmac key value = hash

abbrev keys : List Key
keys = record { version = 1; key = 7 ∷ [] } ∷ []

abbrev site_resource : String → String → Option String
site_resource tenant site = some "https://site"

abbrev family_hmac : Option (String → String → Bytes)
family_hmac = some λ policy subject. hash

abbrev token_row : Secret
token_row = record {
  model = "RefreshToken";
  lookup = record { version = 1; digest = hash };
  tenant_id = none;
  payload = record { name = "grantId"; value = text "grant" } ∷ [];
  expires_at = some 9000000;
  consumed_at = none;
}

abbrev stored : Store
stored = record {
  plain = [];
  secrets = token_row ∷ [];
  grants =
      record {
        id = "grant";
        tenant_id = "tenant";
        site_id = "site";
        status = active;
        revoked_at = none;
        revocation_reason = none;
      }
      ∷ [];
  outbox = [];
  buckets = [];
}

consumes_now :
    (consume hmac keys site_resource family_hmac "RefreshToken" "refresh-token" 1000 stored).0
    ≡ ok tt
unfolding consume consume_secret candidates digest consume_rate_limit update_where
consumes_now = refl

abbrev between : List Use
between = record { model = "RefreshToken"; value = "refresh-token"; observed_at = 2000 } ∷ []

consume_once_example :
    (consume hmac keys site_resource family_hmac "RefreshToken" "refresh-token" 3000 (
      run hmac keys site_resource family_hmac between
        (consume hmac keys site_resource family_hmac "RefreshToken" "refresh-token" 1000
          stored).1)).0
    ≢ ok tt
unfolding candidates
consume_once_example =
    consume_once hmac keys site_resource family_hmac "RefreshToken" "refresh-token" 1000 3000 stored
      between refl (omega arith) consumes_now

abbrev used : Store
used = record stored { secrets = mark_consumed 1000 token_row ∷ [] }

abbrev revoked_store : Store
revoked_store = record {
  plain = [];
  secrets = record token_row { consumed_at = some 1000; expires_at = some 2000 } ∷ [];
  grants =
      record {
        id = "grant";
        tenant_id = "tenant";
        site_id = "site";
        status = revoked;
        revoked_at = some 2000;
        revocation_reason = some "refresh_replay";
      }
      ∷ [];
  outbox =
      record {
        tenant_id = "tenant";
        site_id = "site";
        resource = "https://site";
        sequence = 1;
        grant_id = "grant";
        reason = "refresh_replay";
      }
      ∷ [];
  buckets = [];
}

replays_now :
    consume_secret hmac keys site_resource family_hmac "RefreshToken" "refresh-token" 2000 used
    ≡ ok (replay, revoked_store)
unfolding consume_secret candidates digest consume_rate_limit update_where revoke_refresh_grant
replays_now = refl

replay_revokes_example :
    Answers hmac keys site_resource family_hmac "refresh-token" "grant" 2000 used
unfolding candidates
replay_revokes_example =
    replay_revokes hmac keys site_resource family_hmac "refresh-token" "grant" 2000 used refl refl
      λ g e. ("https://site", refl)
