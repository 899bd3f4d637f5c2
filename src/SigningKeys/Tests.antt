-- ===== src/SigningKeys/Tests.antt =====
-- Signing keys on concrete inputs, and the theorem at them.
use wp_auto.Base.{
  ◌≤◌, ◌≡◌, refl, true, false, none, some, List, [], ◌∷◌, nat_eq, text_eq, ok, err, count, any,
}
use wp_auto.Base.{update_where}
use wp_auto.SigningKeys.{
  Store, local_pkcs8, single_active_required, SigningKey, active, retiring, has_kid, is_signing,
  is_active, load_usable, publish, activate, revoke,
}
use wp_auto.SigningKeys.Sound.{Call, publishes, activates, run}
use wp_auto.SigningKeys.Revoked.{keys_safe}

abbrev start : Store
start = record {
  keys = [];
  sites = record { tenant_id = "tenant"; id = "site"; resource = "https://site/mcp" } ∷ [];
  outbox = [];
  next_id = 1;
}

-- The second key takes over from the first.
abbrev rotation : List Call
rotation =
    publishes "key-one" local_pkcs8 "file" "jwk" 0
    ∷ activates "key-one" 1200000
    ∷ publishes "key-two" local_pkcs8 "file" "jwk" 2000000
    ∷ activates "key-two" 3200000
    ∷ []

rotated : is_active "key-two" 3200000 (run rotation start) ≡ true
unfolding is_active publish activate update_where
rotated = refl

too_early : (activate "key-two" 3199999 (run rotation start)).0 ≡ false
unfolding publish activate update_where
too_early = refl

-- The first key still verifies until twenty minutes have passed.
abbrev first_key : SigningKey
first_key = record {
  kid = "key-one";
  custody_provider = local_pkcs8;
  custody_reference = "file";
  public_jwk = "jwk";
  status = retiring;
  publish_at = 0;
  activate_at = some 1200000;
  retire_at = some 4400000;
  revoke_at = none;
}

abbrev second_key : SigningKey
second_key = record {
  kid = "key-two";
  custody_provider = local_pkcs8;
  custody_reference = "file";
  public_jwk = "jwk";
  status = active;
  publish_at = 2000000;
  activate_at = some 3200000;
  retire_at = none;
  revoke_at = none;
}

overlap : load_usable 4399999 (run rotation start) ≡ ok (second_key, first_key ∷ [])
unfolding load_usable publish activate update_where
overlap = refl

overlap_ends : load_usable 4400000 (run rotation start) ≡ ok (second_key, [])
unfolding load_usable publish activate update_where
overlap_ends = refl

none_active :
    load_usable 5000000 (revoke "key-two" 5000000 (run rotation start)).1
    ≡ err single_active_required
unfolding load_usable publish activate revoke update_where
none_active = refl

was_published : any (has_kid "key-two") (run rotation start).keys ≡ true
unfolding publish activate update_where
was_published = refl

keys_safe_example :
    (count is_signing
        (run
          (activates "key-two" 7000000 ∷ [])
          (revoke "key-two" 5000000 (run rotation start)).1).keys
      ≤ 1)
    × (is_active "key-two" 8000000
          (run (activates "key-two" 7000000 ∷ []) (revoke "key-two" 5000000 (run rotation start)).1)
        ≡ false)
keys_safe_example =
    keys_safe rotation (activates "key-two" 7000000 ∷ []) start "key-two" 5000000 8000000 refl
      was_published
