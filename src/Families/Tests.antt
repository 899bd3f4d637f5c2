-- ===== src/Families/Tests.antt =====
-- A family of refresh tokens on concrete inputs, and the theorem at them.
use wp_auto.Base.{◌≡◌, refl, ◌≢◌, none, some, [], ◌∷◌, nat_eq, text_eq, arith, ok, err}
use wp_auto.Base.{update_where}
use wp_auto.Families.{Family, active, revoked, Store, rotated, invalid_lifetime, create, rotate}
use wp_auto.Families.Once.{rotates, after, run, rotated_once}

abbrev family : Family
family = record {
  family_id = "family";
  tenant_id = "tenant";
  site_id = "site";
  grant_id = "grant";
  client_id = "client";
  subject_id = "subject";
  status = active;
  current_generation = 0;
  last_used_at = 1000;
  absolute_expires_at = 7776001000;
  revoked_at = none;
  revocation_reason = none;
}

abbrev start : Store
start = record {
  families = family ∷ [];
  grants = [];
  sites = record { tenant_id = "tenant"; id = "site"; resource = "https://site/mcp" } ∷ [];
  outbox = [];
  next_id = 1;
}

abbrev once_rotated : Store
once_rotated = record start {
  families = record family { current_generation = 1; last_used_at = 2000 } ∷ [];
}

rotates_once : rotate "family" 0 2000 start ≡ ok (rotated, once_rotated)
unfolding rotate update_where
rotates_once = refl

-- A token that was used before ends the family.
ends :
    (after once_rotated (rotate "family" 0 3000 once_rotated)).families
    ≡ record family {
      status = revoked;
      current_generation = 1;
      last_used_at = 2000;
      revoked_at = some 3000;
      revocation_reason = some "refresh_replay";
    }
      ∷ []
unfolding rotate update_where
ends = refl

too_long :
    create
      (record {
        family_id = "long";
        tenant_id = "tenant";
        site_id = "site";
        grant_id = "grant";
        client_id = "client";
        subject_id = "subject";
        issued_at = 0;
        absolute_expires_at = 7776000001;
      })
      start
    ≡ err invalid_lifetime
unfolding create
too_long = refl

rotated_once_example :
    rotate "family" 0 4000 (run (rotates "family" 1 3000 ∷ []) once_rotated) ≢ ok (rotated, start)
rotated_once_example =
    rotated_once "family" 0 0 2000 4000 (rotates "family" 1 3000 ∷ []) start once_rotated start
      (omega arith) rotates_once (omega arith)
