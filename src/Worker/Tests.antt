-- ===== src/Worker/Tests.antt =====
-- A round on a concrete outbox, and the theorems at it.
use wp_auto.Base.{
  ℕ, String, ◌≡◌, refl, Bool, true, false, none, some, List, [], ◌∷◌, map, arith, if◌then◌else◌,
  ◌==◌, nat_eq, text_eq, bytes_eq, ok, err,
}
use wp_auto.Base.{sort_by, update_where}
use wp_auto.Outbox.{Row, grant, candidates, claim, mark_delivered, reschedule}
use wp_auto.Outbox.Lease.{
  IsValid, is_claimed, claim_exclusive, Statement, claims, delivers, defers, run-IsValid, IsUnique,
}
use wp_auto.Outbox.Lease
use wp_auto.Worker.{Environment, error, run_once, revocation_error_code}
use wp_auto.Worker.Round.{outcome, run_once-outcome}

worker : Unit {0}
unfolding sort_by update_where candidates claim mark_delivered reschedule run_once
    revocation_error_code
worker = tt

abbrev row : ℕ → String → Row
row id resource = record {
  id = id;
  tenant_id = "t";
  site_id = "site0001";
  resource = resource;
  sequence = id;
  event_type = grant;
  grant_id = some "grant001";
  key_id = none;
  reason = "token_revoked";
  not_before = 1000;
  attempts = 0;
  locked_at = none;
  delivered_at = none;
  last_error_code = none;
}

abbrev rows : List Row
rows = row 2 "https://b" ∷ row 1 "https://a" ∷ []

abbrev nobody : Row → Bool
nobody r = false

-- The first site answers; the name of the second is not found.
abbrev env : Environment
env = record {
  sign = λ r. some "jws";
  send = λ resource compact.
      if resource == "https://a" then ok tt else err (error (some "ENOTFOUND") "getaddrinfo");
  save = λ id. ok tt;
  done_at = λ id. 9000;
}

run_once_test :
    (run_once env nobody 20 5000 rows).1
    ≡ record (row 2 "https://b") {
      not_before = 11000;
      attempts = 1;
      last_error_code = some "dns.failed";
    }
      ∷ record (row 1 "https://a") { attempts = 1; delivered_at = some 9000 }
      ∷ []
unfolding worker
run_once_test = refl

rows-IsUnique : IsUnique rows
rows-IsUnique id = ground arith

rows-IsValid : IsValid rows
rows-IsValid = record { unique = rows-IsUnique; rows_ok = refl }

claimed_first : is_claimed 1 (claim nobody 1 5000 rows) ≡ true
unfolding worker
claimed_first = refl

claim_exclusive_example : is_claimed 1 (claim nobody 20 60000 (claim nobody 1 5000 rows).1) ≡ false
claim_exclusive_example =
    claim_exclusive nobody nobody 1 20 5000 60000 1 rows (omega arith) claimed_first

abbrev statements : List Statement
statements =
    claims nobody 1 5000 ∷ delivers 1 6000 ∷ claims nobody 1 7000 ∷ defers 2 "timeout" 60 8000 ∷ []

run-IsValid_example : IsValid (Lease.run statements rows)
run-IsValid_example = run-IsValid statements rows rows-IsValid

run_once-outcome_example :
    (run_once env nobody 20 5000 rows).1
    ≡ map (outcome env (candidates nobody 20 5000 rows) 5000) rows
run_once-outcome_example = run_once-outcome env nobody 20 5000 rows rows-IsValid
