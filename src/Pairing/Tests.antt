-- ===== src/Pairing/Tests.antt =====
-- A pairing on concrete inputs, and the theorem at it.
use wp_auto.Base.{◌≡◌, refl, ◌≢◌, true, none, List, [], ◌∷◌, arith, nat_eq, text_eq, bytes_eq, ok}
use wp_auto.Base.{update_where}
use wp_auto.Pairing.{
  Proof, Store, Environment, pending, verify, open_attempt, find_attempt, mark_verifying, prove,
  complete,
}
use wp_auto.Pairing.Calls.{Call, verifies, run, verify_once}

abbrev proof : Proof
proof = record { public_jwk = "jwk"; thumbprint = "thumbprint" }

abbrev env : Environment
env = record {
  urls = record {
    parse = λ s. none;
    set_hostname = λ host u. u;
    set_port = λ port u. u;
    lower_case = λ s. s;
    is_url = λ s. true;
  };
  sha256 = λ s. 1 ∷ [];
  completion_digest = λ id site thumbprint. 2 ∷ [];
  check_site = λ attempt site verifier. ok proof;
}

abbrev stored : Store
stored = record {
  attempts =
      record {
        tenant_id = "tenant";
        id = "attempt";
        initiator = "account";
        correlation_id = "correlation";
        resource = "https://site/mcp";
        verifier_hash = 1 ∷ [];
        status = pending;
        expires_at = 600000;
        site_id = none;
        failure_code = none;
      }
      ∷ [];
  sites = [];
  receipts = [];
}

verifies_now :
    (verify env "tenant" "attempt" "verifier" "site_001" "key" 1000 1000 2000 stored).0 ≡ ok proof
unfolding verify open_attempt find_attempt mark_verifying prove complete update_where
verifies_now = refl

abbrev between : List Call
between = verifies "tenant" "attempt" "verifier" "site_001" "key" 3000 3000 4000 ∷ []

verify_once_example :
    (verify env "tenant" "attempt" "verifier" "site_001" "key" 5000 5000 6000 (
      run env between
        (verify env "tenant" "attempt" "verifier" "site_001" "key" 1000 1000 2000 stored).1)).0
    ≢ ok proof
verify_once_example =
    verify_once env "tenant" "attempt" "verifier" "site_001" "key" 1000 1000 2000 stored proof
      between "verifier" "site_001" "key" 5000 5000 6000 proof (omega arith) verifies_now
