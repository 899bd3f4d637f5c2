-- ===== src/Pairing/Calls.antt =====
-- `PairingService` in sequences of calls: an attempt is verified at most once.
use wp_auto.Base.{ℕ, ◌≤◌, String, ◌≡◌, ◌≢◌, List, [], ◌∷◌, nat_eq, text_eq, bytes_eq, count, ok}
use wp_auto.Pairing.{Proof, Store, Environment, is_attempt, begin, verify, open_attempt}
use wp_auto.Pairing.Once.{
  IsMarked, after_begin, proved-IsMarked, begin-IsMarked, verified-IsMarked, unverifiable,
}

pub data Call : Type 0 where
  begins : (tenant id account correlation resource verifier : String) → (now : ℕ) → Call
  verifies : (tenant id verifier site key : String) → (now marked_at completed_at : ℕ) → Call

module _ (env : Environment) where
  abbrev pub step : Call → Store → Store
  step (begins tenant id account correlation resource verifier now) s =
      after_begin s (begin env tenant id account correlation resource verifier now s)
  step (verifies tenant id verifier site key now marked_at completed_at) s =
      (verify env tenant id verifier site key now marked_at completed_at s).1

  abbrev pub run : List Call → Store → Store
  run [] s = s
  run (c ∷ cs) s = run cs (step c s)

  step-IsMarked :
      (tenant id : String) (c : Call) (s : Store)
      → IsMarked tenant id s.attempts
      → IsMarked tenant id (step c s).attempts
  unfolding verify
  step-IsMarked tenant id (begins tenant' id' account correlation resource verifier now) s marked =
      begin-IsMarked env tenant id tenant' id' account correlation resource verifier now s marked
  step-IsMarked tenant id (verifies tenant' id' verifier site key now marked_at completed_at) s
        marked =
      proved-IsMarked env tenant id tenant' id' verifier site key marked_at completed_at s
        (open_attempt env tenant' id' verifier now s) marked

  run-IsMarked :
      (tenant id : String) (cs : List Call) (s : Store)
      → IsMarked tenant id s.attempts
      → IsMarked tenant id (run cs s).attempts
  run-IsMarked tenant id [] s marked = marked
  run-IsMarked tenant id (c ∷ cs) s marked =
      run-IsMarked tenant id cs (step c s) (step-IsMarked tenant id c s marked)

  -- A pairing attempt pairs at most one site: after a verification of it that succeeds, no other one does,
  -- for any site and key and at any time, whatever attempts are begun and verified in between. The
  -- attempt's id is taken by at most one row of the tenant.
  pub verify_once :
      (tenant id verifier site key : String) (now marked_at completed_at : ℕ) (s : Store)
      (proof : Proof) (between : List Call) (verifier' site' key' : String)
      (later marked_later completed_later : ℕ) (again : Proof)
      → count (is_attempt tenant id) s.attempts ≤ 1
      → (verify env tenant id verifier site key now marked_at completed_at s).0 ≡ ok proof
      → (verify env tenant id verifier' site' key' later marked_later completed_later
          (run between (verify env tenant id verifier site key now marked_at completed_at s).1)).0
        ≢ ok again
  unfolding verify
  verify_once tenant id verifier site key now marked_at completed_at s proof between verifier' site'
        key' later marked_later completed_later again single done =
      let s' = (verify env tenant id verifier site key now marked_at completed_at s).1 in
      let marked =
        verified-IsMarked env tenant id verifier site key marked_at completed_at s
          (open_attempt env tenant id verifier now s) proof single done in
      let s'' = run between s' in
      unverifiable env tenant id verifier' site' key' marked_later completed_later s''
        (open_attempt env tenant id verifier' later s'') again
        (run-IsMarked tenant id between s' marked)
