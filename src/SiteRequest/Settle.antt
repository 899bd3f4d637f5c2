-- ===== src/SiteRequest/Settle.antt =====
-- `requestSiteProof`: the first outcome counts, and an answer is read within its size.
use wp_auto.Base.{
  ℕ, ◌+◌, ◌≤◌, ◌≡◌, refl, inl, inr, Bool, true, false, ◌&&◌, ◌||◌, Option, none, some, List, [],
  ◌∷◌, ◌++◌, arith, ltb, Bool-cases, ◌==◌, nat_eq, text_eq, bytes_eq, Bytes, length, any, Result,
  ok, err,
}
use wp_auto.Base.{length-append}
use wp_auto.Base.Options.{some_injective}
use wp_auto.SiteProof.{Diagnostic, too_large, max_bytes, network_timeout, content_type_invalid}
use wp_auto.SiteRequest.{
  Response, Event, responds, receives, ends, times_out, fails, Phase, waiting, ignoring, reading,
  Request, started, settle, Parser, parse, step, respond, receive, on_event, request_site_proof,
  http_diagnostic, network_diagnostic,
}

-- A response that is read: status 200 and JSON.
abbrev pub is_readable : Event → Bool
is_readable (responds status is_json) = status == 200 && is_json
is_readable (receives _) = false
is_readable ends = false
is_readable times_out = false
is_readable (fails _) = false

module _ {Json : Type 0} (parser : Parser Json) where
  step-settled :
      (s : Request) (e : Event) (r : Result Diagnostic Response)
      → s.settled ≡ some r
      → (step parser s e).settled ≡ some r
  unfolding step
  step-settled s e r h = ground arith

  -- The body that an answer was read from.
  abbrev pub ReadFrom : Response → Type 0
  ReadFrom r = (body : Bytes) × (length body ≤ max_bytes) × (parse parser body ≡ ok r)

  abbrev Reads : Bool → Phase → Option (Result Diagnostic Response) → Type 0
  Reads heard waiting settled = Unit
  Reads heard ignoring settled = Unit
  Reads heard (reading size body) settled =
      (heard ≡ true) × (settled ≡ none → (size ≡ length body) × (length body ≤ max_bytes))

  record IsSound (heard : Bool) (s : Request) : Type 0 where
    reads : Reads heard s.phase s.settled
    answered : (r : Response) → s.settled ≡ some (ok r) → (heard ≡ true) × ReadFrom r

  -- An error settles the request and answers nothing.
  settle_err :
      (d : Diagnostic) (settled : Option (Result Diagnostic Response)) (r : Response)
      → settle (err d) settled ≡ some (ok r)
      → settled ≡ some (ok r)
  settle_err d none r e = cc
  settle_err d (some old) r e = e

  settle_some :
      (m : Result Diagnostic Response) (settled : Option (Result Diagnostic Response))
      → ¬ (settle m settled ≡ none)
  settle_some m none e = cc
  settle_some m (some old) e = cc

  or_true : (a b : Bool) → a ≡ true → (a || b) ≡ true
  or_true a b e = rw e refl

  wider-Reads :
      (heard b : Bool) (phase : Phase) (settled : Option (Result Diagnostic Response))
      → Reads heard phase settled
      → Reads (heard || b) phase settled
  wider-Reads heard b waiting settled reads = tt
  wider-Reads heard b ignoring settled reads = tt
  wider-Reads heard b (reading size body) settled (own, sized) = (or_true heard b own, sized)

  wider : (heard b : Bool) (s : Request) → IsSound heard s → IsSound (heard || b) s
  wider heard b s sound = record {
    reads = wider-Reads heard b s.phase s.settled sound.reads;
    answered = λ r e. let (own, from) = sound.answered r e in (or_true heard b own, from);
  }

  failed-Reads :
      (heard : Bool) (d : Diagnostic) (phase : Phase)
      (settled : Option (Result Diagnostic Response))
      → Reads heard phase settled
      → Reads heard phase (settle (err d) settled)
  failed-Reads heard d waiting settled reads = tt
  failed-Reads heard d ignoring settled reads = tt
  failed-Reads heard d (reading size body) settled (own, _) =
      (own, λ e. absurd (settle_some (err d) settled e))

  failed :
      (heard : Bool) (d : Diagnostic) (phase : Phase) (s : Request)
      → IsSound heard s
      → Reads heard phase (settle (err d) s.settled)
      → IsSound heard (record { phase = phase; settled = settle (err d) s.settled })
  failed heard d phase s sound reads = record {
    reads = reads;
    answered = λ r e. sound.answered r (settle_err d s.settled r e);
  }

  received :
      (heard : Bool) (chunk : Bytes) (size : ℕ) (body : Bytes)
      (settled : Option (Result Diagnostic Response))
      → IsSound heard (record { phase = reading size body; settled = settled })
      → IsSound heard
          (receive parser chunk size body (record { phase = reading size body; settled = settled }))
  received heard chunk size body settled sound =
      elim (Bool-cases (ltb max_bytes (size + length chunk))) [
        | inl large ↦ rw large (
            failed heard too_large (reading (size + length chunk) body)
              (record { phase = reading size body; settled = settled }) sound
              (sound.reads.0, λ e. absurd (settle_some (err too_large) settled e)))
        | inr fits ↦ rw fits (record {
          reads = (
            sound.reads.0,
            λ e.
                let (sized, below) = sound.reads.1 e in
                let grown : size + length chunk ≡ length (body ++ chunk) =
                  omega (arith, sized, length-append body chunk) in
                (grown, rw (← grown) (ground arith)),
          );
          answered = sound.answered;
        })
      ]

  ended :
      (heard : Bool) (size : ℕ) (body : Bytes) (settled : Option (Result Diagnostic Response))
      → IsSound heard (record { phase = reading size body; settled = settled })
      → IsSound heard
          (record { phase = reading size body; settled = settle (parse parser body) settled })
  ended heard size body (some old) sound = sound
  ended heard size body none sound = record {
    reads = (sound.reads.0, λ e. absurd (settle_some (parse parser body) none e));
    answered = λ r e. (sound.reads.0, (body, (sound.reads.1 refl).1, some_injective e));
  }

  answered_readable :
      (heard : Bool) (status : ℕ) (is_json : Bool) (settled : Option (Result Diagnostic Response))
      → IsSound heard (record { phase = waiting; settled = settled })
      → IsSound
          (heard || (status == 200 && is_json))
          (respond parser status is_json (record { phase = waiting; settled = settled }))
  answered_readable heard status is_json settled sound =
      let s : Request = record { phase = waiting; settled = settled } in
      elim (Bool-cases (status == 200)) [
        | inr other ↦ rw other (
            failed (heard || false) (http_diagnostic status) ignoring s (wider heard false s sound)
              tt)
        | inl good ↦ elim (Bool-cases is_json) [
          | inr other ↦
              rw (good, other)
                (failed (heard || false) content_type_invalid ignoring s (wider heard false s sound)
                  tt)
          | inl json ↦
              rw (good, json)
                (record {
                  reads = (or_own heard, λ e. (refl, omega arith));
                  answered = λ r e. let (own, from) = sound.answered r e in (or_own heard, from);
                })
        ]
      ]
    where
      or_own : (a : Bool) → (a || true) ≡ true
      or_own true = refl
      or_own false = refl

  event-IsSound :
      (heard : Bool) (e : Event) (phase : Phase) (settled : Option (Result Diagnostic Response))
      → IsSound heard (record { phase = phase; settled = settled })
      → IsSound
          (heard || is_readable e)
          (on_event parser e phase (record { phase = phase; settled = settled }))
  event-IsSound heard (responds status is_json) waiting settled sound =
      answered_readable heard status is_json settled sound
  event-IsSound heard (responds status is_json) ignoring settled sound = wider heard _ _ sound
  event-IsSound heard (responds status is_json) (reading size body) settled sound =
      wider heard _ _ sound
  event-IsSound heard (receives chunk) waiting settled sound = wider heard false _ sound
  event-IsSound heard (receives chunk) ignoring settled sound = wider heard false _ sound
  event-IsSound heard (receives chunk) (reading size body) settled sound =
      wider heard false _ (received heard chunk size body settled sound)
  event-IsSound heard ends waiting settled sound = wider heard false _ sound
  event-IsSound heard ends ignoring settled sound = wider heard false _ sound
  event-IsSound heard ends (reading size body) settled sound =
      wider heard false _ (ended heard size body settled sound)
  event-IsSound heard times_out phase settled sound = wider heard false _ (
      failed heard network_timeout phase _ sound
        (failed-Reads heard network_timeout phase settled sound.reads))
  event-IsSound heard (fails e) phase settled sound = wider heard false _ (
      failed heard (network_diagnostic e) phase _ sound
        (failed-Reads heard (network_diagnostic e) phase settled sound.reads))

  run-IsSound :
      (heard : Bool) (es : List Event) (s : Request)
      → IsSound heard s
      → IsSound (heard || any is_readable es) (request_site_proof parser s es)
  unfolding request_site_proof step
  run-IsSound heard [] s sound = wider heard false s sound
  run-IsSound heard (e ∷ es) s sound =
      let next = event-IsSound heard e s.phase s.settled sound in
      rw (or_assoc heard (is_readable e) (any is_readable es))
        (run-IsSound (heard || is_readable e) es (on_event parser e s.phase s) next)
    where
      or_assoc : (a b c : Bool) → (a || (b || c)) ≡ ((a || b) || c)
      or_assoc true b c = refl
      or_assoc false b c = refl

  -- The first outcome of a request is its only one: whatever happens later, the result stays.
  pub settled_once :
      (s : Request) (es : List Event) (r : Result Diagnostic Response)
      → s.settled ≡ some r
      → (request_site_proof parser s es).settled ≡ some r
  unfolding request_site_proof
  settled_once s [] r h = h
  settled_once s (e ∷ es) r h = settled_once (step parser s e) es r (step-settled s e r h)

  -- An answer is taken only from a response of status 200 that is JSON, and only from a body of at most
  -- 16 KiB, whatever else happens to the request and in whatever order.
  pub answer_bounded :
      (es : List Event) (r : Response)
      → (request_site_proof parser started es).settled ≡ some (ok r)
      → (any is_readable es ≡ true) × ReadFrom r
  answer_bounded es r e =
      (run-IsSound false es started (record { reads = tt; answered = λ r e. cc })).answered r e
