-- ===== src/ConsoleAuth/Revoked.antt =====
-- `PostgresConsoleAuthStore`: a session that is revoked stays revoked.
use wp_auto.Base.{
  ℕ, ◌≤◌, String, ◌≡◌, refl, inl, inr, Bool, true, false, ◌&&◌, none, some, List, [], ◌∷◌, ◌++◌,
  arith, Bool-cases, Option-cases, ◌==◌, ==_iff, nat_eq, text_eq, bytes_eq, Bytes, count, any, ok,
}
use wp_auto.Base.{update_where, count-append, count-update_where, count-update_le, count_mono}
use wp_auto.Base.Rows.{first, first-none}
use wp_auto.Base.Members.{any-count}
use wp_auto.ConsoleAuth.{
  Session, Store, Directory, is_none, has_hash, has_authority, revoked, still_revoked, live_session,
  begin_logout, revoke_session, resolve_session, console_session,
}
use wp_auto.ConsoleAuth.Exchange.{exchange_checks}
use wp_auto.ConsoleAuth.Events.{
  Event, creates, authorizes, exchanges, logs_out, confirms, revokes, step, run, after_keeps,
  create_login-ok, authorize_login-ok, begin_logout-ok, validate_logout-ok,
}

abbrev usable : Bytes → Session → Bool
usable h r = has_hash h r && is_none r.revoked_at

-- The session is in the table, and no row of it can be used.
abbrev IsGone : Bytes → List Session → Type 0
IsGone h rows = (1 ≤ count (has_hash h) rows) × (count (usable h) rows ≡ 0)

update-IsGone :
    (h : Bytes) (p : Session → Bool) (f : Session → Session) (rows : List Session)
    → ((r : Session) → has_hash h (f r) ≡ has_hash h r)
    → ((r : Session) → usable h (f r) ≡ true → usable h r ≡ true)
    → IsGone h rows
    → IsGone h (update_where p f rows)
update-IsGone h p f rows same less (there, unusable) = (
  omega (arith, there, count-update_where p (has_hash h) f rows same),
  omega (arith, unusable, count-update_le p (usable h) f rows less),
)

append-IsGone :
    (h : Bytes) (r : Session) (rows : List Session)
    → any (has_hash r.session_hash) rows ≡ false
    → IsGone h rows
    → IsGone h (rows ++ r ∷ [])
append-IsGone h r rows fresh (there, unusable) = elim (Bool-cases (r.session_hash == h)) [
  | inl e ↦
      let same : r.session_hash ≡ h = (==_iff r.session_hash h).0 e in
      let absent = rw same at fresh in absurd (ground (arith, any-count (has_hash h) rows))
  | inr e ↦
      let one : count (usable h) (r ∷ []) ≡ 0 = ground arith in
      (
        omega (arith, there, count-append (has_hash h) rows (r ∷ [])),
        omega (arith, unusable, one, count-append (usable h) rows (r ∷ [])),
      )
]

still_revoked_unusable :
    (h : Bytes) (now : ℕ) (r : Session) → usable h (still_revoked now r) ≡ true → usable h r ≡ true
still_revoked_unusable h now r e = elim (Option-cases r.revoked_at) [
  | inl none_yet ↦ ground arith
  | inr (t, when) ↦ ground arith
]

still-IsGone :
    (h h' : Bytes) (now : ℕ) (rows : List Session)
    → IsGone h rows
    → IsGone h (update_where (has_hash h') (still_revoked now) rows)
still-IsGone h h' now rows =
    update-IsGone h (has_hash h') (still_revoked now) rows (λ r. refl)
      (still_revoked_unusable h now)

module _ (sha256 : String → Bytes) where
  step-IsGone :
      (h : Bytes) (e : Event) (s : Store)
      → IsGone h s.sessions
      → IsGone h (step sha256 e s).sessions
  unfolding revoke_session
  step-IsGone h (creates path id secret now) s gone =
      after_keeps (λ z. IsGone h z.sessions) s _ gone
        λ x s' e.
          let (_, _, same) = create_login-ok sha256 path id secret now s s' x e in rw same gone
  step-IsGone h (authorizes id auth account expiry code now) s gone =
      after_keeps (λ z. IsGone h z.sessions) s _ gone
        λ x s' e.
          let (_, _, _, _, _, same) =
            authorize_login-ok sha256 id auth account expiry code now s s' x e in
          rw same gone
  step-IsGone h (exchanges dir id secret code token now) s gone =
      after_keeps (λ z. IsGone h z.sessions) s _ gone
        λ x s' e.
          let done = exchange_checks sha256 dir id secret code token now s s' x e in
          let row = console_session sha256 done.held done.session now (sha256 token) in
          rw (done.stores) (append-IsGone h row s.sessions done.fresh gone)
  step-IsGone h (logs_out hash path id noise now) s gone =
      after_keeps (λ z. IsGone h z.sessions) s _ gone
        λ x s' e.
          let (_, _, _, same) = begin_logout-ok hash path id noise now s s' x e in
          rw same (
            update-IsGone h (has_hash hash) (revoked now) s.sessions (λ r. refl)
              (λ r u. ground arith) gone)
  step-IsGone h (confirms id auth consume now) s gone =
      after_keeps (λ z. IsGone h z.sessions) s _ gone
        λ x s' e. let (_, same) = validate_logout-ok id auth consume now s s' x e in rw same gone
  step-IsGone h (revokes hash now) s gone = still-IsGone h hash now s.sessions gone

  run-IsGone :
      (h : Bytes) (es : List Event) (s : Store)
      → IsGone h s.sessions
      → IsGone h (run sha256 es s).sessions
  run-IsGone h [] s gone = gone
  run-IsGone h (e ∷ es) s gone = run-IsGone h es (step sha256 e s) (step-IsGone h e s gone)

  gone_unresolved :
      (dir : Directory) (h : Bytes) (now : ℕ) (s : Store)
      → IsGone h s.sessions
      → resolve_session dir h now s ≡ none
  unfolding resolve_session
  gone_unresolved dir h now s (_, unusable) =
      let fewer =
        count_mono (λ r. live_session h now r && has_authority dir now r) (usable h) s.sessions
          λ r l. ground arith in
      rw
        (first-none (λ r. live_session h now r && has_authority dir now r) s.sessions
          (omega (arith, fewer, unusable)))
        refl

  revoke-IsGone :
      (h : Bytes) (now : ℕ) (rows : List Session)
      → count (usable h) (update_where (has_hash h) (still_revoked now) rows) ≡ 0
  unfolding update_where
  revoke-IsGone h now [] = refl
  revoke-IsGone h now (r ∷ rs) = elim (Option-cases r.revoked_at) [
    | inl none_yet ↦ ground (arith, revoke-IsGone h now rs)
    | inr (t, when) ↦ ground (arith, revoke-IsGone h now rs)
  ]

  -- A session of the table that is revoked is resolved to nobody from then on, whatever calls follow and
  -- whatever the accounts and the authentication sessions are.
  pub revoked_forever :
      (h : Bytes) (now : ℕ) (s : Store) (es : List Event) (dir : Directory) (later : ℕ)
      → any (has_hash h) s.sessions ≡ true
      → resolve_session dir h later (run sha256 es (revoke_session h now s)) ≡ none
  unfolding revoke_session
  revoked_forever h now s es dir later there =
      let known : 1 ≤ count (has_hash h) s.sessions =
        ground (arith, any-count (has_hash h) s.sessions) in
      let kept =
        count-update_where (has_hash h) (has_hash h) (still_revoked now) s.sessions λ r. refl in
      gone_unresolved dir h later (run sha256 es (revoke_session h now s)) (
        run-IsGone h es (revoke_session h now s)
          (omega (arith, known, kept), revoke-IsGone h now s.sessions))

  logout-IsGone :
      (h : Bytes) (now : ℕ) (rows : List Session)
      → count (usable h) (update_where (has_hash h) (revoked now) rows) ≡ 0
  unfolding update_where
  logout-IsGone h now [] = refl
  logout-IsGone h now (r ∷ rs) = ground (arith, logout-IsGone h now rs)

  first-some-count :
      (p q : Session → Bool) (rows : List Session) (r : Session)
      → first p rows ≡ some r
      → ((x : Session) → p x ≡ true → q x ≡ true)
      → 1 ≤ count q rows
  first-some-count p q [] r e within = cc
  first-some-count p q (x ∷ xs) r e within = ground (arith, first-some-count p q xs r, within x)

  -- A logout that succeeds ends the session for good: it is resolved to nobody from then on, whatever calls
  -- follow and whatever the accounts and the authentication sessions are.
  pub logout_forever :
      (h : Bytes) (path id : String) (noise : Bytes) (now : ℕ) (s s' : Store) (answer : String)
      (es : List Event) (dir : Directory) (later : ℕ)
      → begin_logout h path id noise now s ≡ ok (answer, s')
      → resolve_session dir h later (run sha256 es s') ≡ none
  logout_forever h path id noise now s s' answer es dir later e =
      let (row, found, _, table) = begin_logout-ok h path id noise now s s' answer e in
      let known =
        first-some-count (live_session h now) (has_hash h) s.sessions row found
          λ x l. ground arith in
      let kept = count-update_where (has_hash h) (has_hash h) (revoked now) s.sessions λ r. refl in
      let gone : IsGone h s'.sessions =
        rw table (omega (arith, known, kept), logout-IsGone h now s.sessions) in
      gone_unresolved dir h later (run sha256 es s') (run-IsGone h es s' gone)
