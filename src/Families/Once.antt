-- ===== src/Families/Once.antt =====
-- `rotate_refresh_family`: a generation of a family is used once.
use wp_auto.Base.{
  ℕ, ◌-◌, ◌≤◌, String, ◌≡◌, refl, ap, ◌∙◌, ◌≢◌, inl, inr, Bool, true, false, not, ◌&&◌, ◌||◌,
  Option, none, some, List, [], ◌∷◌, arith, ltb, leb, Bool-cases, Option-cases, ◌==◌, ==_iff,
  nat_eq, text_eq, bytes_eq, count, any, Result, ok, err, guard-ok, Result-cases, ok_pair,
  ok_injective,
}
use wp_auto.Base.{update_where, count_mono, count-append, count-update_where}
use wp_auto.Base.Rows.{first, first_holds, first_counts, count-update_within}
use wp_auto.Base.Options.{some_injective}
use wp_auto.Base.Members.{any-count}
use wp_auto.Families.{
  Family, Store, Error, Rotation, rotated, replay, denied, NewFamily, in_family, is_active, new_row,
  create, is_live, used, replayed, site_of, end_family, rotate_found, rotate, invalid_lifetime,
  storage, site_missing, ninety_days,
}

pub data Call : Type 0 where
  creates : NewFamily → Call
  rotates : String → ℕ → ℕ → Call

abbrev pub stored : Store → Result Error Store → Store
stored s (err e) = s
stored s (ok s') = s'

abbrev pub after : Store → Result Error (Rotation × Store) → Store
after s (err e) = s
after s (ok (x, s')) = s'

abbrev pub step : Call → Store → Store
step (creates n) s = stored s (create n s)
step (rotates id expected now) s = after s (rotate id expected now s)

abbrev pub run : List Call → Store → Store
run [] s = s
run (c ∷ cs) s = run cs (step c s)

-- A row of the family that a generation up to `g` may still use.
abbrev is_open_at : String → ℕ → Family → Bool
is_open_at id g f = in_family id f && (is_active f.status && leb f.current_generation g)

-- The family is in the table, and its generations up to `g` are spent.
abbrev IsSpent : String → ℕ → List Family → Type 0
IsSpent id g fs = (1 ≤ count (in_family id) fs) × (count (is_open_at id g) fs ≡ 0)

update-IsSpent :
    (id : String) (g : ℕ) (p : Family → Bool) (change : Family → Family) (fs : List Family)
    → ((f : Family) → in_family id (change f) ≡ in_family id f)
    → ((f : Family) → p f ≡ true → is_open_at id g (change f) ≡ true → is_open_at id g f ≡ true)
    → IsSpent id g fs
    → IsSpent id g (update_where p change fs)
update-IsSpent id g p change fs same less (there, spent) = (
  omega (arith, there, count-update_where p (in_family id) change fs same),
  omega (arith, spent, count-update_within p (is_open_at id g) change fs less),
)

create-IsSpent :
    (id : String) (g : ℕ) (n : NewFamily) (s s' : Store)
    → create n s ≡ ok s'
    → IsSpent id g s.families
    → IsSpent id g s'.families
unfolding create
create-IsSpent id g n s s' e (there, spent) =
    let (_, e₁) =
      guard-ok
        (not (
          ltb ninety_days (n.absolute_expires_at - n.issued_at)
          || leb n.absolute_expires_at n.issued_at))
        invalid_lifetime _ e in
    let (free, e₂) = guard-ok (not (any (in_family n.family_id) s.families)) storage _ e₁ in
    let other : (n.family_id == id) ≡ false = absent_other free in
    let one : count (in_family id) (new_row n ∷ []) ≡ 0 = ground arith in
    let two : count (is_open_at id g) (new_row n ∷ []) ≡ 0 = ground arith in
    rw (← ok_injective e₂) (
      omega (arith, there, count-append (in_family id) s.families (new_row n ∷ [])),
      omega (arith, spent, two, count-append (is_open_at id g) s.families (new_row n ∷ [])),
    )
  where
    absent_other : not (any (in_family n.family_id) s.families) ≡ true → (n.family_id == id) ≡ false
    absent_other free = elim (Bool-cases (n.family_id == id)) [
      | inr e ↦ e
      | inl e ↦
          let absent : not (any (in_family id) s.families) ≡ true =
            rw ((==_iff n.family_id id).0 e) at free in
          absurd (ground (arith, absent, there, any-count (in_family id) s.families))
    ]

end-IsSpent :
    (id id' : String) (g now : ℕ) (f : Family) (s : Store)
    → IsSpent id g s.families
    → IsSpent id g (after s (end_family id' now f s)).families
end-IsSpent id id' g now f s spent = elim (Option-cases (site_of f s)) [
  | inl missing ↦ rw missing spent
  | inr (site, found) ↦ rw found (
      update-IsSpent id g (in_family id') (replayed now) s.families (λ f. refl)
        (λ f h o. ground arith) spent)
]

rotate-IsSpent :
    (id id' : String) (g expected now : ℕ) (s : Store) (found : Option Family)
    → IsSpent id g s.families
    → IsSpent id g (after s (rotate_found id' expected now s found)).families
rotate-IsSpent id id' g expected now s none spent = spent
rotate-IsSpent id id' g expected now s (some f) spent = elim (Bool-cases (is_live now f)) [
  | inr ended ↦ rw ended spent
  | inl live ↦ elim (Bool-cases (f.current_generation == expected)) [
    | inl current ↦
        rw (live, current)
          (update-IsSpent id g (in_family id') (used now) s.families (λ f. refl)
            (λ f h o. ground arith) spent)
    | inr other ↦ elim (Bool-cases (ltb expected f.current_generation)) [
      | inl older ↦ rw (live, other, older) (end-IsSpent id id' g now f s spent)
      | inr newer ↦ rw (live, other, newer) spent
    ]
  ]
]

step-IsSpent :
    (id : String) (g : ℕ) (c : Call) (s : Store)
    → IsSpent id g s.families
    → IsSpent id g (step c s).families
unfolding rotate
step-IsSpent id g (creates n) s spent = elim (Result-cases (create n s)) [
  | inr (x, failure) ↦ rw failure spent
  | inl (s', done) ↦ rw done (create-IsSpent id g n s s' done spent)
]
step-IsSpent id g (rotates id' expected now) s spent =
    rotate-IsSpent id id' g expected now s (first (in_family id') s.families) spent

run-IsSpent :
    (id : String) (g : ℕ) (cs : List Call) (s : Store)
    → IsSpent id g s.families
    → IsSpent id g (run cs s).families
run-IsSpent id g [] s spent = spent
run-IsSpent id g (c ∷ cs) s spent = run-IsSpent id g cs (step c s) (step-IsSpent id g c s spent)

-- A family that is rotated is live, and at the generation that was expected.
rotate_found-ok :
    (id : String) (expected now : ℕ) (s s' : Store) (found : Option Family)
    → rotate_found id expected now s found ≡ ok (rotated, s')
    → (f : Family) × (found ≡ some f)
      × (is_live now f ≡ true)
      × (f.current_generation ≡ expected)
      × (s'.families ≡ update_where (in_family id) (used now) s.families)
rotate_found-ok id expected now s s' none e = absurd (denied_ne e)
  where
    denied_ne : ¬ (Path (Result Error (Rotation × Store)) (ok (denied, s)) (ok (rotated, s')))
    denied_ne e = cc
rotate_found-ok id expected now s s' (some f) e = elim (Bool-cases (is_live now f)) [
  | inr ended ↦ absurd (denied_ne (rw ended at e))
  | inl live ↦ elim (Bool-cases (f.current_generation == expected)) [
    | inl current ↦
        let (_, same) = ok_pair (rw (live, current) at e) in
        (f, refl, live, (==_iff f.current_generation expected).0 current, ap (λ z. z.families) same)
    | inr other ↦ elim (Bool-cases (ltb expected f.current_generation)) [
      | inr newer ↦ absurd (denied_ne (rw (live, other, newer) at e))
      | inl older ↦
          let e' : end_family id now f s ≡ ok (rotated, s') = rw (live, other, older) at e in
          elim (Option-cases (site_of f s)) [
            | inl missing ↦ absurd (err_ne (rw missing at e'))
            | inr (site, there) ↦ absurd (replay_ne (rw there at e'))
          ]
    ]
  ]
]
  where
    denied_ne : ¬ (Path (Result Error (Rotation × Store)) (ok (denied, s)) (ok (rotated, s')))
    denied_ne e = cc

    err_ne : ¬ (Path (Result Error (Rotation × Store)) (err site_missing) (ok (rotated, s')))
    err_ne e = cc

    replay_ne :
        {z : Store} → ¬ (Path (Result Error (Rotation × Store)) (ok (replay, z)) (ok (rotated, s')))
    replay_ne e = cc

-- The generation that is used up is spent.
used_spent :
    (id : String) (g now : ℕ) (fs : List Family) (f : Family)
    → count (in_family id) fs ≤ 1
    → first (in_family id) fs ≡ some f
    → f.current_generation ≡ g
    → count (is_open_at id g) (update_where (in_family id) (used now) fs) ≡ 0
unfolding update_where
used_spent id g now [] f single e current = refl
used_spent id g now (x ∷ fs) f single e current = elim (Bool-cases (in_family id x)) [
  | inr other ↦ ground (arith, used_spent id g now fs f (ground arith) (rw other at e) current)
  | inl mine ↦
      let same : x ≡ f = some_injective (rw mine at e) in
      let at_g : x.current_generation ≡ g = ap (λ y. y.current_generation) same ∙ current in
      let kept = count-update_where (in_family id) (in_family id) (used now) fs λ f. refl in
      let fewer =
        count_mono (is_open_at id g) (in_family id) (update_where (in_family id) (used now) fs)
          λ f h. ground arith in
      ground (arith, kept, fewer, at_g)
]

spent_unrotated :
    (id : String) (g earlier later : ℕ) (s z : Store)
    → IsSpent id g s.families
    → earlier ≤ g
    → rotate id earlier later s ≢ ok (rotated, z)
unfolding rotate
spent_unrotated id g earlier later s z (_, spent) before again =
    let (f, found, live, current, _) =
      rotate_found-ok id earlier later s z (first (in_family id) s.families) again in
    let mine = first_holds (in_family id) s.families found in
    let open_still : is_open_at id g f ≡ true = ground (arith, mine, live, current) in
    let counted = first_counts (in_family id) (is_open_at id g) s.families f found open_still in
    omega (arith, counted, spent)

-- Once a generation of a family is rotated, whatever calls follow, no rotation of the family from that
-- generation or an earlier one succeeds.
pub rotated_once :
    (id : String) (g earlier now later : ℕ) (cs : List Call) (s s' z : Store)
    → count (in_family id) s.families ≤ 1
    → rotate id g now s ≡ ok (rotated, s')
    → earlier ≤ g
    → rotate id earlier later (run cs s') ≢ ok (rotated, z)
unfolding rotate
rotated_once id g earlier now later cs s s' z single e before again =
    let (f, found, live, current, stores) =
      rotate_found-ok id g now s s' (first (in_family id) s.families) e in
    let mine = first_holds (in_family id) s.families found in
    let there = first_counts (in_family id) (in_family id) s.families f found mine in
    let kept = count-update_where (in_family id) (in_family id) (used now) s.families λ f. refl in
    let spent = used_spent id g now s.families f single found current in
    let start : IsSpent id g s'.families = rw stores (omega (arith, there, kept), spent) in
    spent_unrotated id g earlier later (run cs s') z (run-IsSpent id g cs s' start) before again
