-- ===== src/Readiness/Entries.antt =====
-- Who is on the roster, and that nobody is on it twice.
use ambatucode.Common.{
  ◌==◌, if◌then◌else◌, Bool-cases, any, count_where, update_where, ℕ, ◌+◌, ◌≤◌, ◌≡◌, refl, inl, inr,
  Bool, true, false, ◌&&◌, ◌||◌, List, [], ◌∷◌, ◌++◌, arith,
}
use ambatucode.Common.Counting.{count-update_same, count-eq_zero, any-eq_false, All-of}
use ambatucode.Store.{World, Session, Participant, Enrollment}
use ambatucode.Readiness.{
  RosterSource, RosterEntry, is_entry_of, put_entry, put_participants, expect_entry,
  expect_enrolled, entry_of, roster_entries, unseen_entry, participants_of, enrolled_in,
  is_from_module,
}

abbrev pub expects : ℕ → RosterEntry → Bool
expects u e = is_entry_of u e && e.on_roster

expect-expects :
    (u v : ℕ) (entries : List RosterEntry)
    → any (expects u) (expect_entry v entries) ≡ (any (expects u) entries || v == u)
expect-expects u v entries = elim (Bool-cases (any (is_entry_of v) entries)) [
  | inl present ↦ rw present (ground (arith, updated entries))
  | inr absent ↦ rw absent (ground (arith, added (unseen_entry v) entries))
]
  where
    updated :
        (xs : List RosterEntry)
        → any (expects u) (update_where (is_entry_of v) (λ e. record e { on_roster = true }) xs)
          ≡ (any (expects u) xs || (any (is_entry_of v) xs && v == u))
    updated [] = refl
    updated (x ∷ xs) = ground (arith, updated xs)

    added :
        (new : RosterEntry) (xs : List RosterEntry)
        → any (expects u) (xs ++ (new ∷ [])) ≡ (any (expects u) xs || expects u new)
    added new [] = ground arith
    added new (x ∷ xs) = ground (arith, added new xs)

-- After the enrolled Coders have been loaded onto a roster, a Coder is expected on it exactly if
-- they were expected before or are one of the enrolled.
pub enrolled_are_expected :
    (u : ℕ) (es : List Enrollment) (entries : List RosterEntry)
    → any (expects u) (expect_enrolled es entries)
      ≡ (any (expects u) entries || any (λ e. e.user_id == u) es)
enrolled_are_expected u [] entries = ground arith
enrolled_are_expected u (e ∷ es) entries = ground (
  arith,
  enrolled_are_expected u es (expect_entry e.user_id entries),
  expect-expects u e.user_id entries,
)

append_unique :
    (u : ℕ) (e : RosterEntry) (entries : List RosterEntry)
    → any (is_entry_of e.user_id) entries ≡ false
    → count_where (is_entry_of u) entries ≤ 1
    → count_where (is_entry_of u) (entries ++ (e ∷ [])) ≤ 1
append_unique u e entries absent h = elim (Bool-cases (e.user_id == u)) [
  | inl same ↦
      let eq : e.user_id ≡ u = ground arith in
      let zero_there : count_where (is_entry_of u) entries ≡ 0 =
        rw (← eq) (count-eq_zero _ entries (any-eq_false _ entries absent)) in
      ground (arith, appended entries, zero_there)
  | inr other ↦ ground (arith, appended entries)
]
  where
    appended :
        (xs : List RosterEntry)
        → count_where (is_entry_of u) (xs ++ (e ∷ []))
          ≡ count_where (is_entry_of u) xs + (if e.user_id == u then 1 else 0)
    appended [] = omega arith
    appended (x ∷ xs) = omega (arith, appended xs)

put_unique :
    (u : ℕ) (e : RosterEntry) (entries : List RosterEntry)
    → count_where (is_entry_of u) entries ≤ 1
    → count_where (is_entry_of u) (put_entry e entries) ≤ 1
put_unique u e entries h = elim (Bool-cases (any (is_entry_of e.user_id) entries)) [
  | inl present ↦
      rw
        (
          present,
          count-update_same (is_entry_of u) (is_entry_of e.user_id) (λ _. e) entries
              (All-of entries (λ x same. ground arith)),
        )
        h
  | inr absent ↦ rw absent (append_unique u e entries absent h)
]

expect_unique :
    (u v : ℕ) (entries : List RosterEntry)
    → count_where (is_entry_of u) entries ≤ 1
    → count_where (is_entry_of u) (expect_entry v entries) ≤ 1
expect_unique u v entries h = elim (Bool-cases (any (is_entry_of v) entries)) [
  | inl present ↦
      rw
        (
          present,
          count-update_same (is_entry_of u) (is_entry_of v) (λ e. record e { on_roster = true })
              entries (All-of entries (λ x same. refl)),
        )
        h
  | inr absent ↦ rw absent (append_unique u (unseen_entry v) entries absent h)
]

put_all_unique :
    (u : ℕ) (source : RosterSource) (ps : List Participant) (entries : List RosterEntry)
    → count_where (is_entry_of u) entries ≤ 1
    → count_where (is_entry_of u) (put_participants source ps entries) ≤ 1
put_all_unique u source [] entries h = h
put_all_unique u source (p ∷ ps) entries h =
    put_all_unique u source ps _ (put_unique u (entry_of source p) entries h)

expect_all_unique :
    (u : ℕ) (es : List Enrollment) (entries : List RosterEntry)
    → count_where (is_entry_of u) entries ≤ 1
    → count_where (is_entry_of u) (expect_enrolled es entries) ≤ 1
expect_all_unique u [] entries h = h
expect_all_unique u (e ∷ es) entries h =
    expect_all_unique u es _ (expect_unique u e.user_id entries h)

-- Nobody stands twice on a roster, whatever the rows that it is loaded from.
pub nobody_twice :
    (u : ℕ) (source : RosterSource) (s : Session) (w : World)
    → count_where (is_entry_of u) (roster_entries source s w) ≤ 1
nobody_twice u source s w = elim (Bool-cases (is_from_module source)) [
  | inl wide ↦ rw wide (expect_all_unique u (enrolled_in s w) _ base)
  | inr other ↦ rw other base
]
  where
    base : count_where (is_entry_of u) (put_participants source (participants_of s.id w) []) ≤ 1
    base = put_all_unique u source (participants_of s.id w) [] (omega arith)
