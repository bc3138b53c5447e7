-- ===== src/Realtime/Away.antt =====
-- An Individual attempt over a disconnect and a return, from the rows that the one writes to those that
-- the other reads.
use ambatucode.Common.{
  is_none, false, true, refl, ==_refl, ◌∙◌, is_some, ◌==◌, is_some, is_none, ==_refl, any,
  find_first, ℕ, ◌+◌, ◌-◌, ◌<◌, ◌≡◌, refl, ◌∙◌, Bool, true, false, ◌&&◌, some, List, [], ◌∷◌, arith,
}
use ambatucode.Common.Finding.{find-update}
use ambatucode.Domain.{is_in_progress}
use ambatucode.Clock.{
  AttemptClock, is_individual, is_attempt_overdue, pause_attempt_clock, resume_attempt_clock,
}
use ambatucode.Clock.Pause.{IsRunningTo, resume-pause, with_pause}
use ambatucode.Store.{Attempt, has_id, find_attempt, attempt_deadline, same_deadline, Alarm}
use ambatucode.Access.{AttemptScope}
use ambatucode.Attempts.Activity.{clock_for}
use ambatucode.Realtime.State.{Hub}
use ambatucode.Realtime.Clocks.{
  pause_if_individual, resume_if_paused, is_active_row, is_paused_row, paused_row, resumed_row,
  after_pause, after_resume, is_individual_timed,
}

-- The scope that is read after an attempt's row has been written.
abbrev pub with_attempt : AttemptScope → Attempt → AttemptScope
with_attempt row a = record row { attempt = a }

any-of_found :
    (p q : Attempt → Bool) (rows : List Attempt) {a : Attempt}
    → find_first q rows ≡ some a
    → p a ≡ true
    → any p rows ≡ true
any-of_found p q [] found h = absurd (cc)
any-of_found p q (x ∷ rows) {a} found h = ground (arith, any-of_found p q rows {a = a})

-- The alarms of one attempt.
abbrev pub rings_at : ℕ → ℕ → Alarm → Bool
rings_at i at a = same_deadline a.deadline (attempt_deadline i) && a.due_at == at

not_overdue :
    (c : AttemptClock) (m d at : ℕ)
    → IsRunningTo c m d at
    → at < d
    → is_attempt_overdue c at ≡ false
unfolding is_attempt_overdue
not_overdue c m d at h early = ground arith

timed :
    (c : AttemptClock) (m d at : ℕ)
    → IsRunningTo c m d at
    → (is_individual c.execution_mode && is_some c.duration_minutes) ≡ true
timed c m d at h = ground arith

pause-writes :
    (row : AttemptScope) (m d at : ℕ) (h : Hub)
    → let a = row.attempt in
      find_attempt a.id h.world ≡ some a
      → is_in_progress a.status ≡ true
      → IsRunningTo (clock_for a row.session) m d at
      → at < d
      → pause_if_individual row at h
        ≡ after_pause a (pause_attempt_clock (clock_for a row.session) at) at h
unfolding pause_if_individual
pause-writes row m d at h found active running early =
    let a = row.attempt in
    let c = clock_for a row.session in
    let clock = timed c m d at running in
    let on : is_some a.paused_at ≡ false = rw running.active refl in
    let this : is_active_row a.id a ≡ true = rw (==_refl a.id, active, running.active) refl in
    rw
      (
        active,
        clock,
        on,
        pause_if_individual,
        not_overdue c m d at running early,
        any-of_found (is_active_row a.id) (has_id a.id) h.world.attempts found this,
      )
      refl

resume-writes :
    (row : AttemptScope) (at later : ℕ) (h : Hub)
    → let a = row.attempt in
      find_attempt a.id h.world ≡ some a
      → is_in_progress a.status ≡ true
      → is_individual_timed row.session ≡ true
      → a.paused_at ≡ some at
      → resume_if_paused row later h
        ≡ after_resume a (resume_attempt_clock (clock_for a row.session) later) later h
unfolding resume_if_paused
resume-writes row at later h found active clock paused =
    let a = row.attempt in
    let off : is_none a.paused_at ≡ false = rw paused refl in
    let this : is_paused_row a.id a ≡ true = rw (==_refl a.id, active, paused) refl in
    rw
      (
        active,
        clock,
        off,
        resume_if_paused,
        any-of_found (is_paused_row a.id) (has_id a.id) h.world.attempts found this,
      )
      refl

-- A Coder whose Individual attempt is in progress and stored goes away before its deadline, and
-- comes back later: the row that the pause wrote runs again, towards a deadline that leaves the
-- time that was left when they went, and an alarm is set to it.
pub away_and_back :
    (row : AttemptScope) (m d at later : ℕ) (h : Hub)
    → let a = row.attempt in
      find_attempt a.id h.world ≡ some a
      → is_in_progress a.status ≡ true
      → IsRunningTo (clock_for a row.session) m d at
      → at < d
      → let gone = pause_if_individual row at h in
        let away = paused_row (pause_attempt_clock (clock_for a row.session) at) a in
        let back = resume_if_paused (with_attempt row away) later gone in
        (find_attempt a.id gone.world ≡ some away)
        × (find_attempt a.id back.world ≡ some (resumed_row (later + (d - at)) away))
        × (any (rings_at a.id (later + (d - at))) back.world.alarms ≡ true)
unfolding with_pause pause_attempt_clock
away_and_back row m d at later h found active running early =
    let a = row.attempt in
    let c = clock_for a row.session in
    let p = pause_attempt_clock c at in
    let away = paused_row p a in
    let gone = after_pause a p at h in
    let left : pause_if_individual row at h ≡ gone =
      pause-writes row m d at h found active running early in
    let this : is_active_row a.id a ≡ true = rw (==_refl a.id, active, running.active) refl in
    let stored : find_attempt a.id gone.world ≡ some away =
      find-update (has_id a.id) (is_active_row a.id) (paused_row p) h.world.attempts {a = a}
        (λ x. refl) found
      ∙ rw this refl in
    let end : resume_attempt_clock (clock_for away row.session) later ≡ later + (d - at) =
      resume-pause c m d at later running (omega arith) in
    let returned : resume_if_paused (with_attempt row away) later gone
        ≡ after_resume away (later + (d - at)) later gone =
      resume-writes (with_attempt row away) at later gone stored active (timed c m d at running)
        refl
      ∙ rw end refl in
    let that : is_paused_row a.id away ≡ true = rw (==_refl a.id, active) refl in
    rw (left, returned)
      (
        stored,
        find-update (has_id a.id) (is_paused_row a.id) (resumed_row (later + (d - at)))
              gone.world.attempts {a = away} (λ x. refl) stored
            ∙ rw that refl,
        rw (==_refl a.id, ==_refl (later + (d - at))) refl,
      )
