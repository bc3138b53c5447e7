-- ===== src/Sessions/Tests.antt =====
-- Sessions on concrete worlds.
use ambatucode.Common.{
  any, true, ◌&&◌, ◌==◌, not, ◌||◌, map, All, ℕ, ◌<◌, ◌≡◌, refl, Bool, false, none, some, [], Error,
  ok, err,
}
use ambatucode.Domain.{SessionStatus, is_editable, is_in_progress}
use ambatucode.Store.{is_sibling, Assessment, World, ExecutionJob, Session, find_session}
use ambatucode.Clock.{is_live}
use ambatucode.Access.{scope_for_session, assert_not_root, require_module_owner}
use ambatucode.Readiness.{
  Readiness, readiness_for, roster_source, load_session_roster, presence_of, count_readiness,
  everyone_ready,
}
use ambatucode.Sessions.Participants.{ensure_open_access_session}
use ambatucode.Sessions.Open.{ensure_idempotent}
use ambatucode.Sessions.Setup.{owned_session, assert_can_write}
use ambatucode.Sessions.Lifecycle.{
  started, start_session, session_start_checks, session_start_commit, close_session, is_missing,
  session_end,
}
use ambatucode.Sessions.Recorded.{close_session-records}
use ambatucode.Sessions.Ended.{close_session-settles}
use ambatucode.Sessions.Order.{started_ready, starts_once}
use ambatucode.Sample.{owner, busy, busy-Valid, sample_world}

abbrev takes : ExecutionJob → Bool
takes _ = true

abbrev everybody : ℕ → Bool
everybody u = true

-- The lobby is open, and the one Coder of the list is there and ready.
abbrev lobby : World
lobby = sample_world SessionStatus.ready []

start_runs : (start_session everybody owner 5 false 9000 lobby).0 ≡ ok started
unfolding start_session session_start_checks owned_session scope_for_session assert_can_write
    assert_not_root require_module_owner readiness_for roster_source load_session_roster presence_of
    count_readiness everyone_ready is_missing session_end session_start_commit
start_runs = refl

commit_runs : (session_start_commit 2 5 9000 none false lobby).0 ≡ ok started
unfolding session_start_commit
commit_runs = refl

close_session-settles_example :
    All
      (λ a. (a.session_id == 5) ≡ true → is_in_progress a.status ≡ false)
      (close_session takes 5 (some 2) 9000 busy).1.attempts
close_session-settles_example = close_session-settles takes 5 (some 2) 9000 busy busy-Valid refl

started_ready_example :
    (s : Session) × (r : Readiness) × (find_session 5 lobby ≡ some s)
    × (is_editable s.status ≡ true)
    × (readiness_for everybody 5 lobby ≡ ok r)
    × (0 < r.counts.total)
    × (((is_live s.execution_mode || s.require_all_ready) && not (everyone_ready r.counts)) ≡ false)
started_ready_example = started_ready everybody owner 5 9000 lobby start_runs

starts_once_example :
    session_start_commit 3 5 9001 none true (session_start_commit 2 5 9000 none false lobby).1
    ≡ (err Error.conflict, (session_start_commit 2 5 9000 none false lobby).1)
starts_once_example = starts_once 2 3 5 9000 9001 none none false true lobby commit_runs

-- An Assessment that is open to everyone enrolled.
abbrev open_world : World
open_world = record lobby {
  assessments = map {A = Assessment} (λ a. record a { is_open_access = true }) lobby.assessments;
}

open_runs : (ensure_open_access_session 4 100 open_world).0 ≡ ok 10
unfolding ensure_open_access_session
open_runs = refl

ensure_idempotent_example :
    ensure_open_access_session 4 200 (ensure_open_access_session 4 100 open_world).1
    ≡ ensure_open_access_session 4 100 open_world
ensure_idempotent_example = ensure_idempotent 4 100 200 open_world open_runs

-- A listed Coder who never started.
abbrev unattended : World
unattended = sample_world SessionStatus.running []

close_session-records_example :
    All
      (λ p.
        (p.session_id == 5 && p.is_listed) ≡ true
        → any (is_sibling 5 p.user_id) (close_session takes 5 none 9000 unattended).1.attempts
          ≡ true)
      (close_session takes 5 none 9000 unattended).1.participants
close_session-records_example = close_session-records takes 5 none 9000 unattended refl
