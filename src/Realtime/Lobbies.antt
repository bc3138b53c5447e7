-- ===== src/Realtime/Lobbies.antt =====
-- Waiting in the lobby of a session: isOnRoster and handleReady of apps/realtime/src/assessment.ts, in
-- the parts between its waits on the database.
use ambatucode.Common.{
  ◌==◌, if◌then◌else◌, is_none, any, update_where, ℕ, Bool, false, ◌&&◌, Option, none, some, [],
  ◌∷◌, ◌++◌, Error, Result, ok, err,
}
use ambatucode.Domain.{ReadyState, ConnectionState, SessionStatus, is_coder, is_approved}
use ambatucode.Store.{
  World, Participant, Session, Assessment, is_participant, find_session, find_assessment,
  is_enrollment,
}
use ambatucode.Access.{is_module_wide, is_listed_participant}
use ambatucode.Realtime.State.{
  Hub, Socket, Lobby, session_room, lobby_page, monitor_participant, session_state, put, emit,
  in_world, open_visit, visit_is_open, lobbies_of, cancel_lobby_settle,
}
use ambatucode.Realtime.Departures.{schedule_lobby_settle}
use ambatucode.Realtime.Joining.{Progress, answered, waits, ensure_participant, enter}

-- Whether the session status_if_expected this Coder.
unfoldable pub is_on_roster : Session → Assessment → ℕ → World → Bool
is_on_roster s a user w =
    if s.is_open_access
    then false
    else (if is_module_wide s.access
        then any (λ e. is_enrollment a.module_id user e && is_approved e.status) w.enrollments
        else is_listed_participant s.id user w.participants)

abbrev status_if_expected : ℕ → ℕ → World → Option SessionStatus
status_if_expected session user w = elim (find_session session w) [
  | none ↦ none
  | some s ↦ elim (find_assessment s.assessment_id w) [
    | none ↦ none
    | some a ↦ if is_on_roster s a user w then some s.status else none
  ]
]

abbrev check_lobby : Option SessionStatus → Result (Unit {0})
check_lobby none = err Error.forbidden
check_lobby (some SessionStatus.draft) = err Error.conflict
check_lobby (some SessionStatus.ready) = ok tt
check_lobby (some _) = err Error.session_not_running

-- The number of the page's opening, where the lobby takes this Coder.
unfoldable pub ready_begin : Socket → ℕ → Hub → Progress ℕ × Hub
unfolding open_visit is_on_roster
ready_begin s session h =
    if is_coder s.actor.role
    then (let (opening, visits) = open_visit s.id (lobby_page session) h.visits in
        elim (check_lobby (status_if_expected session s.actor.id h.world)) [
          | err e ↦ (answered (err e), record h { visits = visits })
          | ok _ ↦ (waits opening, record h { visits = visits })
        ])
    else (answered (err Error.forbidden), h)

abbrev pub sit_down : ℕ → Bool → ℕ → Participant → Participant
sit_down socket ready now p = record p {
  ready_state = if ready then ReadyState.ready else ReadyState.not_ready;
  connection_state = ConnectionState.online;
  active_connection = some socket;
  last_seen_at = some now;
}

abbrev lobby_of : ℕ → ℕ → Lobby
lobby_of session user = record { session_id = session; user_id = user; attempt_id = none }

abbrev is_open_lobby : Socket → ℕ → ℕ → Hub → Bool
is_open_lobby s session opening h = visit_is_open s.id (lobby_page session) opening h.visits

-- The row is claimed, unless the lobby was closed again.
unfoldable pub ready_claim : Socket → ℕ → Bool → ℕ → ℕ → Hub → Progress ℕ × Hub
unfolding visit_is_open cancel_lobby_settle
ready_claim s session ready opening now h =
    if is_open_lobby s session opening h
    then (
      waits opening,
      in_world
          (λ w. record w {
            participants =
                update_where (is_participant session s.actor.id) (sit_down s.id ready now)
                  (ensure_participant session s.actor.id w.participants);
          })
          (cancel_lobby_settle session s.actor.id h),
    )
    else (answered (ok tt), h)

abbrev join_lobby : Socket → ℕ → Hub → Hub
join_lobby s session h =
    let joined = lobbies_of s.id h in
    if any (λ l. l.session_id == session && is_none l.attempt_id) joined
    then h
    else record h { lobbies = put s.id (joined ++ (lobby_of session s.actor.id ∷ [])) h.lobbies }

unfoldable pub ready_finish : Socket → ℕ → ℕ → Hub → Result (Unit {0}) × Hub
unfolding visit_is_open schedule_lobby_settle
ready_finish s session opening h =
    if is_open_lobby s session opening h
    then (
      ok tt,
      emit (session_state session) (
          emit (monitor_participant session s.actor.id)
            (enter s.id (session_room session) (join_lobby s session h))),
    )
    else (ok tt, schedule_lobby_settle s.id (lobby_of session s.actor.id) h)
