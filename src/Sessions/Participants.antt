-- ===== src/Sessions/Participants.antt =====
-- The participant list of a session, the deletion of a session, and the one session of an open-access
-- Assessment.
use ambatucode.Common.{
  ◌==◌, if◌then◌else◌, every, any, select, find_first, update_where, remove_where, ℕ, suc, Bool,
  true, false, not, ◌&&◌, none, some, List, [], ◌∷◌, map, Error, Result, ok, err, ◌>>=◌, ◌>>◌,
  refuse_if, or_refuse,
}
use ambatucode.Domain.{
  SessionStatus, SessionAccess, ReadyState, ConnectionState, is_editable, is_running,
  is_in_progress, is_terminal, is_approved, is_coder,
}
use ambatucode.Clock.{is_live}
use ambatucode.Store.{
  World, Session, Assessment, Participant, ExecutionJob, find_user, find_assessment, publish,
  session_state,
}
use ambatucode.Access.{Actor}
use ambatucode.Sessions.Setup.{owned_session, has_session_id, broadcast_session_state}
use ambatucode.Sessions.Lifecycle.{close_session}

pub data ParticipantSelection : Type 0 where
  all_enrolled : ParticipantSelection
  selected : List ℕ → ParticipantSelection

abbrev pub is_coder_user : ℕ → World → Bool
is_coder_user u w = elim (find_user u w) [ none ↦ false | some user ↦ is_coder user.role ]

abbrev pub enrolled_ids : ℕ → World → List ℕ
enrolled_ids m w =
    map (λ e. e.user_id)
      (select (λ e. e.module_id == m && is_approved e.status && is_coder_user e.user_id w)
        w.enrollments)

abbrev pub member : List ℕ → ℕ → Bool
member us u = any (λ v. v == u) us

unfoldable pub selected_ids : ℕ → ParticipantSelection → World → Result (List ℕ)
selected_ids m all_enrolled w = ok (enrolled_ids m w)
selected_ids m (selected us) w =
    if every (member (enrolled_ids m w)) us then ok us else err Error.validation_failed

abbrev pub is_dropped : ℕ → List ℕ → Participant → Bool
is_dropped i us p = p.session_id == i && p.is_listed && not (member us p.user_id)

abbrev pub is_kept : ℕ → List ℕ → Participant → Bool
is_kept i us p = p.session_id == i && member us p.user_id

abbrev pub new_participant : ℕ → ℕ → Participant
new_participant i u = record {
  session_id = i;
  user_id = u;
  is_listed = true;
  ready_state = ReadyState.not_ready;
  connection_state = ConnectionState.offline;
  active_connection = none;
  last_seen_at = none;
}

abbrev pub is_row_of : ℕ → ℕ → Participant → Bool
is_row_of i u p = p.session_id == i && p.user_id == u

-- `createMany` with `skipDuplicates`
abbrev pub create_missing : ℕ → List ℕ → List Participant → List Participant
create_missing i [] ps = ps
create_missing i (u ∷ us) ps =
    create_missing i us (if any (is_row_of i u) ps then ps else new_participant i u ∷ ps)

unfoldable pub list_participants : ℕ → List ℕ → List Participant → List Participant
list_participants i us ps = create_missing i us (
    update_where (is_kept i us) (λ p. record p { is_listed = true })
      (remove_where (is_dropped i us) ps))

abbrev pub replace_checks : Actor → ℕ → ParticipantSelection → World → Result (List ℕ)
replace_checks actor i input w = do
  scope ← owned_session actor i w
  refuse_if (not (is_editable scope.session.status)) Error.conflict
  selected_ids scope.assessment.module_id input w

unfoldable pub replace_participants : Actor → ℕ → ParticipantSelection → World → Result ℕ × World
unfolding owned_session selected_ids list_participants
replace_participants actor i input w = elim (replace_checks actor i input w) [
  | err e ↦ (err e, w)
  | ok us ↦ (
    ok i,
    broadcast_session_state i (record w { participants = list_participants i us w.participants }),
  )
]

abbrev pub is_deletable : ℕ → World → Session → Bool
is_deletable i w s =
    has_session_id i s
    && not (is_running s.status)
    && not (any (λ a. a.session_id == i && is_in_progress a.status) w.attempts)
    && not (any (λ t. t.session_id == i && not (is_terminal t.status)) w.submissions)

-- The row, and what goes with it by the schema's cascades.
unfoldable pub remove_session : ℕ → World → World
remove_session i w = record w {
  sessions = remove_where (has_session_id i) w.sessions;
  participants = remove_where (λ p. p.session_id == i) w.participants;
  drafts =
      remove_where (λ d. any (λ a. a.session_id == i && a.id == d.attempt_id) w.attempts) w.drafts;
  attempts = remove_where (λ a. a.session_id == i) w.attempts;
  submissions = remove_where (λ t. t.session_id == i) w.submissions;
  events = remove_where (λ e. e.session_id == i) w.events;
}

unfoldable pub delete_session : Actor → ℕ → World → Result ℕ × World
unfolding owned_session remove_session
delete_session actor i w = elim (owned_session actor i w) [
  | err e ↦ (err e, w)
  | ok scope ↦
      if not (is_running scope.session.status) && any (is_deletable i w) w.sessions
      then (ok i, publish (session_state i SessionStatus.cancelled none) (remove_session i w))
      else (err Error.conflict, w)
]

abbrev pub is_open_session : ℕ → Session → Bool
is_open_session a s = s.assessment_id == a && s.is_open_access && is_running s.status

abbrev pub open_session : ℕ → Assessment → ℕ → Session
open_session n a now = record {
  id = n;
  assessment_id = a.id;
  execution_mode = a.execution_mode;
  duration_minutes = a.duration_minutes;
  status = SessionStatus.running;
  access = SessionAccess.module_wide;
  is_open_access = true;
  started_at = some now;
  ends_at = none;
  closes_at = none;
  require_all_ready = false;
  started_by = none;
  started_with_missing = false;
}

abbrev pub open_checks : ℕ → World → Result Assessment
open_checks i w = do
  a ← or_refuse (find_assessment i w) Error.internal
  refuse_if (not a.is_open_access) Error.not_found
  refuse_if (is_live a.execution_mode) Error.conflict
  ok a

abbrev pub open_or_create : Assessment → ℕ → World → Result ℕ × World
open_or_create a now w = elim (find_first (is_open_session a.id) w.sessions) [
  | some s ↦ (ok s.id, w)
  | none ↦ (
    ok w.next_id,
    record w { sessions = open_session w.next_id a now ∷ w.sessions; next_id = suc w.next_id },
  )
]

-- The running open-access session of an Assessment.
unfoldable pub ensure_open_access_session : ℕ → ℕ → World → Result ℕ × World
ensure_open_access_session i now w = elim (open_checks i w) [
  | err e ↦ (err e, w)
  | ok a ↦ open_or_create a now w
]

abbrev pub close_all : (ExecutionJob → Bool) → ℕ → List ℕ → World → World
close_all enqueue now [] w = w
close_all enqueue now (i ∷ rest) w =
    close_all enqueue now rest (close_session enqueue i none now w).1

unfoldable pub close_open_access_sessions : (ExecutionJob → Bool) → ℕ → ℕ → World → World
close_open_access_sessions enqueue a now w =
    close_all enqueue now (map (λ s. s.id) (select (is_open_session a) w.sessions)) w
