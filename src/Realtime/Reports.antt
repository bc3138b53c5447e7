-- ===== src/Realtime/Reports.antt =====
-- The other handlers of apps/realtime/src/assessment.ts: handleDraft, handleFocus, handleClipboard,
-- handleMonitorJoin and handleBroadcast, with focusLossResponse of packages/shared/src/anti-cheat.ts. The
-- call of apps/web that closes an attempt is its operation on the same world.
use ambatucode.Common.{
  leb, ◌==◌, if◌then◌else◌, select, count_where, ℕ, ◌+◌, Bool, true, false, not, ◌&&◌, Option, none,
  some, List, [], ◌∷◌, ◌++◌, Error, Result, ok, err,
}
use ambatucode.Domain.{is_in_progress}
use ambatucode.Clock.{attempt_activity_problem}
use ambatucode.Store.{
  World, Assessment, Event, EventType, ExecutionJob, Message, find_session, find_assessment,
  find_module,
}
use ambatucode.Access.{AttemptScope, is_architect}
use ambatucode.Attempts.Activity.{
  CodeInput, clock_for, effective_session_status, error_of, assert_language_allowed, upsert_draft,
  draft_of,
}
use ambatucode.Attempts.Close.{AutoReason, auto_submit_attempt}
use ambatucode.Realtime.State.{
  Hub, Socket, Bound, Lobby, Entry, Target, attempt_warning, monitor_room, session_state,
  session_started, attempt_auto_submitted, delete, put, emit, in_world, log_event, lobbies_of,
}
use ambatucode.Realtime.Clocks.{load_own_attempt, send_state}
use ambatucode.Realtime.Joining.{enter}

-- `attemptActivityProblem` of the row, and the language after it.
abbrev pub draft_problem : AttemptScope → CodeInput → ℕ → Result (Unit {0})
draft_problem row input now =
    elim (attempt_activity_problem row.attempt.status
      (effective_session_status row.attempt row.session) (clock_for row.attempt row.session) now) [
        | some p ↦ err (error_of p)
        | none ↦ assert_language_allowed row.assessment.allowed_languages input.language
      ]

unfoldable pub handle_draft : Socket → ℕ → CodeInput → ℕ → Hub → Result (Unit {0}) × Hub
unfolding load_own_attempt attempt_activity_problem assert_language_allowed
handle_draft s attempt input now h = elim (load_own_attempt attempt s.actor.id h.world) [
  | none ↦ (err Error.not_found, h)
  | some row ↦ elim (draft_problem row input now) [
    | err e ↦ (err e, h)
    | ok _ ↦ (
      ok tt,
      in_world (λ w. record w { drafts = upsert_draft (draft_of attempt input now) w.drafts }) h,
    )
  ]
]

pub data FocusLossAction : Type 0 where
  log_only warn auto_submit : FocusLossAction

pub data FocusLossResponse : Type 0 where
  nothing warn auto_submit : FocusLossResponse

-- `AntiCheatConfig`, as far as the server reads it.
pub record AntiCheatConfig : Type 0 where
  pub detect_focus_loss : Bool
  pub focus_loss_threshold : ℕ
  pub focus_loss_action : FocusLossAction
  pub block_clipboard : Bool
  pub block_context_menu : Bool

abbrev response_of : FocusLossAction → FocusLossResponse
response_of FocusLossAction.log_only = FocusLossResponse.nothing
response_of FocusLossAction.warn = FocusLossResponse.warn
response_of FocusLossAction.auto_submit = FocusLossResponse.auto_submit

unfoldable pub focus_loss_response : AntiCheatConfig → ℕ → FocusLossResponse
focus_loss_response config count =
    if not config.detect_focus_loss
    then FocusLossResponse.nothing
    else (if leb count config.focus_loss_threshold
        then FocusLossResponse.nothing
        else response_of config.focus_loss_action)

abbrev pub is_focus_lost : EventType → Bool
is_focus_lost EventType.focus_lost = true
is_focus_lost _ = false

abbrev pub is_loss_of : ℕ → Event → Bool
is_loss_of attempt e =
    is_focus_lost e.type && (elim e.attempt_id [ none ↦ false | some i ↦ i == attempt ])

abbrev pub losses : ℕ → World → ℕ
losses attempt w = count_where (is_loss_of attempt) w.events

pub data FocusState : Type 0 where
  lost regained : FocusState

abbrev respond : (ExecutionJob → Bool) → FocusLossResponse → ℕ → ℕ → ℕ → ℕ → Hub → Hub
respond enqueue FocusLossResponse.nothing user attempt count now h = h
respond enqueue FocusLossResponse.warn user attempt count now h =
    emit (attempt_warning user count) h
respond enqueue FocusLossResponse.auto_submit user attempt count now h =
    in_world (λ w. (auto_submit_attempt enqueue attempt AutoReason.focus_loss now w).1) h

abbrev pub focus_seen :
    (ExecutionJob → Bool) → AntiCheatConfig → FocusState → AttemptScope → ℕ → Hub → Hub
focus_seen enqueue config FocusState.regained row now h =
    log_event row.attempt.session_id EventType.focus_regained row.attempt.user_id row.attempt.id now
      h
focus_seen enqueue config FocusState.lost row now h =
    let a = row.attempt in
    let count = losses a.id h.world + 1 in
    respond enqueue (focus_loss_response config count) a.user_id a.id count now
      (log_event a.session_id EventType.focus_lost a.user_id a.id now h)

-- `config_of` reads the configuration that is stored with an Assessment: every control is off where it
-- does not parse.
unfoldable pub handle_focus :
    (ExecutionJob → Bool)
    → (Assessment → AntiCheatConfig)
    → Socket
    → ℕ
    → FocusState
    → ℕ
    → Hub
    → Result (Unit {0}) × Hub
unfolding load_own_attempt focus_loss_response
handle_focus enqueue config_of s attempt state now h =
    elim (load_own_attempt attempt s.actor.id h.world) [
      | none ↦ (err Error.not_found, h)
      | some row ↦
          if not (is_in_progress row.attempt.status)
          then (err Error.attempt_expired, h)
          else (if not (config_of row.assessment).detect_focus_loss
              then (ok tt, h)
              else (ok tt, focus_seen enqueue (config_of row.assessment) state row now h))
    ]

pub data ClipboardAction : Type 0 where
  copy cut paste context_menu : ClipboardAction

abbrev is_blocked : AntiCheatConfig → ClipboardAction → Bool
is_blocked config ClipboardAction.context_menu = config.block_context_menu
is_blocked config _ = config.block_clipboard

unfoldable pub handle_clipboard :
    (Assessment → AntiCheatConfig)
    → Socket
    → ℕ
    → ClipboardAction
    → ℕ
    → Hub
    → Result (Unit {0}) × Hub
unfolding load_own_attempt
handle_clipboard config_of s attempt action now h =
    elim (load_own_attempt attempt s.actor.id h.world) [
      | none ↦ (err Error.not_found, h)
      | some row ↦
          if is_in_progress row.attempt.status && is_blocked (config_of row.assessment) action
          then (
            ok tt,
            log_event row.attempt.session_id EventType.clipboard_blocked row.attempt.user_id
                row.attempt.id now h,
          )
          else (ok tt, h)
    ]

abbrev owner_of : ℕ → World → Option ℕ
owner_of session w = elim (find_session session w) [
  | none ↦ none
  | some s ↦ elim (find_assessment s.assessment_id w) [
    | none ↦ none
    | some a ↦ elim (find_module a.module_id w) [ none ↦ none | some m ↦ some m.owner_id ]
  ]
]

abbrev is_owner : Socket → Option ℕ → Bool
is_owner s none = false
is_owner s (some i) = is_architect s.actor.role && i == s.actor.id

unfoldable pub handle_monitor_join : Socket → ℕ → Hub → Result (Unit {0}) × Hub
handle_monitor_join s session h =
    if is_owner s (owner_of session h.world)
    then (ok tt, enter s.id (monitor_room session) h)
    else (err Error.forbidden, h)

-- A closed attempt's socket stays on its page, as presence only.
abbrev pub presence_only : Bound → Lobby
presence_only b = record {
  session_id = b.session_id;
  user_id = b.user_id;
  attempt_id = some b.attempt_id;
}

abbrev pub is_bound_to : ℕ → Entry Bound → Bool
is_bound_to attempt e = e.value.attempt_id == attempt

abbrev unbind_each : List (Entry Bound) → Hub → Hub
unbind_each [] h = h
unbind_each (e ∷ es) h = unbind_each es (record h {
  bound_attempts = delete e.key h.bound_attempts;
  lobbies = put e.key (lobbies_of e.key h ++ (presence_only e.value ∷ [])) h.lobbies;
})

unfoldable pub close_bindings : ℕ → Hub → Hub
close_bindings attempt h =
    unbind_each (select (is_bound_to attempt) h.bound_attempts)
      (record h { pending_disconnects = delete attempt h.pending_disconnects })

-- The messages of apps/web; those for the monitor alone are passed on as they are.
unfoldable pub handle_broadcast : Message → Hub → Hub
unfolding close_bindings send_state
handle_broadcast (Message.session_started session ends) h = emit (session_started session) h
handle_broadcast (Message.session_state session status ends) h = emit (session_state session) h
handle_broadcast (Message.attempt_closed user attempt) h =
    send_state (Target.to_user user) attempt user (close_bindings attempt h)
handle_broadcast (Message.attempt_auto_submitted user attempt submission) h =
    emit (attempt_auto_submitted user attempt) h
handle_broadcast (Message.execution_status user submission status score) h = h
