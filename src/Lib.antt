-- ===== src/Lib.antt =====
-- Ambatucode, a platform for teaching programming: the server's rules for timed assessments.
--
-- A Module has Assessments; an Architect runs an Assessment as one or more sessions; a Coder sits a
-- session in an attempt, which ends with one Submission, an expiry or a reset. The services of apps/web
-- write the database and are called by request handlers and by apps/realtime, whose alarms close what
-- is overdue. Clocks, readiness and enums are shared code of packages/shared.
--
-- Which file models what:
--   Domain: the enums of packages/shared/src/enums.ts.
--   Clock: packages/shared/src/assessment-clock.ts (deadlines, time left, pause, resume, and
--     attemptActivityProblem), with what apps/realtime/src/assessment.ts writes on a pause and a resume.
--   Scoring: computeScore of apps/web/src/server/services/scoring.ts.
--   Store: the rows of packages/db/prisma/schema.prisma, and a World of all tables, alarms, jobs and
--     messages. A service is a function from a World to a World and a result; a refusal is an Error.
--   Official: apps/web/src/server/services/official-score.ts.
--   Access: apps/web/src/server/auth/guards.ts, with assessment-scope.ts and participation.ts of the
--     services.
--   Grading: apps/web/src/server/services/execution-result.ts, with recordScriptValidation of
--     script-validation.ts and recordPracticeRun of practice-progress.ts.
--   Realtime: apps/realtime/src/assessment.ts (joining, leaving, the lobby, drafts, reports and
--     broadcasts, the refresh of presence and the clock ticks). Joining and taking a seat are split
--     at their waits on the database.
--   Attempts: apps/web/src/server/services/attempts.ts (startAttempt, saveDraft, runAttempt, submitAttempt,
--     dispatchSubmission, autoSubmitAttempt) and resetAttempt and setAttemptOfficial of grades.ts.
--   Deadlines: fire and sweep of apps/realtime/src/deadlines.ts.
--   Readiness: packages/shared/src/session-readiness.ts and packages/db/src/session-roster.ts.
--   Sessions: apps/web/src/server/services/sessions.ts (create, update, delete, participants, start,
--     end, expire, close, open access).
--   Enrollments: apps/web/src/server/services/enrollments.ts, against a table of standings.
--   Export: csvField, csvRow and csvRowsFor of apps/web/src/server/services/grades-export.ts.
--   Monitor: apps/web/src/lib/monitor-rows.ts, without search and sorting.
--   Achievements: the rules of apps/web/src/server/services/achievement-rules.ts.
--   Content: the Sections of apps/web/src/server/services/sections.ts.
--   Progression: apps/web/src/server/services/module-progression.ts, without the titles.
--   Countdown: apps/web/src/lib/attempt-clock.ts, the browser's view of a deadline.
--   Leaderboard: apps/web/src/server/services/leaderboard-ranking.ts.
--   Common: shared tests, lists, tables, errors and whole numbers. Sample: a small world for tests.
--
-- How the code corresponds. A moment is a number of milliseconds, an id a number, a table a list of
-- rows; findFirst, count, updateMany and deleteMany are the functions of Common.Tables. An operation
-- reads the clock once and gets it as `now`; runAttempt reads it twice. A transaction that holds the
-- lock of the row it decides on is one step; startAttempt and startSession, which read first and write
-- later, are split in two, so that other requests may come between, and the handlers of apps/realtime
-- that join or take a seat in three. Every other operation is run with no other request between its
-- reading and its writes, also where the source holds no lock: so it is with resetAttempt, the results
-- and the expiry of jobs (their writes alone are ingest_found and fail_waiting), the many transactions
-- of closeSession and of the sweep, and the departures of apps/realtime. Whether the queue takes a job
-- (`enqueue`) and who is online (`online`, kept in Redis) are parameters, and so are what Redis counts
-- for the rate limit, whether the count of a Run is written, and the order of usernames
-- (localeCompare). Loops are structural recursion on lists, so no fuel is needed.
--
-- Not modelled: names, titles, texts and the order that goes by them, the payloads of events and
-- messages beyond what identifies them, cached leaderboards, pages and handlers, the Go worker, and the
-- components of the program that no file above names.
pub mod Common
pub mod Domain
pub mod Clock
pub mod Scoring
pub mod Grading
pub mod Enrollments
pub mod Export
pub mod Monitor
pub mod Achievements
pub mod Content
pub mod Countdown
pub mod Deadlines
pub mod Progression
pub mod Realtime
pub mod Store
pub mod Official
pub mod Access
pub mod Attempts
pub mod Readiness
pub mod Sessions
pub mod Leaderboard
pub mod Sample
