-- ===== src/Sessions.antt =====
-- Assessment Sessions, apps/web/src/server/services/sessions.ts: their setup, their lifecycle and the
-- participants. `now` is the one clock reading that an operation makes, `online` what Redis says of who
-- has the platform open, and `enqueue` whether the execution queue takes a job.
pub mod Setup
pub mod Lifecycle
pub mod Participants
pub mod Closing
pub mod Settling
pub mod Ended
pub mod Recorded
pub mod Open
pub mod Order
mod Tests
