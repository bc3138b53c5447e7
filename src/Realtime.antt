-- ===== src/Realtime.antt =====
-- The assessment server of apps/realtime: apps/realtime/src/assessment.ts. Joining an attempt and
-- taking a seat in the lobby are modelled in the parts between their waits on the database, so that other
-- events may come between them; every other handler is run with nothing in between. The presence of users on the platform at large, which is
-- kept in Redis, is not modelled, and a payload is taken as already parsed.
pub mod State
pub mod Clocks
pub mod Departures
pub mod Joining
pub mod Lobbies
pub mod Reports
pub mod Presence
pub mod Drafts
pub mod Handover
pub mod Abandoned
pub mod Away
mod Tests
