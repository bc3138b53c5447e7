-- ===== src/Attempts.antt =====
-- Assessment Attempts, apps/web/src/server/services/attempts.ts and the Architect's operations on them
-- in apps/web/src/server/services/grades.ts. Some children model the operations, and the
-- others prove what holds of them. `now` is the one clock reading that an operation makes; `enqueue` says
-- whether the execution queue takes a job.
pub mod Activity
pub mod Running
pub mod RunLaws
pub mod Start
pub mod Dispatch
pub mod Submit
pub mod Close
pub mod Grades
pub mod Invariant
pub mod Transitions
pub mod Handing
pub mod Requests
pub mod Regrade
pub mod Starting
pub mod History
pub mod Once
pub mod Final
pub mod Refusals
pub mod Outcomes
pub mod Admission
mod RunTests
mod Tests
