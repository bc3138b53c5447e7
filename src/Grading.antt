-- ===== src/Grading.antt =====
-- What apps/web does with the results of execution jobs:
-- apps/web/src/server/services/execution-result.ts, with recordScriptValidation of script-validation.ts
-- and recordPracticeRun of practice-progress.ts beside it.
pub mod Rows
pub mod Validation
pub mod Practice
pub mod Runs
pub mod Ingest
pub mod Final
pub mod Visible
pub mod Again
pub mod Validated
pub mod Mastery
mod Tests
