-- ===== src/Workflow.antt =====
-- The filing workflow (src/services/workflow.js, src/modules/verification.js).
pub mod Documents
pub mod Periods
pub mod Progress
pub mod Desk
