-- ===== src/Tax.antt =====
-- The GST and TDS calculation engine (src/services/tax-engine.js).
pub mod Gst
pub mod Summary
pub mod Rules
pub mod Tds
pub mod Run
