-- ===== src/Examples.antt =====
-- Concrete inputs at which the results of the other modules apply, one file per part.
pub mod Taxes
pub mod Runs
pub mod Flow
pub mod Accounts
pub mod Log
pub mod Plans
pub mod Desk
pub mod Reports
pub mod Access
pub mod Migrations
pub mod Codes
pub mod Entitled
