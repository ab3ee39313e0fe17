-- ===== src/Settlement.antt =====
-- The budget settlement journal of src/blackbase/resources/budget_settlement.py.
pub mod Wire
pub mod Record
pub mod Journal
pub mod Roundtrip
pub mod Book
pub mod Refinement
pub mod History
pub mod Listing
mod Tests
