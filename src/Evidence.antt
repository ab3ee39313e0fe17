-- ===== src/Evidence.antt =====
-- The durable state machine of evaluation evidence
-- (src/blackbase/evaluation/journal.py and src/blackbase/evaluation/event.py).
pub mod Wire
pub mod Event
pub mod Record
pub mod Validity
pub mod Journal
pub mod Steps
pub mod Invariant
pub mod History
pub mod Verified
mod Tests
