-- ===== src/Tasks.antt =====
-- The task queue: workers and tasks of src/blackbase/resources/model.py, and the transport of
-- src/blackbase/resources/transport.py.
pub mod Worker
pub mod Records
pub mod Transport
pub mod Leases
pub mod Progress
pub mod History
pub mod Claims
mod Tests
