-- ===== src/Service.antt =====
-- hollysys_controller/service.py: the operations that go through the store's idempotency record.
pub mod Operation
pub mod Dependencies
pub mod Flush
pub mod Reconciling
