-- ===== src/Store.antt =====
-- hollysys_controller/store.py, the durable state of the controller, table by table.
pub mod RunState
pub mod Runs
pub mod Startup
pub mod RunControl
pub mod Abort
pub mod MergeWait
pub mod History
pub mod Reconcile
pub mod Operations
pub mod Outbox
pub mod Requests
pub mod Attempts
pub mod Identity
pub mod Outage
