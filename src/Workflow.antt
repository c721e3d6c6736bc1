-- ===== src/Workflow.antt =====
-- hollysys_controller/workflow.py and the completion contract of hollysys_controller/models.py.
pub mod Stages
pub mod Completion
pub mod Gate
pub mod Contract
pub mod Routing
pub mod Progress
