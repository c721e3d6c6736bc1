-- ===== src/Validators.antt =====
-- hollysys_controller/validators.py: the check of the task documents.
pub mod Graph
pub mod Documents
