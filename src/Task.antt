-- ===== src/Task.antt =====
-- instructions/task.rs: a task is funded when it is created, and its vault is emptied when it ends.
pub mod Initialize
pub mod Cancel
pub mod Close
