-- ===== src/Model.antt =====
-- include/model: the data that the business layer keeps.
mod Robot
mod Tasks
pub use Robot.*
pub use Tasks.*
