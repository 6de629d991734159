-- ===== src/Business.antt =====
-- include/business and src/business: what the robot does.
pub mod Robot
pub mod Mission
pub mod Patrol
mod Tests
