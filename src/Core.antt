-- ===== src/Core.antt =====
-- include/core: the parts that any module may use.
pub mod EventBus
pub mod StateMachine
pub mod Clock
mod Tests
