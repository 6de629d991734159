-- ===== src/Serial.antt =====
-- include/modules/serial and src/modules/serial: the serial link to the motor controller.
pub mod Protocol
pub mod Manager
pub mod Port
mod Tests
