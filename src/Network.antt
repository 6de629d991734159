-- ===== src/Network.antt =====
-- include/modules/network and src/modules/network: the link to the supervisor's front end.
pub mod Frame
pub mod Socket
pub mod Server
pub mod Send
pub mod Listener
pub mod Client
mod Tests
