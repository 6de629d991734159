-- ===== src/App.antt =====
-- include/app/Application.h and src/app/Application.cpp.
pub mod Serve
pub mod Stream
pub mod Whole
pub mod Run
mod Tests
