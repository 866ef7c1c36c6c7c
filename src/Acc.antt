-- ===== src/Acc.antt =====
-- src/accelerated_io.c
pub mod Vh
pub mod Engine
pub mod Windows
pub mod Watch
pub mod Control
pub mod Slots
pub mod Read
pub mod Write
pub mod Process
pub mod Resources
pub mod Buffer
pub mod Iov
pub mod Entry
pub mod Threads
