-- ===== src/Stdio.antt =====
-- src/stdio: streams over file descriptors.
pub mod File
pub mod Buffered
pub mod Console
