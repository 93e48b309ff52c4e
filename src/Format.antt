-- ===== src/Format.antt =====
-- src/stdio/vsnprintf.c: formatted output into a buffer of bounded size.
pub mod Output
pub mod Number
pub mod Integer
pub mod Field
pub mod Driver
pub mod Emit
pub mod Bounds
pub mod Meaning
pub mod Agreement
pub mod Text
pub mod Render
pub mod Conversions
pub mod Parts
pub mod Fuel
pub mod Refine
