-- ===== src/Tests.antt =====
-- The theorems at concrete inputs, and runs of the functions that they are about.
mod Store
mod Strings
mod Text
mod Services
mod Streams
mod Linker
mod Loader
mod Mapping
mod Launch
mod Program
mod System
