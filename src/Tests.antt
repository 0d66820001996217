-- ===== src/Tests.antt =====
-- The theorems at concrete inputs.
mod Codec
mod Vectors
mod Variables
mod Entries
mod Programs
mod Streams
mod Fields
mod Reports
mod Histories
mod Devices
