-- ===== src/Tests.antt =====
-- Runs on concrete data, and the theorems applied to them.
pub mod Memory
pub mod Cache
pub mod Tasks
pub mod Files
pub mod Tables
pub mod Mapper
pub mod Setup
pub mod Start
pub mod Ignition
pub mod Load
pub mod Devices
