-- ===== src/Tests.antt =====
-- The theorems at concrete inputs.
mod Fixtures
mod Strategies
mod Models
mod Scheduling
mod Library
mod Service
mod Pool
mod Run
mod Steps
mod Platform
mod Log
