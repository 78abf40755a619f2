-- ===== src/Tests.antt =====
-- Runs of the theorems and of the definitions at concrete inputs.
pub mod Reactor
pub mod Storage
pub mod Keys
pub mod Locks
pub mod Service
pub mod Life
pub mod Dump
pub mod Start
pub mod Json
pub mod Crawl
pub mod Pairs
pub mod Ranges
pub mod Feed
pub mod Pool
pub mod Api
