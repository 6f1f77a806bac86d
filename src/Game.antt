-- ===== src/Game.antt =====
-- internal/service/game_service.go, one child for each group of methods.
pub mod Create
pub mod Members
pub mod Progress
pub mod Read
pub mod Reading
pub mod Change
pub mod Tables
pub mod Invariant
pub mod Requests
pub mod Status
pub mod Problems
pub mod Verdicts
pub mod Outcomes
pub mod Founding
pub mod Races
pub mod Listing
pub mod Batch
pub mod Indices
pub mod Refine
