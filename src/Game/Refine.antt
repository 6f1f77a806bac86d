-- ===== src/Game/Refine.antt =====
-- The methods of GameService refine the transition system of `Game.Change`.
pub mod Found
pub mod Methods
pub mod Submission
pub mod Creation
