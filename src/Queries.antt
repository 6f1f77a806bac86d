-- ===== src/Queries.antt =====
-- internal/db/sqlc: the statements, one module for each file.
pub mod Games
pub mod GameParticipants
pub mod GameProblems
pub mod Problems
pub mod ProblemVersions
pub mod Listings
pub mod Sessions
pub mod Solutions
pub mod Users
pub mod VerificationCodes
