-- ===== src/Server.antt =====
-- internal/server: the handlers of the HTTP API.
pub mod Games
pub mod Holders
pub mod Secrecy
pub mod Access
pub mod Execute
pub mod Problems
pub mod Uploads
pub mod Auth
pub mod Gate
pub mod Rooms
pub mod Privacy
