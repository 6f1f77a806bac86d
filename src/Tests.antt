-- ===== src/Tests.antt =====
-- Runs of the code on concrete data, and the theorems applied to them.
mod Access
mod Catalog
mod Data
mod Browsing
mod Games
mod Reads
mod Pools
mod Rooms
mod Sessions
mod Slots
mod Submits
mod Texts
