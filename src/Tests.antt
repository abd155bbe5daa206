-- ===== src/Tests.antt =====
-- Instances of the theorems at concrete inputs: Redis and the platform are the ones in memory.
mod Sessions
mod Ids
mod Catalogue
mod Listing
mod Accounts
mod Requests
mod Plugs
mod Answers
mod Menus
mod Pictures
mod Tasks
mod Logs
mod Social
mod Releases
pub mod Data
