-- ===== src/Content.antt =====
-- contentServer.
pub mod Errors
pub mod Tables
pub mod Delivery
pub mod Tasks
pub mod Dispatch
pub mod History
pub mod Ids
pub mod Post
pub mod Cards
pub mod Tags
pub mod Removal
pub mod Drafts
pub mod Publication
pub mod Worker
mod Examples
