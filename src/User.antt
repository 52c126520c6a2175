-- ===== src/User.antt =====
-- userServer: sessions and the tokens that refresh them.
pub mod Codes
pub mod Tables
pub mod Sessions
pub mod Token
pub mod Refresh
pub mod Device
pub mod Login
pub mod Logout
pub mod History
mod Examples
