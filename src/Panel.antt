-- ===== src/Panel.antt =====
-- api/panel: the client of the panel's API.
pub mod User
pub mod Node
pub mod Routes
pub mod Client
pub mod Users
mod Tests
