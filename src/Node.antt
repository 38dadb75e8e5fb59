-- ===== src/Node.antt =====
-- The controller of a node, package node.
pub mod Users
pub mod Report
pub mod Controller
pub mod Monitor
pub mod Start
mod Tests
