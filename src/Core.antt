-- ===== src/Core.antt =====
-- core/: what the three cores share, how a node finds its core, and the cores' users.
pub mod Traffic
pub mod Interface
pub mod Selector
pub mod Sniffer
pub mod Dispatcher
pub mod Xray
pub mod Sing
pub mod Hysteria2
mod Tests
