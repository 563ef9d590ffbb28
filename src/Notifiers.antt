-- ===== src/Notifiers.antt =====
-- notifiers: kernel modules called back by notifier chains.
pub mod Chain
pub mod ListChain
pub mod Custom
pub mod Panic
pub mod Pm
pub mod Oom
pub mod Monitors
