-- ===== src/Thread.antt =====
-- Code of the folder thread.
pub mod Notifier
pub mod MsgQueue
