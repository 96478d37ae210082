-- ===== src/Notify.antt =====
-- src/notify: the Telegram commands.
pub mod Telegram
