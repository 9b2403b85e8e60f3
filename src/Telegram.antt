-- ===== src/Telegram.antt =====
-- The bot of internal/telegram: its commands and callbacks, its texts and its queue of alerts. Texts are
-- lists of bytes; every rune that the code tests for is ASCII, so runes are taken byte by byte.
mod Tests
pub mod Words
pub mod Html
pub mod Sizes
pub mod Tail
pub mod Alerts
pub mod Figures
pub mod Backends
pub mod Bot
