-- ===== src/CharSelect.antt =====
-- The character selection server: src/char_select/.
pub mod Auth
pub mod Client
pub mod LocalAddress
pub mod Params
pub mod Replies
mod Tests
