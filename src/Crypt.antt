-- ===== src/Crypt.antt =====
-- The legacy encryption of crypt.
pub mod Jasypt
pub mod Aes
mod Tests
