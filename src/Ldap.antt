-- ===== src/Ldap.antt =====
-- ldap/utils.go and ldap/client.go. Texts are lists of bytes.
pub mod Guid
pub mod Sid
pub mod Account
pub mod Client
mod Tests
