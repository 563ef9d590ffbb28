-- ===== src/Security.antt =====
-- security/: the programs and the module that use the keyrings.
pub mod Strings
pub mod Keys
pub mod Keyring
pub mod Seccomp
pub mod Examples
