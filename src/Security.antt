-- ===== src/Security.antt =====
-- security/: admission of logins and password work, and the administrator's sessions.
pub mod Admission
pub mod Passwords
pub mod AuthStore
pub mod Credentials
pub mod Sessions
