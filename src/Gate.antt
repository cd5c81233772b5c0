-- ===== src/Gate.antt =====
-- The Gate (server/gate): verification codes, registration, sign-in and new passwords.
pub mod Accounts
pub mod Email
pub mod SignIn
pub mod Users
pub mod Verification
