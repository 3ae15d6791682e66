-- ===== src/Accounts.antt =====
-- ci/accounts/: the account capacity patches of the two clients.
pub mod Windows
pub mod Android
pub mod Binding
