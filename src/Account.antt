-- ===== src/Account.antt =====
-- MailboxServiceCore, the accounts: consumers with their storage descriptions, their storage, and
-- the authorization managers.
pub mod CompactString
pub mod ConsumerInfo
pub mod ConsumerStorage
pub mod Authorization
pub mod Json
