-- ===== src/Service.antt =====
-- MailboxServiceCore, the service: the set of locked mailboxes, the lock object, the factory of
-- storages, and the connection to a mailbox.
pub mod Registry
pub mod Lock
pub mod Exclusion
pub mod Factory
pub mod Connect
