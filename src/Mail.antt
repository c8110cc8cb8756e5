-- ===== src/Mail.antt =====
-- MailboxServiceCore, the mail side: the error codes, the disk, one storage, and the mailbox that
-- joins several.
pub mod Errors
pub mod Disk
pub mod SizeMap
pub mod Storage
pub mod Mailbox
