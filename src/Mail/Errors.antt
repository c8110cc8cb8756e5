-- ===== src/Mail/Errors.antt =====
-- MailboxServiceCore/include/Enums.h: the storage types and the error codes.
use simple_pop3serv.Base.{Bool, true, false, Bytes, bytes}

pub data StorageType : Type 0 where
  undefined file_system_mail_storage : StorageType

unfoldable pub check_if_storage_type_valid : StorageType → Bool
check_if_storage_type_valid undefined = false
check_if_storage_type_valid file_system_mail_storage = true

pub data AuthError : Type 0 where
  no_such_consumer invalid_password consumer_has_no_associated_mail_storage : AuthError

-- `operator<<`
unfoldable pub print_auth_error : AuthError → Bytes
print_auth_error no_such_consumer = bytes "sorry, no mailbox for such user here"
print_auth_error invalid_password = bytes "invalid password"
print_auth_error consumer_has_no_associated_mail_storage =
    bytes "login and password are corrent, however default mail storage is not set for this user"

pub data MailboxOperationError : Type 0 where
  no_error mailbox_already_exists mailbox_is_busy mailbox_not_exist : MailboxOperationError
  mailbox_create_error email_not_found user_storages_instantination_failure : MailboxOperationError
  email_already_deleted mail_is_marked_as_deleted internal_error : MailboxOperationError
