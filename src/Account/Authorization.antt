-- ===== src/Account/Authorization.antt =====
-- AuthorizationManager.h: the interface, `logon` over it, and its two implementations.
use simple_pop3serv.Base.{
  ℕ, ◌≡◌, Bool, true, false, not, Option, none, some, List, [], ◌∷◌, ◌==◌, if◌then◌else◌, arith,
  Bytes, Variant, value, error,
}
use simple_pop3serv.Mail.Errors.{
  AuthError, no_such_consumer, invalid_password, file_system_mail_storage,
}
use simple_pop3serv.Account.ConsumerInfo.{ConsumerInfo, MailStorageInfo, new_info}
use simple_pop3serv.Account.ConsumerStorage.{ConsumerSet, get_consumer_info, has_mailbox}

-- The virtual functions.
pub record AuthorizationManager : Type 0 where
  pub verify_name : Bytes → Bool
  pub verify_credentials : Bytes → Bytes → Bool
  pub get_mail_storages : Bytes → List MailStorageInfo

unfoldable pub logon :
    AuthorizationManager → Bytes → Bytes → Variant (List MailStorageInfo) AuthError
logon manager name password =
    if not (manager.verify_name name)
    then error no_such_consumer
    else if not (manager.verify_credentials name password)
    then error invalid_password
    else value (manager.get_mail_storages name)

unfoldable pub dummy_manager : AuthorizationManager
dummy_manager = record {
  verify_name = λ name. true;
  verify_credentials = λ name password. true;
  get_mail_storages = λ name. new_info file_system_mail_storage ∷ [];
}

-- `settings && settings->password == passConv(password)`
unfoldable pub has_password : Option ConsumerInfo → ℕ → Bool
has_password none password = false
has_password (some settings) password = settings.password == password

unfoldable pub storages_of : Option ConsumerInfo → List MailStorageInfo
storages_of none = []
storages_of (some settings) = settings.storages

-- `SingleConsumerInfoStorageAuthorizationManager<BothNumericConsumerInfo>`; `hash` is
-- `std::hash<std::string_view>`, of which nothing is known.
unfoldable pub single_manager : (Bytes → ℕ) → ConsumerSet → AuthorizationManager
unfolding has_password storages_of
single_manager hash consumers = record {
  verify_name = λ name. has_mailbox consumers (hash name);
  verify_credentials =
      λ name password. has_password (get_consumer_info consumers (hash name)) (hash password);
  get_mail_storages = λ name. storages_of (get_consumer_info consumers (hash name));
}

-- What a logon answers, given the consumer that has the hash of the name.
abbrev pub logon_answer : Option ConsumerInfo → ℕ → Variant (List MailStorageInfo) AuthError
logon_answer none password = error no_such_consumer
logon_answer (some c) password =
    if c.password == password then value c.storages else error invalid_password

-- A logon at the program's manager succeeds exactly when a consumer is cached under the hash of
-- the name and has the hash of the password, and then gives that consumer's storages; without such
-- a consumer it answers that there is none, and with another hash that the password is invalid.
pub logon-single_manager :
    (hash : Bytes → ℕ) (consumers : ConsumerSet) (name password : Bytes)
    → logon (single_manager hash consumers) name password
      ≡ logon_answer (get_consumer_info consumers (hash name)) (hash password)
unfolding logon single_manager has_mailbox
logon-single_manager hash consumers name password = ground arith
