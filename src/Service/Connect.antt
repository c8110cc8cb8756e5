-- ===== src/Service/Connect.antt =====
-- `MailboxServiceManager::VerifyCredentialsAndConnect`.
pub mod Locking
use simple_pop3serv.Base.{
  ℕ, ◌≡◌, refl, sym, ap, ◌∙◌, inl, inr, Bool, true, false, Option, none, some, List, [], ◌∷◌, ◌++◌,
  if◌then◌else◌, arith, Bytes, NoNul, All, Variant, value, error, Bool-cases,
}
use simple_pop3serv.Mail.Disk.{Disk, FilePath}
use simple_pop3serv.Mail.Errors.{
  AuthError, consumer_has_no_associated_mail_storage, MailboxOperationError, mailbox_is_busy,
  user_storages_instantination_failure, StorageType, undefined, file_system_mail_storage,
}
use simple_pop3serv.Mail.Storage.{Storage}
use simple_pop3serv.Mail.Mailbox.{Mailbox}
use simple_pop3serv.Account.ConsumerInfo.{MailStorageInfo}
use simple_pop3serv.Account.Authorization.{AuthorizationManager, logon}
use simple_pop3serv.Service.Registry.{ActiveMailboxes, is_active, lock_mailbox}
use simple_pop3serv.Service.Lock.{MailboxLock, new_lock, move_lock, destroy_lock}
use simple_pop3serv.Service.Factory.{create}

-- The static state of the service, with the disk.
pub record World : Type 0 where
  pub active : ActiveMailboxes
  pub disk : Disk

-- std::variant<mailbox_ptr, MailboxOperationError, AuthError>
pub data Connection : Type 0 where
  connected : Mailbox → Connection
  operation_failed : MailboxOperationError → Connection
  auth_failed : AuthError → Connection

-- The static objects that do not change while the server runs.
pub record Settings : Type 0 where
  pub manager : AuthorizationManager
  pub default_path : FilePath

abbrev pub push_created : List Storage → Option Storage → List Storage
push_created storages none = storages
push_created storages (some s) = storages ++ s ∷ []

-- The body of the loop over the descriptions; an exception of `create` is caught and dropped.
unfoldable pub open_storage :
    FilePath → Bytes → Disk → List Storage → StorageType → MailStorageInfo → Disk × List Storage
open_storage default_path name disk storages undefined info = (disk, storages)
open_storage default_path name disk storages file_system_mail_storage info =
    let (disk', created) = create default_path disk info name in
    (disk', push_created storages created)

unfoldable pub open_storages :
    FilePath → Bytes → Disk → List Storage → List MailStorageInfo → Disk × List Storage
unfolding open_storage
open_storages default_path name disk storages [] = (disk, storages)
open_storages default_path name disk storages (info ∷ infos) =
    let (disk', storages') = open_storage default_path name disk storages info.storage_type info in
    open_storages default_path name disk' storages' infos

-- The end of the function: the lock is moved into the constructor's argument and from there into
-- the mailbox, and what is left of the two is destroyed.
finish_connect : World → MailboxLock → Bytes → List Storage → World × Connection
finish_connect world lock name [] = (
  record world { active = destroy_lock world.active lock },
  operation_failed user_storages_instantination_failure,
)
finish_connect world lock name (s ∷ ss) =
    let (local, argument) = move_lock lock in
    let (argument', member) = move_lock argument in
    (
      record world { active = destroy_lock (destroy_lock world.active argument') local },
      connected (record { name = name; storages = s ∷ ss; lock = member }),
    )

after_logon :
    Settings
    → World
    → MailboxLock
    → Bytes
    → Variant (List MailStorageInfo) AuthError
    → World × Connection
unfolding finish_connect
after_logon settings world lock name (error e) =
    (record world { active = destroy_lock world.active lock }, auth_failed e)
after_logon settings world lock name (value []) = (
  record world { active = destroy_lock world.active lock },
  auth_failed consumer_has_no_associated_mail_storage,
)
after_logon settings world lock name (value (info ∷ infos)) =
    let (disk, storages) = open_storages settings.default_path name world.disk [] (info ∷ infos) in
    finish_connect (record world { disk = disk }) lock name storages

unfoldable pub verify_credentials_and_connect :
    Settings → World → Bytes → Bytes → World × Connection
unfolding after_logon
verify_credentials_and_connect settings world name password =
    let (active, lock) = new_lock world.active name in
    let world' : World = record world { active = active } in
    if lock.acquired
    then after_logon settings world' lock name (logon settings.manager name password)
    else (record world' { active = destroy_lock active lock }, operation_failed mailbox_is_busy)
