-- ===== src/Service/Connect/Locking.antt =====
-- What `VerifyCredentialsAndConnect` does to the set of locked mailboxes, and the mailbox it opens.
use simple_pop3serv.Base.{
  ◌≡◌, refl, sym, ◌∙◌, subst, inl, inr, true, false, Option, none, some, List, [], ◌∷◌, Bytes,
  NoNul, c_str-NoNul, All, All-append, Variant, value, error, Bool-cases,
}
use simple_pop3serv.Mail.Disk.{Disk, File, FilePath}
use simple_pop3serv.Mail.Errors.{AuthError, StorageType, undefined, file_system_mail_storage}
use simple_pop3serv.Mail.Storage.{Storage}
use simple_pop3serv.Account.ConsumerInfo.{MailStorageInfo}
use simple_pop3serv.Service.Registry.{is_active, lock_mailbox, unlock_mailbox, erase_front}
use simple_pop3serv.Service.Lock.{MailboxLock, new_lock, move_lock, destroy_lock}
use simple_pop3serv.Service.Factory.{create}
use simple_pop3serv.Service.Factory.Opened.{IsOpened, IsMade, create-Creates}
use simple_pop3serv.Service.Connect.{
  World, Connection, connected, operation_failed, auth_failed, Settings, push_created, open_storage,
  open_storages, finish_connect, after_logon, verify_credentials_and_connect,
}

-- Storages opened on these files, and a disk with these files.
abbrev Opens : List File → Disk × List Storage → Type 0
Opens files r = (r.0.files ≡ files) × All (IsOpened files) r.1

push_created-IsOpened :
    (files : List File) (storages : List Storage) (r : Option Storage)
    → All (IsOpened files) storages
    → IsMade files r
    → All (IsOpened files) (push_created storages r)
push_created-IsOpened files storages none h m = h
push_created-IsOpened files storages (some s) h m =
    All-append (IsOpened files) storages (s ∷ []) h (m, tt)

module _ (default_path : FilePath) (name : Bytes) (files : List File) where
  open_storage-Opens :
      (d : Disk) (storages : List Storage) (t : StorageType) (info : MailStorageInfo)
      → Opens files (d, storages)
      → Opens files (open_storage default_path name d storages t info)
  unfolding open_storage
  open_storage-Opens d storages undefined info h = h
  open_storage-Opens d storages file_system_mail_storage info h =
      let (kept, made) = create-Creates default_path d info name in
      (
        kept ∙ h.0,
        push_created-IsOpened files storages (create default_path d info name).1 h.1
            (subst (λ fs. IsMade fs (create default_path d info name).1) h.0 made),
      )

  open_storages-Opens :
      (d : Disk) (storages : List Storage) (infos : List MailStorageInfo)
      → Opens files (d, storages)
      → Opens files (open_storages default_path name d storages infos)
  unfolding open_storages
  open_storages-Opens d storages [] h = h
  open_storages-Opens d storages (info ∷ infos) h =
      let next = open_storage default_path name d storages info.storage_type info in
      open_storages-Opens next.0 next.1 infos
        (open_storage-Opens d storages info.storage_type info h)

-- What a connection to the mailbox `name` leaves in the world.
abbrev pub Connects : World → Bytes → World × Connection → Type 0
Connects world name (world', connected m) =
    (is_active world.active name ≡ false)
    × (world'.active ≡ name ∷ world.active)
    × (world'.disk.files ≡ world.disk.files)
    × (m.name ≡ name)
    × (m.lock ≡ record { name = name; acquired = true })
    × All (IsOpened world'.disk.files) m.storages
Connects world name (world', operation_failed e) =
    (world'.active ≡ world.active) × (world'.disk.files ≡ world.disk.files)
Connects world name (world', auth_failed e) =
    (world'.active ≡ world.active) × (world'.disk.files ≡ world.disk.files)

module _ (world : World) (name : Bytes) (plain : NoNul name)
    (free : is_active world.active name ≡ false) where
  abbrev held : MailboxLock
  held = record { name = name; acquired = true }

  abbrev locked : Disk → World
  locked d = record { active = name ∷ world.active; disk = d }

  released : destroy_lock (name ∷ world.active) held ≡ world.active
  unfolding destroy_lock unlock_mailbox
  released = rw (c_str-NoNul name plain) (erase_front world.active name free)

  finish_connect-Connects :
      (d : Disk) (storages : List Storage)
      → d.files ≡ world.disk.files
      → All (IsOpened d.files) storages
      → Connects world name (finish_connect (locked d) held name storages)
  unfolding finish_connect move_lock
  finish_connect-Connects d [] e h = (released, e)
  finish_connect-Connects d (s ∷ ss) e h = (free, unfold destroy_lock in refl, e, refl, refl, h)

  after_logon-Connects :
      (settings : Settings) (r : Variant (List MailStorageInfo) AuthError)
      → Connects world name (after_logon settings (locked world.disk) held name r)
  unfolding after_logon
  after_logon-Connects settings (error e) = (released, refl)
  after_logon-Connects settings (value []) = (released, refl)
  after_logon-Connects settings (value (info ∷ infos)) =
      let opened = open_storages settings.default_path name world.disk [] (info ∷ infos) in
      let (e, h) =
        open_storages-Opens settings.default_path name world.disk.files world.disk [] (info ∷ infos)
          (refl, tt) in
      finish_connect-Connects opened.0 opened.1 e
        (subst (λ fs. All (IsOpened fs) opened.1) (sym e) h)

-- For a name without NUL: if a mailbox is handed out, its name was not locked before and is the
-- one name that is locked on top, the mailbox holds the lock and has that name, and its storages
-- are new ones on the files of the disk. If the mailbox is busy, the logon fails, or no storage
-- can be opened, the set of locked names is as it was. The files are as they were in either case.
pub verify_credentials_and_connect-Connects :
    (settings : Settings) (world : World) (name password : Bytes)
    → NoNul name
    → Connects world name (verify_credentials_and_connect settings world name password)
unfolding verify_credentials_and_connect new_lock lock_mailbox
verify_credentials_and_connect-Connects settings world name password plain =
    elim (Bool-cases (is_active world.active name)) [
      | inl busy ↦ rw busy (unfold destroy_lock in (refl, refl))
      | inr free ↦ rw free (after_logon-Connects world name plain free settings _)
    ]
