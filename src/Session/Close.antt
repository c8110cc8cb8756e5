-- ===== src/Session/Close.antt =====
-- The end of a session: what `~Mailbox` does to the files and to the lock, with and without QUIT.
use simple_pop3serv.Base.{
  ◌≡◌, refl, ap, ◌∙◌, Bool, true, false, ◌&&◌, none, some, if◌then◌else◌, All, Bytes, NoNul,
  c_str-NoNul, bytes_eq, not, ok, sym, ok-injective, bind-ok,
}
use simple_pop3serv.Mail.Disk.{FilePath, find_file}
use simple_pop3serv.Mail.Storage.{Storage}
use simple_pop3serv.Mail.Storage.Close.{is_refused}
use simple_pop3serv.Mail.Mailbox.{Mailbox, set_update, destroy_storages}
use simple_pop3serv.Mail.Mailbox.Valid.{IsValid, operations-IsValid}
use simple_pop3serv.Mail.Mailbox.Close.{
  lists_file, removes_file, Quiet, Quiet-set_update, Quiet-unset, destroy_storages-Leaves,
  removes_file-set_update, removes_file-unset,
}
use simple_pop3serv.Service.Registry.{ActiveMailboxes, is_active, is_active-erase, unlock_mailbox}
use simple_pop3serv.Service.Lock.{MailboxLock, held, destroy_lock}
use simple_pop3serv.Service.Connect.{World}
use simple_pop3serv.Session.{Session, destroy_mailbox}
use simple_pop3serv.Session.Read.{on_written}

pub destroy_mailbox-files :
    (world : World) (m : Mailbox)
    → IsValid m
    → Quiet world.disk.refuses m.storages
    → (world' : World) × (destroy_mailbox world (some m) ≡ ok world')
      × (world'.active ≡ destroy_lock world.active m.lock)
      × (world'.disk.refuses ≡ world.disk.refuses)
      × ((q : FilePath)
          → find_file world'.disk.files q
            ≡ (if removes_file m.storages q then none else find_file world.disk.files q))
unfolding destroy_mailbox
destroy_mailbox-files world m v quiet =
    let l = destroy_storages-Leaves m.storages world.disk v quiet in
    (
      record { active = destroy_lock world.active m.lock; disk = l.left },
      rw l.returns,
      refl,
      l.same_refuses,
      l.found,
    )

-- A mailbox that is destroyed has given its lock back, whatever became of the files.
pub destroy_mailbox-unlocks :
    (world world' : World) (m : Mailbox)
    → destroy_mailbox world (some m) ≡ ok world'
    → world'.active ≡ destroy_lock world.active m.lock
unfolding destroy_mailbox
destroy_mailbox-unlocks world world' m e =
    let (disk', first, rest) = bind-ok (destroy_storages m.storages world.disk) _ e in
    ap (λ (w : World). w.active) (sym (ok-injective rest))

pub is_active-destroy_lock :
    (active : ActiveMailboxes) (lock : MailboxLock) (name other : Bytes)
    → lock ≡ held name
    → NoNul name
    → is_active (destroy_lock active lock) other
      ≡ (not (bytes_eq name other) && is_active active other)
unfolding destroy_lock unlock_mailbox
is_active-destroy_lock active lock name other e plain =
    rw (e, c_str-NoNul name plain) (is_active-erase active name other)

-- What is left when a mailbox goes: its name is free and the other names are as they were, and of
-- the files those are gone that are in `gone`.
pub record IsClosed (world : World) (name : Bytes) (gone : FilePath → Bool) (world' : World)
    : Type 0 where
  pub released :
      (other : Bytes)
      → is_active world'.active other ≡ (not (bytes_eq name other) && is_active world.active other)
  pub removed :
      (q : FilePath)
      → find_file world'.disk.files q ≡ (if gone q then none else find_file world.disk.files q)

module _ (world : World) (s : Session) (m : Mailbox) (here : s.mailbox ≡ some m) (valid : IsValid m)
    (locked : m.lock ≡ held m.name) (plain : NoNul m.name) where
  -- A session with a valid mailbox that holds its lock, under a name without NUL, ends by QUIT, and
  -- the system does not refuse to remove the file of a number in the lists of deletions: once the
  -- response is written, the mailbox is destroyed without a fault, its name and no other is
  -- unlocked, and exactly the files of the numbers in the lists of deletions of its storages are
  -- removed, whether `deleteAll` was called or not.
  pub on_written-IsClosed :
      s.quit_command_received ≡ true
      → All
          (λ (t : Storage). is_refused world.disk.refuses t.emails t.emails_to_be_deleted ≡ false)
          m.storages
      → (world' : World) × (destroy_mailbox world (on_written s).0.mailbox ≡ ok world')
        × IsClosed world m.name (lists_file m.storages) world'
  unfolding on_written set_update
  on_written-IsClosed quit unrefused =
      let (world', e, active, same, found) =
        destroy_mailbox-files world (set_update m) (operations-IsValid m 0 valid).3
          (Quiet-set_update world.disk.refuses m.storages unrefused) in
      (
        world',
        rw (quit, here) e,
        record {
          released = λ other.
              ap (λ (a : ActiveMailboxes). is_active a other) active
              ∙ is_active-destroy_lock world.active m.lock m.name other locked plain;
          removed = λ q.
              found q
              ∙ ap (λ (b : Bool). if b then none else find_file world.disk.files q)
                  (removes_file-set_update m.storages q);
        },
      )

  -- A valid mailbox that holds its lock, under a name without NUL, and has no update flag set, is
  -- destroyed with its session: there is no fault, its name and no other is unlocked, and every
  -- file stays, marked or not.
  pub destroy_mailbox-IsClosed :
      All (λ (t : Storage). t.update_at_close ≡ false) m.storages
      → (world' : World) × (destroy_mailbox world s.mailbox ≡ ok world')
        × IsClosed world m.name (λ q. false) world'
  destroy_mailbox-IsClosed unset =
      let (world', e, active, same, found) =
        destroy_mailbox-files world m valid (Quiet-unset world.disk.refuses m.storages unset) in
      (
        world',
        rw here e,
        record {
          released = λ other.
              ap (λ (a : ActiveMailboxes). is_active a other) active
              ∙ is_active-destroy_lock world.active m.lock m.name other locked plain;
          removed = λ q.
              found q
              ∙ ap (λ (b : Bool). if b then none else find_file world.disk.files q)
                  (removes_file-unset m.storages q unset);
        },
      )
