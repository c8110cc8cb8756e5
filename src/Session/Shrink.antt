-- ===== src/Session/Shrink.antt =====
-- Destroying a mailbox leaves no more files than there were, and gives its name free.
use simple_pop3serv.Base.{
  ℕ, ◌≤◌, ◌≡◌, ap, ◌∙◌, not, ◌&&◌, Option, none, some, List, [], ◌∷◌, arith, Bytes, bytes_eq,
  length, get_elem?, Option-cases, Bool-cases, inl, inr, ok, Ensures, Ensures-bind, Ensures-ok,
  Ensures-mono, false,
}
use simple_pop3serv.Mail.Disk.{Disk, FilePath, remove, removed, without_file-le}
use simple_pop3serv.Mail.Storage.{Storage, remove_emails, destroy}
use simple_pop3serv.Mail.Mailbox.{Mailbox, destroy_storages}
use simple_pop3serv.Service.Registry.{is_active}
use simple_pop3serv.Service.Connect.{World}
use simple_pop3serv.Session.{destroy_mailbox}
use simple_pop3serv.Mail.Mailbox.Close.{Quiet-never}
use simple_pop3serv.Session.Close.{
  destroy_mailbox-files, destroy_mailbox-unlocks, is_active-destroy_lock,
}
use simple_pop3serv.Session.Owner.{IsOwned}

abbrev FewerFiles : Disk → Disk → Type 0
FewerFiles disk disk' = length disk'.files ≤ length disk.files

fewer_after_remove :
    (disk : Disk) (p : FilePath) (disk' : Disk)
    → FewerFiles (removed disk p) disk'
    → FewerFiles disk disk'
fewer_after_remove disk p disk' h = omega (arith, without_file-le p disk.files)

remove_emails-FewerFiles :
    (emails : List FilePath) (ns : List ℕ) (disk : Disk)
    → Ensures (FewerFiles disk) (remove_emails emails ns disk)
unfolding remove_emails remove
remove_emails-FewerFiles emails [] disk = omega arith
remove_emails-FewerFiles emails (n ∷ ns) disk = elim (Option-cases (get_elem? emails n)) [
  | inl missing ↦ rw (missing, remove_emails) tt
  | inr (p, found) ↦
      rw (found, remove_emails)
        (elim (Bool-cases (disk.refuses p)) [
          | inl refused ↦ rw refused tt
          | inr quiet ↦ rw quiet (
              Ensures-mono (FewerFiles (removed disk p)) (FewerFiles disk)
                (remove_emails emails ns (removed disk p)) (fewer_after_remove disk p)
                (remove_emails-FewerFiles emails ns (removed disk p)))
        ])
]

destroy-FewerFiles : (s : Storage) (disk : Disk) → Ensures (FewerFiles disk) (destroy s disk)
unfolding destroy
destroy-FewerFiles s disk = elim (Bool-cases s.update_at_close) [
  | inl e ↦ rw e (remove_emails-FewerFiles s.emails s.emails_to_be_deleted disk)
  | inr e ↦ rw e (omega arith)
]

destroy_storages-FewerFiles :
    (ss : List Storage) (disk : Disk) → Ensures (FewerFiles disk) (destroy_storages ss disk)
unfolding destroy_storages
destroy_storages-FewerFiles [] disk = omega arith
destroy_storages-FewerFiles (s ∷ ss) disk =
    Ensures-bind (FewerFiles disk) (destroy s disk) (destroy_storages ss) (λ d e.
      let first = Ensures-ok (FewerFiles disk) (destroy s disk) d (destroy-FewerFiles s disk) e in
      Ensures-mono (FewerFiles d) (FewerFiles disk) (destroy_storages ss d) (λ d' h. omega arith)
        (destroy_storages-FewerFiles ss d))

-- A mailbox that goes leaves no more files than there were.
pub destroy_mailbox-le :
    (world : World) (o : Option Mailbox)
    → Ensures
        (λ (world' : World). length world'.disk.files ≤ length world.disk.files)
        (destroy_mailbox world o)
unfolding destroy_mailbox
destroy_mailbox-le world none = omega arith
destroy_mailbox-le world (some m) =
    Ensures-bind (λ (world' : World). length world'.disk.files ≤ length world.disk.files)
      (destroy_storages m.storages world.disk) _
      (λ d e.
        Ensures-ok (FewerFiles world.disk) (destroy_storages m.storages world.disk) d
          (destroy_storages-FewerFiles m.storages world.disk) e)

-- A mailbox that a session owns goes without a fault where no removal is refused, and gives its name
-- free.
pub destroy_mailbox-returns :
    (world : World) (m : Mailbox)
    → IsOwned m
    → ((q : FilePath) → world.disk.refuses q ≡ false)
    → (world' : World) × (destroy_mailbox world (some m) ≡ ok world')
      × (world'.disk.refuses ≡ world.disk.refuses)
destroy_mailbox-returns world m h never =
    let (world', e, active, same, found) =
      destroy_mailbox-files world m h.valid (Quiet-never world.disk.refuses m.storages never) in
    (world', e, same)

-- A mailbox that a session owned has given its name free once it is gone.
pub destroy_mailbox-active :
    (world world' : World) (m : Mailbox)
    → IsOwned m
    → destroy_mailbox world (some m) ≡ ok world'
    → (name : Bytes)
    → is_active world'.active name ≡ (not (bytes_eq m.name name) && is_active world.active name)
destroy_mailbox-active world world' m h e name =
    ap (λ a. is_active a name) (destroy_mailbox-unlocks world world' m e)
    ∙ is_active-destroy_lock world.active m.lock m.name name h.locked h.plain
