-- ===== src/Service/Lock.antt =====
-- MailboxLock.{h,cpp}: the object that holds the lock of a mailbox while it lives.
use simple_pop3serv.Base.{
  ◌≡◌, inl, inr, Bool, false, true, if◌then◌else◌, Bytes, NoNul, c_str-NoNul, Bool-cases,
}
use simple_pop3serv.Service.Registry.{
  ActiveMailboxes, is_active, lock_mailbox, unlock_mailbox, erase_front,
}

pub record MailboxLock : Type 0 where
  pub name : Bytes
  pub acquired : Bool

-- A lock that was acquired.
abbrev pub held : Bytes → MailboxLock
held name = record { name = name; acquired = true }

-- The constructor: it tries the lock.
unfoldable pub new_lock : ActiveMailboxes → Bytes → ActiveMailboxes × MailboxLock
new_lock active name =
    let (active', acquired) = lock_mailbox active name in
    (active', record { name = name; acquired = acquired })

-- The move constructor: what is left of the moved lock, and the new one.
unfoldable pub move_lock : MailboxLock → MailboxLock × MailboxLock
move_lock moved =
    (record moved { acquired = false }, record { name = moved.name; acquired = moved.acquired })

-- The destructor.
unfoldable pub destroy_lock : ActiveMailboxes → MailboxLock → ActiveMailboxes
destroy_lock active lock = if lock.acquired then unlock_mailbox active lock.name else active

-- A lock on a name without NUL that is made and destroyed leaves the set as it was, whether it was
-- acquired or not.
pub destroy_lock-new_lock :
    (active : ActiveMailboxes) (name : Bytes)
    → NoNul name
    → destroy_lock (new_lock active name).0 (new_lock active name).1 ≡ active
unfolding destroy_lock new_lock lock_mailbox unlock_mailbox
destroy_lock-new_lock active name h = elim (Bool-cases (is_active active name)) [
  | inl taken ↦ rw taken
  | inr free ↦ rw free (rw (c_str-NoNul name h) (erase_front active name free))
]
