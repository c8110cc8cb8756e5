-- ===== src/Service/Registry.antt =====
-- `MailboxServiceManager::LockMailbox` and `UnlockMailbox` over the set `activeMailboxes`. Both run
-- under one mutex, so each is one step.
use simple_pop3serv.Base.{
  ◌≡◌, refl, Bool, true, false, not, ◌||◌, ◌&&◌, List, [], ◌∷◌, if◌then◌else◌, arith, Bytes,
  bytes_eq, bytes_eq_iff, bytes_eq_refl, c_str,
}

-- std::set<std::string>; the program never walks through it, so the order is not modelled.
abbrev pub ActiveMailboxes : Type 0
ActiveMailboxes = List Bytes

-- `find(name) != end()`
unfoldable pub is_active : ActiveMailboxes → Bytes → Bool
is_active [] name = false
is_active (a ∷ active) name = bytes_eq a name || is_active active name

unfoldable pub lock_mailbox : ActiveMailboxes → Bytes → ActiveMailboxes × Bool
lock_mailbox active name = if is_active active name then (active, false) else (name ∷ active, true)

unfoldable pub erase : ActiveMailboxes → Bytes → ActiveMailboxes
erase [] name = []
erase (a ∷ active) name = let rest = erase active name in if bytes_eq a name then rest else a ∷ rest

-- `activeMailboxes.erase(name.data())`: the key is the C string in `name`.
unfoldable pub unlock_mailbox : ActiveMailboxes → Bytes → ActiveMailboxes
unlock_mailbox active name = erase active (c_str name)

pub is_active-erase :
    (active : ActiveMailboxes) (name other : Bytes)
    → is_active (erase active name) other ≡ (not (bytes_eq name other) && is_active active other)
unfolding is_active erase
is_active-erase [] name other = ground arith
is_active-erase (a ∷ active) name other = ground (
  arith,
  is_active-erase active name other,
  bytes_eq_iff a name,
  bytes_eq_iff a other,
  bytes_eq_iff name other,
)

-- Erasing a name that was put in front of a set without it gives the set back.
pub erase_absent :
    (active : ActiveMailboxes) (name : Bytes)
    → is_active active name ≡ false
    → erase active name ≡ active
unfolding is_active erase
erase_absent [] name h = refl
erase_absent (a ∷ active) name h = ground (arith, erase_absent active name)

pub erase_front :
    (active : ActiveMailboxes) (name : Bytes)
    → is_active active name ≡ false
    → erase (name ∷ active) name ≡ active
unfolding erase
erase_front active name free = ground (arith, bytes_eq_refl name, erase_absent active name free)
