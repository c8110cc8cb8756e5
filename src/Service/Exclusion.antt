-- ===== src/Service/Exclusion.antt =====
-- The locks of all sessions together: any number of `MailboxLock` objects over the one set of
-- active mailboxes, made, moved and destroyed in any order.
use simple_pop3serv.Base.{
  ℕ, ◌+◌, ◌≤◌, ◌≡◌, ◌↔◌, refl, ◌∙◌, true, ◌&&◌, List, [], ◌∷◌, ◌++◌, arith, Bytes, NoNul,
  c_str-NoNul, All, All-append, All-append_left, All-append_right, bytes_eq, bytes_eq_iff, one_if,
}
use simple_pop3serv.Service.Registry.{
  ActiveMailboxes, is_active, is_active-erase, lock_mailbox, unlock_mailbox,
}
use simple_pop3serv.Service.Lock.{MailboxLock, new_lock, move_lock, destroy_lock}

-- The set, and the lock objects that live.
pub record Locks : Type 0 where
  pub active : ActiveMailboxes
  pub live : List MailboxLock

abbrev pub no_locks : Locks
no_locks = record { active = []; live = [] }

abbrev pub make_lock : Locks → Bytes → Locks
make_lock l name = record {
  active = (new_lock l.active name).0;
  live = (new_lock l.active name).1 ∷ l.live;
}

-- One constructor, move or destructor of a lock. Names hold no NUL.
pub data Step : Locks → Locks → Type 0 where
  lock_made : (l : Locks) (name : Bytes) → NoNul name → Step l (make_lock l name)
  lock_moved :
      (active : ActiveMailboxes) (before after : List MailboxLock) (lock : MailboxLock)
      → Step
          (record { active = active; live = before ++ lock ∷ after })
          (record {
            active = active;
            live = before ++ (move_lock lock).0 ∷ (move_lock lock).1 ∷ after;
          })
  lock_dropped :
      (active : ActiveMailboxes) (before after : List MailboxLock) (lock : MailboxLock)
      → Step
          (record { active = active; live = before ++ lock ∷ after })
          (record { active = destroy_lock active lock; live = before ++ after })

pub data Reach (start : Locks) : Locks → Type 0 where
  here : Reach start start
  next : {l k : Locks} → Reach start l → Step l k → Reach start k

-- How many of the locks hold the name.
abbrev pub holders : List MailboxLock → Bytes → ℕ
holders [] name = 0
holders (lock ∷ live) name = one_if (lock.acquired && bytes_eq lock.name name) + holders live name

abbrev ArePlain : List MailboxLock → Type 0
ArePlain = All (λ (lock : MailboxLock). NoNul lock.name)

record Agrees (l : Locks) : Type 0 where
  plain : ArePlain l.live
  held : (name : Bytes) → holders l.live name ≡ one_if (is_active l.active name)

module _ (before after : List MailboxLock) (lock : MailboxLock)
    (h : ArePlain (before ++ lock ∷ after)) where
  left : ArePlain before
  left = All-append_left _ before (lock ∷ after) h

  right : ArePlain (lock ∷ after)
  right = All-append_right _ before (lock ∷ after) h

holders-append :
    (xs ys : List MailboxLock) (name : Bytes)
    → holders (xs ++ ys) name ≡ holders xs name + holders ys name
holders-append [] ys name = omega arith
holders-append (x ∷ xs) ys name = omega (arith, holders-append xs ys name)

make-held :
    (l : Locks) (name other : Bytes)
    → Agrees l
    → holders ((new_lock l.active name).1 ∷ l.live) other
      ≡ one_if (is_active (new_lock l.active name).0 other)
unfolding new_lock lock_mailbox is_active
make-held l name other h = ground (arith, h.held other, bytes_eq_iff name other)

drop-held :
    (active : ActiveMailboxes) (before after : List MailboxLock) (lock : MailboxLock)
    (other : Bytes)
    → NoNul lock.name
    → holders (before ++ lock ∷ after) other ≡ one_if (is_active active other)
    → holders (before ++ after) other ≡ one_if (is_active (destroy_lock active lock) other)
unfolding destroy_lock unlock_mailbox
drop-held active before after lock other plain h = rw (c_str-NoNul lock.name plain) (
    ground (
      arith,
      holders-append before (lock ∷ after) other,
      holders-append before after other,
      is_active-erase active lock.name other,
    ))

move-held :
    (before after : List MailboxLock) (lock : MailboxLock) (other : Bytes)
    → holders (before ++ (move_lock lock).0 ∷ (move_lock lock).1 ∷ after) other
      ≡ holders (before ++ lock ∷ after) other
unfolding move_lock
move-held before after lock other = ground (
  arith,
  holders-append before (lock ∷ after) other,
  holders-append before ((move_lock lock).0 ∷ (move_lock lock).1 ∷ after) other,
)

Step-Agrees : {l k : Locks} → Step l k → Agrees l → Agrees k
unfolding new_lock move_lock
Step-Agrees (lock_made l name plain) h = record {
  plain = (plain, h.plain);
  held = λ other. make-held l name other h;
}
Step-Agrees (lock_moved active before after lock) h = record {
  plain = All-append _ before _ (left before after lock h.plain) (
    (right before after lock h.plain).0,
    ((right before after lock h.plain).0, (right before after lock h.plain).1),
  );
  held = λ other. move-held before after lock other ∙ h.held other;
}
Step-Agrees (lock_dropped active before after lock) h = record {
  plain =
      All-append _ before after (left before after lock h.plain)
        (right before after lock h.plain).1;
  held = λ other.
      drop-held active before after lock other (right before after lock h.plain).0 (h.held other);
}

Reach-Agrees : {l : Locks} → Reach no_locks l → Agrees l
unfolding is_active
Reach-Agrees here = record { plain = tt; held = λ name. refl }
Reach-Agrees (next r s) = Step-Agrees s (Reach-Agrees r)

-- In whatever order locks on names without NUL are made, moved and destroyed, from no locks on, a
-- name is held by at most one lock, and by one exactly if it is in the set of active mailboxes.
pub holders-Reach :
    (l : Locks) (name : Bytes)
    → Reach no_locks l
    → (holders l.live name ≤ 1) × ((holders l.live name ≡ 1) ↔ (is_active l.active name ≡ true))
holders-Reach l name r = ground (arith, (Reach-Agrees r).held name)
