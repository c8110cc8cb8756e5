-- ===== src/Session/Owner.antt =====
-- Who holds the lock of a mailbox: a request to a session changes the set of active mailboxes by
-- just what the session takes over.
use simple_pop3serv.Base.{
  ℕ, ◌+◌, ◌≡◌, refl, sym, ap, ◌∙◌, subst, ◌&&◌, Option, none, some, Bytes, NoNul, bytes_eq, one_if,
}
use simple_pop3serv.Mail.Mailbox.{Mailbox}
use simple_pop3serv.Mail.Mailbox.Valid.{IsValid}
use simple_pop3serv.Mail.Mailbox.Follows.{Follows}
use simple_pop3serv.Service.Registry.{is_active}
use simple_pop3serv.Service.Lock.{MailboxLock, held}
use simple_pop3serv.Service.Connect.{World}
use simple_pop3serv.Session.{Session, SessionState, authorization, transaction, update}
use simple_pop3serv.Session.Keeps.{Keeps, FollowsOption}

-- How many locks on the name the mailbox of a session holds.
abbrev pub holds : Option Mailbox → Bytes → ℕ
holds none name = 0
holds (some m) name = one_if (m.lock.acquired && bytes_eq m.lock.name name)

-- A valid mailbox that holds the lock on its name.
pub record IsOwned (m : Mailbox) : Type 0 where
  pub valid : IsValid m
  pub locked : m.lock ≡ held m.name
  pub plain : NoNul m.name

abbrev pub OwnedIn : SessionState → Option Mailbox → Type 0
OwnedIn authorization none = Unit
OwnedIn transaction (some m) = IsOwned m
OwnedIn _ _ = ⊥

pub record Owns (s : Session) : Type 0 where
  pub owned : OwnedIn s.state s.mailbox
  pub plain_name : NoNul s.user_name

-- The step from one session and world to the next: the set grows by what the session takes over.
pub record Balances (s : Session) (world : World) (r : Session × World) : Type 0 where
  pub owns : Owns r.0
  pub balance :
      (name : Bytes)
      → holds r.0.mailbox name + one_if (is_active world.active name)
        ≡ holds s.mailbox name + one_if (is_active r.1.active name)
  pub same_files : r.1.disk.files ≡ world.disk.files

Follows-IsOwned : (m m' : Mailbox) → Follows m m' → IsOwned m → IsOwned m'
Follows-IsOwned m m' f h = record {
  valid = f.still_valid h.valid;
  locked = f.same_lock ∙ h.locked ∙ ap held (sym f.same_name);
  plain = subst NoNul (sym f.same_name) h.plain;
}

FollowsOption-OwnedIn :
    (t : SessionState) (o o' : Option Mailbox) → FollowsOption o o' → OwnedIn t o → OwnedIn t o'
FollowsOption-OwnedIn authorization none none f h = tt
FollowsOption-OwnedIn authorization none (some m') f h = elim f [ ]
FollowsOption-OwnedIn authorization (some m) _ f h = elim h [ ]
FollowsOption-OwnedIn transaction (some m) (some m') f h = Follows-IsOwned m m' f h
FollowsOption-OwnedIn transaction none _ f h = elim h [ ]
FollowsOption-OwnedIn transaction (some m) none f h = elim f [ ]
FollowsOption-OwnedIn update o _ f h = elim h [ ]

pub FollowsOption-holds :
    (o o' : Option Mailbox) (name : Bytes) → FollowsOption o o' → holds o' name ≡ holds o name
FollowsOption-holds none none name f = refl
FollowsOption-holds none (some m') name f = elim f [ ]
FollowsOption-holds (some m) none name f = elim f [ ]
FollowsOption-holds (some m) (some m') name f =
    ap (λ (lock : MailboxLock). one_if (lock.acquired && bytes_eq lock.name name)) f.same_lock

pub Keeps-Owns : (s s' : Session) → Keeps s s' → Owns s → Owns s'
Keeps-Owns s s' k h = record {
  owned =
      subst (λ (t : SessionState). OwnedIn t s'.mailbox) (sym k.same_state)
        (FollowsOption-OwnedIn s.state s.mailbox s'.mailbox k.follows h.owned);
  plain_name = subst NoNul (sym k.same_user) h.plain_name;
}

-- The session keeps what it has, and the world is as it was.
pub Keeps-Balances :
    (s s' : Session) (world : World) → Keeps s s' → Owns s → Balances s world (s', world)
Keeps-Balances s s' world k h = record {
  owns = Keeps-Owns s s' k h;
  balance = λ name.
      ap (λ (n : ℕ). n + one_if (is_active world.active name))
        (FollowsOption-holds s.mailbox s'.mailbox name k.follows);
  same_files = refl;
}
