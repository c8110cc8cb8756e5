-- ===== src/Server/Safety.antt =====
-- What the invariant says of the sessions: identifiers, locks, and handlers that find their session.
use simple_pop3serv.Base.{
  ◌+◌, ℕ, ◌≤◌, ◌<◌, ◌≡◌, refl, sym, ap, ◌∙◌, subst, Bool, true, false, Option, none, some, List, [],
  ◌∷◌, ◌++◌, ◌==◌, one_if, arith, Bytes, total, ok, Bool-cases, inl, inr,
}
use simple_pop3serv.Protocol.Boost.{Boost, BoostLaws}
use simple_pop3serv.Mail.Mailbox.{Mailbox}
use simple_pop3serv.Mail.Mailbox.Total.{IsOk}
use simple_pop3serv.Service.Registry.{is_active}
use simple_pop3serv.Service.Connect.{World, Settings}
use simple_pop3serv.Session.{SessionState, authorization, transaction, update, destroy_mailbox}
use simple_pop3serv.Session.Shrink.{destroy_mailbox-returns}
use simple_pop3serv.Session.Owner.{OwnedIn}
use simple_pop3serv.Server.{Node, System, Event, is_due, is_listed, handle}
use simple_pop3serv.Server.Counted.{
  is_busy, occurrences, has_id, busy_with_id, holds_name, IsCounted, total-at, AllOwn-here, AllOwn,
}
use simple_pop3serv.Server.Handled.{handle-IsOk, is_line}
use simple_pop3serv.Mail.Disk.{FilePath}
use simple_pop3serv.Server.Plain.{PlainReach}
use simple_pop3serv.Server.Reachable.{IsFresh, Reach-IsCounted, holds-freed}

one_if-le : (b : Bool) → one_if b ≤ 1
one_if-le b = ground arith

-- The session at its place in the list counts once at least.
pub busy-listed :
    (y : System) (before after : List Node) (n : Node)
    → y.objects ≡ before ++ n ∷ after
    → IsCounted y
    → is_busy n.io ≡ true
    → 0 < occurrences n.session_id y.shared.sessions
busy-listed y before after n at h busy =
    let id = n.session_id in
    let here = total-at (busy_with_id id) before after n in
    let all = ap (total (busy_with_id id)) (sym at) ∙ h.listed id in
    let one : busy_with_id id n ≡ 1 = ground arith in omega arith

-- The system refuses to remove no file.
abbrev pub Removes : World → Type 0
Removes world = (q : FilePath) → world.disk.refuses q ≡ false

-- Where no removal is refused, the mailbox of a session goes without a fault, and none is refused
-- afterwards.
pub destroy_mailbox-gone :
    (world : World) (t : SessionState) (o : Option Mailbox)
    → OwnedIn t o
    → Removes world
    → (world' : World) × (destroy_mailbox world o ≡ ok world') × Removes world'
destroy_mailbox-gone world authorization none h never =
    (world, unfold destroy_mailbox in refl, never)
destroy_mailbox-gone world transaction (some m) h never =
    let (w, e, same) = destroy_mailbox-returns world m h never in
    (
      w,
      e,
      subst (λ (refuses : FilePath → Bool). (q : FilePath) → refuses q ≡ false) (sym same) never,
    )
destroy_mailbox-gone world authorization (some m) h never = elim h [ ]
destroy_mailbox-gone world transaction none h never = elim h [ ]
destroy_mailbox-gone world update o h never = elim h [ ]

pub occurrences-is_listed : (id : ℕ) (xs : List ℕ) → occurrences id xs ≡ 0 → is_listed xs id ≡ false
unfolding is_listed
occurrences-is_listed id [] e = refl
occurrences-is_listed id (x ∷ xs) e = elim (Bool-cases (x == id)) [
  | inl same ↦ absurd (ground arith)
  | inr other ↦ rw other (occurrences-is_listed id xs (ground arith))
]

module _ {boost : Boost} (laws : BoostLaws boost) (settings : Settings) (world : World)
    (fresh : IsFresh world) where
  -- If no mailbox is active at the start and there are fewer than 2 ^ 64 files: in every state that the server reaches by lines without NUL, for every name, the
  -- number of session objects whose mailbox holds the lock on the name is one if the name is
  -- among the active mailboxes, and zero if not.
  pub holders-is_active :
      (y : System)
      → PlainReach boost settings world y
      → (name : Bytes)
      → total (holds_name name) y.objects ≡ one_if (is_active y.shared.world.active name)
  holders-is_active y r = (Reach-IsCounted laws settings world fresh r).active

  pub sessions-listed_once :
      (y : System)
      → PlainReach boost settings world y
      → (id : ℕ)
      → (total (has_id id) y.objects ≤ 1)
        × (total (busy_with_id id) y.objects ≡ occurrences id y.shared.sessions)
  sessions-listed_once y r id =
      let h = Reach-IsCounted laws settings world fresh r in (ground (arith, h.ids id), h.listed id)

  -- If no mailbox is active at the start and there are fewer than 2 ^ 64 files: in every state that the server reaches by lines without NUL, when an operation
  -- of a session that is under way ends with anything but a line, its handler returns; so
  -- deleteFromSessions never erases the end of the list.
  pub handle-returns :
      (y : System) (before after : List Node) (n : Node) (ev : Event)
      → PlainReach boost settings world y
      → y.objects ≡ before ++ n ∷ after
      → is_due ev n.io n.timer ≡ true
      → is_line ev ≡ false
      → IsOk (handle boost settings ev y.shared n)
  handle-returns y before after n ev r at due other =
      let h = Reach-IsCounted laws settings world fresh r in
      handle-IsOk y.shared n (AllOwn-here before after n (subst AllOwn at h.owns)) h.small laws
        settings ev other due (busy-listed y before after n at h)

  -- If no mailbox is active at the start and there are fewer than 2 ^ 64 files: in every state that the server reaches by lines without NUL, if the system refuses
  -- to remove no file, the destruction of any session object does not fault, and afterwards a name is among the active mailboxes
  -- exactly if it was before and the object did not hold its lock.
  pub destroy_mailbox-releases :
      (y : System) (before after : List Node) (n : Node)
      → PlainReach boost settings world y
      → y.objects ≡ before ++ n ∷ after
      → Removes y.shared.world
      → (world' : World) × (destroy_mailbox y.shared.world n.session.mailbox ≡ ok world')
        × ((name : Bytes)
            → one_if (is_active world'.active name) + holds_name name n
              ≡ one_if (is_active y.shared.world.active name))
  destroy_mailbox-releases y before after n r at never =
      let h = Reach-IsCounted laws settings world fresh r in
      let own = (AllOwn-here before after n (subst AllOwn at h.owns)).owned in
      let (world', e, still) =
        destroy_mailbox-gone y.shared.world n.session.state n.session.mailbox own never in
      (
        world',
        e,
        λ name.
            let all = ap (total (holds_name name)) (sym at) ∙ h.active name in
            let split = total-at (holds_name name) before after n in
            holds-freed y.shared.world world' n.session.state n.session.mailbox name own e
              (omega arith),
      )

-- Without objects nothing is left.
pub empty-IsFree :
    (y : System)
    → IsCounted y
    → y.objects ≡ []
    → (name : Bytes) → is_active y.shared.world.active name ≡ false
empty-IsFree y h e name =
    let none_holds = ap (total (holds_name name)) (sym e) ∙ h.active name in ground arith
