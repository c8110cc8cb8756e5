-- ===== src/Server/Reachable.antt =====
-- What holds of every system that the server reaches.
use simple_pop3serv.Base.{
  ℕ, ◌+◌, ◌≤◌, ◌<◌, ◌≡◌, refl, sym, ap, ◌∙◌, subst, ok-injective, true, false, ◌&&◌, List, ◌∷◌,
  ◌++◌, one_if, arith, Bytes, bytes_eq, length, size_mod, total, ok, Ensures-ok, Option, none, some,
}
use simple_pop3serv.Protocol.Boost.{Boost, BoostLaws}
use simple_pop3serv.Mail.Mailbox.{Mailbox}
use simple_pop3serv.Service.Lock.{MailboxLock}
use simple_pop3serv.Service.Registry.{is_active}
use simple_pop3serv.Service.Connect.{World, Settings}
use simple_pop3serv.Session.{SessionState, authorization, transaction, update, destroy_mailbox}
use simple_pop3serv.Session.Shrink.{destroy_mailbox-le, destroy_mailbox-active}
use simple_pop3serv.Server.Plain.{PlainStep, PlainReach, ReadsPlain}
use simple_pop3serv.Session.Owner.{OwnedIn, holds}
use simple_pop3serv.Server.{
  SocketIo, Wait, Node, Shared, System, handle, accept_session, is_released, start, Step, accepted,
  accept_failed, accept_aborted, handled, destroyed, server_cancelled, Reach, started, goes_on,
}
use simple_pop3serv.Server.Counted.{
  is_busy, has_id, busy_with_id, holds_name, IsCounted, Balanced, Balanced-IsCounted, AllOwn,
  total-at, AllOwn-here, AllOwn-others,
}
use simple_pop3serv.Server.Cancelled.{cancel-IsCounted}
use simple_pop3serv.Server.Handled.{handle-Balancing}

start-IsCounted :
    (world : World)
    → ((name : Bytes) → is_active world.active name ≡ false)
    → length world.disk.files < size_mod
    → IsCounted (start world)
start-IsCounted world free small = record {
  ids = λ id. omega arith;
  listed = λ id. refl;
  active = λ name. ap one_if (sym (free name));
  owns = tt;
  small = small;
}

accept-IsCounted :
    (now : ℕ) (y : System)
    → y.counter + 1 < size_mod
    → IsCounted y
    → IsCounted (accept_session now y)
unfolding accept_session
accept-IsCounted now y room h = record {
  ids = λ id. ground (arith, h.ids id);
  listed = λ id. ground (arith, h.listed id);
  active = λ name. ground (arith, h.active name);
  owns = (record { owned = tt; plain_name = tt }, h.owns);
  small = h.small;
}

abbrev FewerFilesIn : World → World → Type 0
FewerFilesIn world world' = length world'.disk.files ≤ length world.disk.files

-- The name that an object held is free once it is destroyed.
pub holds-freed :
    (world world' : World) (t : SessionState) (o : Option Mailbox) (name : Bytes)
    → OwnedIn t o
    → destroy_mailbox world o ≡ ok world'
    → holds o name ≤ one_if (is_active world.active name)
    → one_if (is_active world'.active name) + holds o name ≡ one_if (is_active world.active name)
holds-freed world world' authorization none name h e k =
    let same : world ≡ world' = ok-injective (unfold destroy_mailbox in e) in
    omega (arith, ap (λ (w : World). one_if (is_active w.active name)) same)
holds-freed world world' transaction (some m) name h e k =
    let freed = destroy_mailbox-active world world' m h e name in
    let hold : holds (some m) name ≡ one_if (bytes_eq m.name name) =
      ap (λ (l : MailboxLock). one_if (l.acquired && bytes_eq l.name name)) h.locked in
    ground (arith, freed, hold, k)
holds-freed world world' authorization (some m) name h e k = elim h [ ]
holds-freed world world' transaction none name h e k = elim h [ ]
holds-freed world world' update o name h e k = elim h [ ]

idle-released : (io : SocketIo) (t : Wait) → is_released io t ≡ true → is_busy io ≡ false
unfolding is_released
idle-released io t r = ground arith

pub released-not_busy :
    (id : ℕ) (n : Node) → is_released n.io n.timer ≡ true → busy_with_id id n ≡ 0
released-not_busy id n r = ground (arith, idle-released n.io n.timer r)

module _ (y : System) (before after : List Node) (n : Node) where
  destroyed-IsCounted :
      (world : World)
      → y.objects ≡ before ++ n ∷ after
      → is_released n.io n.timer ≡ true
      → destroy_mailbox y.shared.world n.session.mailbox ≡ ok world
      → IsCounted y
      → IsCounted
          (record y { shared = record y.shared { world = world }; objects = before ++ after })
  destroyed-IsCounted world at r e h =
      let own = AllOwn-here before after n (subst AllOwn at h.owns) in
      record {
        ids = λ id.
            omega (arith, h.ids id, ap (total (has_id id)) at, total-at (has_id id) before after n);
        listed = λ id. omega (
          arith,
          h.listed id,
          ap (total (busy_with_id id)) at,
          total-at (busy_with_id id) before after n,
          released-not_busy id n r,
        );
        active = λ name.
            let before_it = ap (total (holds_name name)) (sym at) ∙ h.active name in
            let split = total-at (holds_name name) before after n in
            let freed =
              holds-freed y.shared.world world n.session.state n.session.mailbox name own.owned e
                (omega arith) in
            omega arith;
        owns = AllOwn-others before after n (subst AllOwn at h.owns);
        small =
            let fewer =
              Ensures-ok (FewerFilesIn y.shared.world)
                (destroy_mailbox y.shared.world n.session.mailbox) world
                (destroy_mailbox-le y.shared.world n.session.mailbox) e in
            omega (arith, h.small);
      }

-- Every step keeps the invariant.
Step-IsCounted :
    (boost : Boost) (laws : BoostLaws boost) (settings : Settings)
    → {y z : System} (s : Step boost settings y z) → PlainStep s
    → IsCounted y
    → IsCounted z
Step-IsCounted boost laws settings (accepted y c now waits room) plain h =
    accept-IsCounted now y room h
Step-IsCounted boost laws settings (accept_failed y c waits) plain h = record {
  ids = h.ids;
  listed = h.listed;
  active = h.active;
  owns = h.owns;
  small = h.small;
}
Step-IsCounted boost laws settings (accept_aborted y waits) plain h = record {
  ids = h.ids;
  listed = h.listed;
  active = h.active;
  owns = h.owns;
  small = h.small;
}
Step-IsCounted boost laws settings (handled y ev before after n n' g at due e) plain h =
    let own = AllOwn-here before after n (subst AllOwn at h.owns) in
    Balanced-IsCounted y before after n n' g at
      (Ensures-ok (λ (r : Shared × Node). Balanced y.shared r.0 n r.1)
        (handle boost settings ev y.shared n) (g, n')
        (handle-Balancing y.shared n own h.small laws settings ev plain due) e)
      h
Step-IsCounted boost laws settings (destroyed y before after n world at r unlisted e) plain h =
    destroyed-IsCounted y before after n world at r e h
Step-IsCounted boost laws settings (server_cancelled y) plain h = cancel-IsCounted y h

-- What the server starts from: no mailbox is active, and fewer than 2 ^ 64 files.
pub record IsFresh (world : World) : Type 0 where
  pub free : (name : Bytes) → is_active world.active name ≡ false
  pub small : length world.disk.files < size_mod

module _ {boost : Boost} (laws : BoostLaws boost) (settings : Settings) (world : World)
    (fresh : IsFresh world) where
  ReadsPlain-IsCounted :
      {y : System} (r : Reach boost settings world y) → ReadsPlain r → IsCounted y
  ReadsPlain-IsCounted started p = start-IsCounted world fresh.free fresh.small
  ReadsPlain-IsCounted (goes_on s r) p =
      Step-IsCounted boost laws settings s p.0 (ReadsPlain-IsCounted r p.1)

  pub Reach-IsCounted : {y : System} → PlainReach boost settings world y → IsCounted y
  Reach-IsCounted r = ReadsPlain-IsCounted r.reach r.plain
