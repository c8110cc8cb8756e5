-- ===== src/Server/Plain.antt =====
-- Runs of the server in which no line that is read holds a NUL. A name with a NUL is locked whole and
-- unlocked up to the NUL, so it would stay among the active mailboxes.
use simple_pop3serv.Base.{NoNul}
use simple_pop3serv.Protocol.Boost.{Boost}
use simple_pop3serv.Service.Connect.{World, Settings}
use simple_pop3serv.Server.{
  System, Event, line_read, written, read_failed, write_failed, timer_expired, timer_aborted,
  timer_failed, Step, accepted, accept_failed, accept_aborted, handled, destroyed, server_cancelled,
  Reach, started, goes_on,
}

-- A line, if the event is one, holds no NUL.
abbrev pub PlainEvent : Event → Type 0
PlainEvent (line_read request now) = NoNul request
PlainEvent written = Unit
PlainEvent read_failed = Unit
PlainEvent write_failed = Unit
PlainEvent (timer_expired now) = Unit
PlainEvent timer_aborted = Unit
PlainEvent timer_failed = Unit

module _ {boost : Boost} {settings : Settings} where
  abbrev pub PlainStep : {y z : System} → Step boost settings y z → Type 0
  PlainStep (accepted y c now waits room) = Unit
  PlainStep (accept_failed y c waits) = Unit
  PlainStep (accept_aborted y waits) = Unit
  PlainStep (handled y ev before after n n' g at due e) = PlainEvent ev
  PlainStep (destroyed y before after n world at r unlisted e) = Unit
  PlainStep (server_cancelled y) = Unit

  -- No line that was read on the way held a NUL.
  abbrev pub ReadsPlain : {world : World} {y : System} → Reach boost settings world y → Type 0
  ReadsPlain started = Unit
  ReadsPlain (goes_on s r) = PlainStep s × ReadsPlain r

-- The server comes to the state by steps in which no line that is read holds a NUL.
pub record PlainReach (boost : Boost) (settings : Settings) (world : World) (y : System)
    : Type 0 where
  pub reach : Reach boost settings world y
  pub plain : ReadsPlain reach

-- One step more.
pub then_plain :
    {boost : Boost} {settings : Settings} {world : World} {y z : System}
    (s : Step boost settings y z)
    → PlainStep s
    → PlainReach boost settings world y
    → PlainReach boost settings world z
then_plain s p r = record { reach = goes_on s r.reach; plain = (p, r.plain) }
