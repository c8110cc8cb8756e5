-- ===== src/Session/Sound.antt =====
-- The invariant of a session, and that the handlers of commands answer and keep it.
use simple_pop3serv.Base.{◌≡◌, refl, sym, ◌∙◌, subst, Option, none, some, Bytes, NoNul, Outcome, ok}
use simple_pop3serv.Protocol.Boost.{Boost, BoostLaws}
use simple_pop3serv.Protocol.Parser.{Pop3Command}
use simple_pop3serv.Protocol.Parser.Accepted.{IsWellFormed}
use simple_pop3serv.Mail.Disk.{Disk}
use simple_pop3serv.Mail.Mailbox.{Mailbox}
use simple_pop3serv.Service.Connect.{World}
use simple_pop3serv.Session.{Session, SessionState, authorization, transaction, update}
use simple_pop3serv.Session.Reply.{set_error_response, set_simple_ok_response}
use simple_pop3serv.Session.Authorized.{handle_authorized_user_command}
use simple_pop3serv.Session.Shape.{
  IsReply, set_error_response-IsReply, set_simple_ok_response-IsReply,
}
use simple_pop3serv.Session.Answers.{IsOpen, Answers}
use simple_pop3serv.Session.Commands.{authorized_case-IsAnswered}

-- Before the logon there is no mailbox, and after it there is a usable one. The state `update` is
-- never entered.
abbrev pub Coherent : Disk → SessionState → Option Mailbox → Type 0
Coherent disk authorization none = Unit
Coherent disk authorization (some m) = ⊥
Coherent disk transaction none = ⊥
Coherent disk transaction (some m) = IsOpen disk (some m)
Coherent disk update mailbox = ⊥

pub record IsSound (disk : Disk) (s : Session) : Type 0 where
  pub coherent : Coherent disk s.state s.mailbox
  pub plain_name : NoNul s.user_name

-- A sound session with a response to send, and the disk with the files that it had.
pub record Serves (world : World) (s' : Session) (world' : World) : Type 0 where
  pub sound : IsSound world'.disk s'
  pub reply : IsReply s'.response
  pub same_files : world'.disk.files ≡ world.disk.files

abbrev pub IsServed : World → Outcome (Session × World) → Type 0
IsServed world r =
    (s' : Session) × (world' : World) × (r ≡ ok (s', world')) × Serves world s' world'

Coherent-transaction :
    (d : Disk) (t : SessionState) (mailbox : Option Mailbox)
    → t ≡ transaction
    → IsOpen d mailbox
    → Coherent d t mailbox
Coherent-transaction d t none e h = absurd h
Coherent-transaction d t (some m) e h =
    subst (λ (u : SessionState). Coherent d u (some m)) (sym e) h

pub Coherent-none :
    (d : Disk) (t : SessionState) (mailbox : Option Mailbox)
    → t ≡ authorization
    → Coherent d t mailbox
    → mailbox ≡ none
Coherent-none d t none e h = refl
Coherent-none d t (some m) e h = absurd (subst (λ (u : SessionState). Coherent d u (some m)) e h)

Coherent-anonymous :
    (d d' : Disk) (t : SessionState) (mailbox : Option Mailbox)
    → t ≡ authorization
    → Coherent d t mailbox
    → Coherent d' t mailbox
Coherent-anonymous d d' t none e h = subst (λ (u : SessionState). Coherent d' u none) (sym e) tt
Coherent-anonymous d d' t (some m) e h =
    absurd (subst (λ (u : SessionState). Coherent d u (some m)) e h)

pub anonymous-IsSound :
    (d d' : Disk) (s : Session) → s.state ≡ authorization → IsSound d s → IsSound d' s
anonymous-IsSound d d' s e h = record {
  coherent = Coherent-anonymous d d' s.state s.mailbox e h.coherent;
  plain_name = h.plain_name;
}

-- The session after an answer to a command of a user who is logged on.
pub answered-IsSound :
    (d : Disk) (s s' : Session)
    → s.state ≡ transaction
    → NoNul s.user_name
    → Answers d s s'
    → IsSound d s'
answered-IsSound d s s' e h a = record {
  coherent = Coherent-transaction d s'.state s'.mailbox (a.same_state ∙ e) a.still_open;
  plain_name = subst NoNul (sym a.same_user) h;
}

module _ {boost : Boost} (laws : BoostLaws boost) (world : World) where
  pub error-IsServed :
      (s : Session) (world' : World) (err : Bytes)
      → IsSound world'.disk s
      → world'.disk.files ≡ world.disk.files
      → IsServed world (ok (set_error_response boost s err, world'))
  unfolding set_error_response
  error-IsServed s world' err h e = (
    set_error_response boost s err,
    world',
    refl,
    record {
      sound = record { coherent = h.coherent; plain_name = h.plain_name };
      reply = set_error_response-IsReply laws s err;
      same_files = e;
    },
  )

  pub simple-IsServed :
      (s : Session) (mesg : Bytes)
      → IsSound world.disk s
      → IsServed world (ok (set_simple_ok_response boost s mesg, world))
  unfolding set_simple_ok_response
  simple-IsServed s mesg h = (
    set_simple_ok_response boost s mesg,
    world,
    refl,
    record {
      sound = record { coherent = h.coherent; plain_name = h.plain_name };
      reply = set_simple_ok_response-IsReply laws s mesg;
      same_files = refl;
    },
  )

  pub authorized-IsServed :
      (cmd : Pop3Command) (s : Session) (mailbox : Option Mailbox)
      → IsWellFormed cmd
      → s.state ≡ transaction
      → s.mailbox ≡ mailbox
      → IsOpen world.disk mailbox
      → NoNul s.user_name
      → (s' : Session) × (handle_authorized_user_command boost world.disk cmd s ≡ ok s')
        × Serves world s' world
  unfolding handle_authorized_user_command
  authorized-IsServed cmd s none f at has h n = absurd h
  authorized-IsServed cmd s (some m) f at has h n =
      let (s', e, a) =
        authorized_case-IsAnswered laws world.disk s m has h.0 h.1 cmd.cmd_type cmd.parameter f in
      (
        s',
        e,
        record {
          sound = answered-IsSound world.disk s s' at n a;
          reply = a.reply;
          same_files = refl;
        },
      )
