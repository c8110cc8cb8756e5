-- ===== src/Server/Busy.antt =====
-- What a second client is told who logs on to a mailbox that a session holds.
use simple_pop3serv.Base.{◌≡◌, sym, ap, ◌∙◌, true, List, ◌∷◌, ◌++◌, arith, Bytes, total, ok}
use simple_pop3serv.Protocol.Boost.{Boost, BoostLaws}
use simple_pop3serv.Protocol.CommandType.{pass}
use simple_pop3serv.Protocol.Parser.{text}
use simple_pop3serv.Mail.Errors
use simple_pop3serv.Service.Registry.{is_active, lock_mailbox}
use simple_pop3serv.Service.Lock.{new_lock, destroy_lock}
use simple_pop3serv.Service.Connect.{
  World, Settings, operation_failed, verify_credentials_and_connect,
}
use simple_pop3serv.Session.{Session, print_session_error, mailbox_is_busy}
use simple_pop3serv.Session.Reply.{set_error_response}
use simple_pop3serv.Session.Anonymous.{
  get_text, is_busy_error, handle_connection, anonymous_case, handle_anonymous_command,
}
use simple_pop3serv.Session.Read.{is_authorization, handle_command}
use simple_pop3serv.Server.{Node, System}
use simple_pop3serv.Server.Counted.{holds_name, total-at}
use simple_pop3serv.Server.Plain.{PlainReach}
use simple_pop3serv.Server.Reachable.{IsFresh}
use simple_pop3serv.Server.Safety.{holders-is_active}

-- A name that is active is refused, whatever the password, and the world is as it was.
active-busy :
    (settings : Settings) (world : World) (name password : Bytes)
    → is_active world.active name ≡ true
    → verify_credentials_and_connect settings world name password
      ≡ (world, operation_failed Errors.mailbox_is_busy)
unfolding verify_credentials_and_connect new_lock lock_mailbox destroy_lock
active-busy settings world name password e = rw e

module _ {boost : Boost} (laws : BoostLaws boost) (settings : Settings) where
  pass_busy :
      (world : World) (s : Session) (password : Bytes)
      → is_authorization s.state ≡ true
      → is_active world.active s.user_name ≡ true
      → handle_command boost settings
          (record { cmd_type = pass; parameter = text password })
          s
          world
        ≡ ok (set_error_response boost s (print_session_error mailbox_is_busy), world)
  unfolding handle_command handle_anonymous_command anonymous_case get_text handle_connection
      is_busy_error
  pass_busy world s password at e = rw (at, active-busy settings world s.user_name password e)

  -- If no mailbox is active at the start and there are fewer than 2 ^ 64 files: in every state that the server reaches by lines without NUL, while a session object
  -- holds the mailbox of a name, the command PASS of a session that has not logged on and has
  -- given that name is answered with the error that the mailbox is busy, whatever the password,
  -- and changes nothing else.
  pub held-pass_busy :
      (world : World) (y : System) (before after : List Node) (n : Node) (s : Session)
      (password : Bytes)
      → IsFresh world
      → PlainReach boost settings world y
      → y.objects ≡ before ++ n ∷ after
      → holds_name s.user_name n ≡ 1
      → is_authorization s.state ≡ true
      → handle_command boost settings
          (record { cmd_type = pass; parameter = text password })
          s
          y.shared.world
        ≡ ok (set_error_response boost s (print_session_error mailbox_is_busy), y.shared.world)
  held-pass_busy world y before after n s password fresh r at held_here anonymous =
      let name = s.user_name in
      let all =
        ap (total (holds_name name)) (sym at)
        ∙ holders-is_active laws settings world fresh y r name in
      let split = total-at (holds_name name) before after n in
      let active : is_active y.shared.world.active name ≡ true = ground (arith, all, split) in
      pass_busy y.shared.world s password anonymous active
