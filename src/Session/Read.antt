-- ===== src/Session/Read.antt =====
-- `POP3Session::readImpl`, and the end of the writing of its response.
use simple_pop3serv.Base.{
  Bool, true, false, Option, none, some, [], if◌then◌else◌, Outcome, ok, ◌>>=◌, Variant, value,
  error,
}
use simple_pop3serv.Protocol.Boost.{Boost}
use simple_pop3serv.Protocol.Parser.{
  Pop3Command, ParsingError, print_parsing_error, parse_pop3_command,
}
use simple_pop3serv.Mail.Mailbox.{Mailbox, set_update}
use simple_pop3serv.Service.Connect.{World, Settings}
use simple_pop3serv.Session.{Session, SessionState, authorization, transaction, update}
use simple_pop3serv.Session.Reply.{set_error_response}
use simple_pop3serv.Session.Anonymous.{handle_anonymous_command}
use simple_pop3serv.Session.Authorized.{handle_authorized_user_command}

abbrev pub is_authorization : SessionState → Bool
is_authorization authorization = true
is_authorization transaction = false
is_authorization update = false

module _ (boost : Boost) (settings : Settings) where
  unfoldable pub handle_command : Pop3Command → Session → World → Outcome (Session × World)
  handle_command cmd s world =
      if is_authorization s.state
      then handle_anonymous_command boost settings cmd s world
      else do s' ← handle_authorized_user_command boost world.disk cmd s; ok (s', world)

  unfoldable pub handle_parsed :
      Variant Pop3Command ParsingError → Session → World → Outcome (Session × World)
  unfolding handle_command
  handle_parsed (error e) s world = ok (set_error_response boost s (print_parsing_error e), world)
  handle_parsed (value cmd) s world = handle_command cmd s world

  -- The new session holds the response that `write` sends.
  unfoldable pub read_impl : Session → World → Outcome (Session × World)
  unfolding handle_parsed
  read_impl s world = do
    result ← parse_pop3_command boost s.request
    handle_parsed result (record s { response = [] }) world

abbrev pub update_mailbox : Option Mailbox → Option Mailbox
update_mailbox none = none
update_mailbox (some m) = some (set_update m)

-- The handler behind `async_write` without an error: whether the session goes on reading.
unfoldable pub on_written : Session → Session × Bool
on_written s =
    if s.quit_command_received
    then (record s { mailbox = update_mailbox s.mailbox }, false)
    else (record s { request = [] }, true)
