-- ===== src/Session/Anonymous.antt =====
-- `POP3Session::handleAnonymousCommand`: the commands before the logon.
use simple_pop3serv.Base.{
  ℕ, Bool, true, false, not, some, [], ◌++◌, if◌then◌else◌, Bytes, bytes, Outcome, ok, fault,
  bad_variant_access, ◌>>=◌,
}
use simple_pop3serv.Protocol.Boost.{Boost}
use simple_pop3serv.Protocol.CommandType.{Pop3CommandType, user, pass, noop, quit}
use simple_pop3serv.Protocol.Parser.{Pop3Command, Parameter, monostate, uint, text}
use simple_pop3serv.Mail.Errors.{MailboxOperationError, print_auth_error}
use simple_pop3serv.Mail.Errors
use simple_pop3serv.Service.Connect.{
  World, Settings, Connection, connected, operation_failed, auth_failed,
  verify_credentials_and_connect,
}
use simple_pop3serv.Session.{
  Session, transaction, print_session_error, prohibited_for_anonymous, not_registered,
  mailbox_is_busy, internal_error, destroy_mailbox,
}
use simple_pop3serv.Session.Reply.{
  set_error_response, set_simple_ok_response, put_mailbox_info_to_reponse,
}

-- std::get<std::string>
unfoldable pub get_text : Parameter → Outcome Bytes
get_text (text s) = ok s
get_text (uint n) = fault bad_variant_access
get_text monostate = fault bad_variant_access

-- std::get<unsigned int>
unfoldable pub get_uint : Parameter → Outcome ℕ
get_uint (uint n) = ok n
get_uint (text s) = fault bad_variant_access
get_uint monostate = fault bad_variant_access

unfoldable pub is_busy_error : MailboxOperationError → Bool
is_busy_error Errors.mailbox_is_busy = true
is_busy_error _ = false

module _ (boost : Boost) (settings : Settings) where
  -- case USER, on the name
  unfoldable pub handle_user : Session → Bytes → Session
  handle_user s name =
      if not (settings.manager.verify_name name)
      then set_error_response boost s (print_session_error not_registered)
      else set_simple_ok_response boost (record s { user_name = name })
          (bytes "user " ++ name ++ bytes " exists")

  -- case PASS, on the result of `VerifyCredentialsAndConnect`. The assignment to `mailbox`
  -- destroys what it held.
  unfoldable pub handle_connection : Session → World × Connection → Outcome (Session × World)
  handle_connection s (world, connected m) = do
    world' ← destroy_mailbox world s.mailbox
    s' ←
        put_mailbox_info_to_reponse boost world'.disk
          (record s { mailbox = some m; state = transaction })
    ok (s', world')
  handle_connection s (world, auth_failed e) =
      ok (set_error_response boost s (print_auth_error e), world)
  handle_connection s (world, operation_failed e) =
      if is_busy_error e
      then ok (set_error_response boost s (print_session_error mailbox_is_busy), world)
      else ok (set_error_response boost s (print_session_error internal_error), world)

  unfoldable pub anonymous_case :
      Pop3CommandType → Parameter → Session → World → Outcome (Session × World)
  unfolding get_text handle_connection
  anonymous_case user p s world = do name ← get_text p; ok (handle_user s name, world)
  anonymous_case pass p s world = do
    password ← get_text p
    handle_connection s (verify_credentials_and_connect settings world s.user_name password)
  anonymous_case noop p s world = ok (set_simple_ok_response boost s [], world)
  anonymous_case quit p s world =
      ok (set_simple_ok_response boost (record s { quit_command_received = true }) [], world)
  anonymous_case _ p s world =
      ok (set_error_response boost s (print_session_error prohibited_for_anonymous), world)

  unfoldable pub handle_anonymous_command :
      Pop3Command → Session → World → Outcome (Session × World)
  unfolding anonymous_case
  handle_anonymous_command cmd s world = anonymous_case cmd.cmd_type cmd.parameter s world
