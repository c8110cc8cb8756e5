-- ===== src/Session/Authorized.antt =====
-- `POP3Session::handleAuthorizedUserCommand` and the handlers that it calls: the commands after
-- the logon.
use simple_pop3serv.Base.{
  ℕ, true, not, some, [], ◌∷◌, ◌++◌, if◌then◌else◌, Bytes, bytes, bytes_eq, crlf, Outcome, ok,
  ◌>>=◌, Variant, value, error,
}
use simple_pop3serv.Base.Decimal.{decimal}
use simple_pop3serv.Protocol.Boost.{Boost}
use simple_pop3serv.Protocol.CommandType.{
  Pop3CommandType, unknown, user, pass, stat, list, retr, dele, noop, rset, quit,
}
use simple_pop3serv.Protocol.Parser.{Pop3Command, Parameter, monostate, uint, text}
use simple_pop3serv.Mail.Disk.{Disk}
use simple_pop3serv.Mail.Errors.{MailboxOperationError, email_not_found, email_already_deleted}
use simple_pop3serv.Mail.SizeMap.{SizeMap}
use simple_pop3serv.Mail.Mailbox.{Mailbox}
use simple_pop3serv.Mail.Mailbox
use simple_pop3serv.Session.{
  Session, print_session_error, other_mailbox_being_used, already_logged, no_such_message,
  message_already_deleted, deref,
}
use simple_pop3serv.Session.Reply.{
  ok_word, set_error_response, set_simple_ok_response, put_mailbox_info_to_reponse,
}
use simple_pop3serv.Session.Anonymous.{get_text, get_uint}

-- The lines of the listing.
unfoldable pub list_lines : SizeMap → Bytes
list_lines [] = []
list_lines ((number, size) ∷ m) =
    decimal number ++ bytes " " ++ decimal size ++ crlf ++ list_lines m

-- The lines and the final dot, which are left out for an empty listing.
unfoldable pub list_body : SizeMap → Bytes
unfolding list_lines
list_body [] = []
list_body (p ∷ m) = list_lines (p ∷ m) ++ bytes "." ++ crlf

module _ (boost : Boost) where
  -- LIST with a number, on the result of `getEmailLength`
  unfoldable pub answer_length : Session → ℕ → Variant ℕ MailboxOperationError → Session
  answer_length s number (error e) =
      set_error_response boost s (print_session_error no_such_message)
  answer_length s number (value size) = record s {
    response = ok_word boost ++ bytes " " ++ decimal number ++ bytes " " ++ decimal size ++ crlf;
  }

  -- LIST without a number: the summary, and the lines.
  unfoldable pub listing_response : ℕ → ℕ → SizeMap → Bytes
  unfolding list_body
  listing_response count size lengths =
      ok_word boost
      ++ bytes " "
      ++ decimal count
      ++ bytes " messages ("
      ++ decimal size
      ++ bytes " octets)"
      ++ crlf
      ++ list_body lengths

  -- The content with CR LF at its end.
  unfoldable pub with_crlf : Bytes → Bytes
  with_crlf content = if not (boost.ends_with content crlf) then content ++ crlf else content

  -- RETR, on the results of `getEmailLength` and `getEmail`
  unfoldable pub answer_email : Session → ℕ → Variant Bytes MailboxOperationError → Session
  unfolding with_crlf
  answer_email s size (error e) = set_error_response boost s (print_session_error no_such_message)
  answer_email s size (value content) = record s {
    response =
        ok_word boost
        ++ bytes " "
        ++ decimal size
        ++ bytes " octets"
        ++ crlf
        ++ with_crlf content
        ++ bytes "."
        ++ crlf;
  }

  -- case USER
  unfoldable pub confirm_user : Session → Bytes → Session
  confirm_user s name =
      if bytes_eq s.user_name name
      then record s { response = ok_word boost ++ bytes " " ++ s.user_name ++ crlf }
      else set_error_response boost s (print_session_error other_mailbox_being_used)

module _ (boost : Boost) (disk : Disk) where
  unfoldable pub list_one : Session → ℕ → Outcome Session
  unfolding deref answer_length
  list_one s number = do
    m ← deref s.mailbox
    result ← Mailbox.get_email_length disk m number
    ok (answer_length boost s number result)

  unfoldable pub list_all : Session → Outcome Session
  unfolding deref listing_response
  list_all s = do
    m ← deref s.mailbox
    lengths ← Mailbox.get_emails_lengths disk m
    size ← Mailbox.get_whole_mailbox_size disk m
    ok (record s { response = listing_response boost (Mailbox.get_emails_count m) size lengths })

  unfoldable pub handle_list : Parameter → Session → Outcome Session
  unfolding list_one list_all
  handle_list (uint number) s = list_one s number
  handle_list monostate s = list_all s
  handle_list (text t) s = list_all s

  -- DELE with a number, on the result of `deleteEmail`
  unfoldable pub answer_delete : Session → MailboxOperationError → Outcome Session
  answer_delete s email_not_found =
      ok (set_error_response boost s (print_session_error no_such_message))
  answer_delete s email_already_deleted =
      ok (set_error_response boost s (print_session_error message_already_deleted))
  answer_delete s _ = put_mailbox_info_to_reponse boost disk s

  unfoldable pub delete_one : Session → ℕ → Outcome Session
  unfolding deref answer_delete
  delete_one s number = do
    m ← deref s.mailbox
    let (m', result) = Mailbox.delete_email m number
    answer_delete (record s { mailbox = some m' }) result

  unfoldable pub delete_all_mails : Session → Outcome Session
  unfolding deref
  delete_all_mails s = do
    m ← deref s.mailbox
    ok (set_simple_ok_response boost (record s { mailbox = some (Mailbox.delete_emails m) }) [])

  unfoldable pub handle_delete : Parameter → Session → Outcome Session
  unfolding delete_one delete_all_mails
  handle_delete (uint number) s = delete_one s number
  handle_delete monostate s = delete_all_mails s
  handle_delete (text t) s = delete_all_mails s

  unfoldable pub retrieve :
      Session → Mailbox → ℕ → Variant ℕ MailboxOperationError → Outcome Session
  unfolding answer_email
  retrieve s m number (error e) =
      ok (set_error_response boost s (print_session_error no_such_message))
  retrieve s m number (value size) = do
    result ← Mailbox.get_email disk m number
    ok (answer_email boost s size result)

  unfoldable pub handle_retr : Parameter → Session → Outcome Session
  unfolding get_uint deref retrieve
  handle_retr p s = do
    number ← get_uint p
    m ← deref s.mailbox
    result ← Mailbox.get_email_length disk m number
    retrieve s m number result

  unfoldable pub authorized_case : Pop3CommandType → Parameter → Session → Outcome Session
  unfolding handle_list handle_delete handle_retr get_text deref confirm_user
  authorized_case list p s = handle_list p s
  authorized_case dele p s = handle_delete p s
  authorized_case noop p s = ok (set_simple_ok_response boost s [])
  authorized_case user p s = do name ← get_text p; ok (confirm_user boost s name)
  authorized_case pass p s = ok (set_error_response boost s (print_session_error already_logged))
  authorized_case quit p s = ok (
      set_simple_ok_response boost (record s { quit_command_received = true })
        (bytes "POP3 server signing off"))
  authorized_case retr p s = handle_retr p s
  authorized_case stat p s = put_mailbox_info_to_reponse boost disk s
  authorized_case rset p s = do
    m ← deref s.mailbox
    put_mailbox_info_to_reponse boost disk (record s { mailbox = some (Mailbox.reset m) })
  authorized_case unknown p s = ok s

  unfoldable pub handle_authorized_user_command : Pop3Command → Session → Outcome Session
  unfolding authorized_case
  handle_authorized_user_command cmd s = authorized_case cmd.cmd_type cmd.parameter s
