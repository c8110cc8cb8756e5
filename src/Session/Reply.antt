-- ===== src/Session/Reply.antt =====
-- The functions of POP3Session that build a response.
use simple_pop3serv.Base.{ℕ, [], ◌++◌, if◌then◌else◌, Bytes, bytes, crlf, c_str, Outcome, ok, ◌>>=◌}
use simple_pop3serv.Base.Decimal.{decimal}
use simple_pop3serv.Protocol.Boost.{Boost}
use simple_pop3serv.Protocol.Status.{print_status, status_ok, status_err}
use simple_pop3serv.Protocol.Parser.{is_empty}
use simple_pop3serv.Mail.Disk.{Disk}
use simple_pop3serv.Mail.Mailbox.{get_emails_count, get_whole_mailbox_size}
use simple_pop3serv.Session.{Session, deref}

module _ (boost : Boost) where
  -- boost::lexical_cast<std::string>(POP3Status::OK), and ERR
  unfoldable pub ok_word : Bytes
  ok_word = boost.cast_string (print_status status_ok)

  unfoldable pub err_word : Bytes
  err_word = boost.cast_string (print_status status_err)

  -- The error comes as the text that its `operator<<` writes.
  unfoldable pub set_error_response : Session → Bytes → Session
  unfolding err_word
  set_error_response s err = record s {
    response = err_word ++ bytes " " ++ boost.cast_string err ++ crlf;
  }

  -- `mesg.data()` is a C string.
  unfoldable pub set_simple_ok_response : Session → Bytes → Session
  unfolding ok_word
  set_simple_ok_response s mesg = record s {
    response = ok_word ++ (if is_empty mesg then [] else bytes " ") ++ c_str mesg ++ crlf;
  }

  unfoldable pub mailbox_info : Bytes → ℕ → ℕ → Bytes
  unfolding ok_word
  mailbox_info user_name count size =
      ok_word
      ++ bytes " "
      ++ user_name
      ++ bytes "'s maildrop has "
      ++ decimal count
      ++ bytes " messages ("
      ++ decimal size
      ++ bytes " octets)"
      ++ crlf

  unfoldable pub put_mailbox_info_to_reponse : Disk → Session → Outcome Session
  unfolding deref
  put_mailbox_info_to_reponse disk s = do
    m ← deref s.mailbox
    size ← get_whole_mailbox_size disk m
    ok (record s { response = mailbox_info s.user_name (get_emails_count m) size })
