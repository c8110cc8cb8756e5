-- ===== src/Session/Told/Unchanged.antt =====
-- The commands that leave the maildrop as it is: STAT, LIST, RETR, NOOP, USER, PASS and QUIT.
use simple_pop3serv.Base.{
  ℕ, ◌≡◌, refl, ap, ◌∙◌, Bool, false, some, List, [], arith, Bytes, get_elem?, Outcome, ok, fault,
  ◌>>=◌, value, error, Variant,
}
use simple_pop3serv.Protocol.Boost.{Boost, BoostLaws}
use simple_pop3serv.Protocol.CommandType.{Pop3CommandType, user, pass, stat, list, retr, noop}
use simple_pop3serv.Protocol.Parser.{Parameter, monostate, uint, text}
use simple_pop3serv.Mail.Disk.{Disk, FilePath}
use simple_pop3serv.Mail.Errors.{MailboxOperationError}
use simple_pop3serv.Mail.Storage.{or_internal_error}
use simple_pop3serv.Session.Told.Content.{content-Represents}
use simple_pop3serv.Mail.Mailbox.{Mailbox, get_email_length}
use simple_pop3serv.Mail.Mailbox.Maildrop.{
  Maildrop, respond, all_after, size_of_mail, size_reply, mail_at, Reply,
}
use simple_pop3serv.Mail.Mailbox.Maildrop.Calls.{Represents, sized, length_reply}
use simple_pop3serv.Mail.Mailbox.Maildrop.Refines.{call-respond}
use simple_pop3serv.Session.{Session, print_session_error, no_such_message, already_logged}
use simple_pop3serv.Session.Reply.{
  set_error_response, set_simple_ok_response, put_mailbox_info_to_reponse,
}
use simple_pop3serv.Session.Authorized.{
  list_one, list_all, answer_length, answer_email, retrieve, confirm_user, authorized_case,
}
use simple_pop3serv.Session.Answers.{
  OnlyResponds, answer_length-only, answer_email-only, confirm_user-only,
}
use simple_pop3serv.Session.Told.{request_of, told, length_line, retrieval, content_at}
use simple_pop3serv.Session.Told.Texts.{
  length-text, email-text, error-text, confirm-text, simple-text,
}
use simple_pop3serv.Session.Told.Obeys.{
  Obeys, IsTold, contents, is_quit, info-Represents, list_all-Represents,
}

sized_reply :
    (disk : Disk) (m m' : Mailbox) (o : Outcome (Variant ℕ MailboxOperationError)) (reply : Reply)
    → (o >>= λ r. ok (sized disk m r)) ≡ ok (m', reply)
    → (r : Variant ℕ MailboxOperationError) × (o ≡ ok r) × (length_reply r ≡ reply)
sized_reply disk m m' (ok r) reply e = (r, refl, cc)
sized_reply disk m m' (fault f) reply e = cc

module _ {boost : Boost} (laws : BoostLaws boost) (disk : Disk) (emails : List FilePath)
    (all update : Bool) (m : Mailbox) (d : Maildrop) (h : Represents disk emails all update m d)
    (s : Session) (has : s.mailbox ≡ some m) where
  -- A command that changes the response alone.
  responds-Obeys :
      (t : Pop3CommandType) (p : Parameter) (s' : Session)
      → OnlyResponds s s'
      → s'.response ≡ told s.user_name (contents disk emails) d t p
      → Represents disk emails
          (all_after all (request_of t p))
          update
          m
          (respond d (request_of t p)).0
      → is_quit t ≡ false
      → Obeys disk emails update all s d t p s'
  responds-Obeys t p s' only reply same open_still = record {
    mailbox_after = m;
    has = ap (λ (u : Session). u.mailbox) only ∙ has;
    represents = same;
    reply = reply;
    same_state = ap (λ (u : Session). u.state) only;
    same_user = ap (λ (u : Session). u.user_name) only;
    quits = ap (λ (u : Session). u.quit_command_received) only ∙ rw open_still (ground arith);
  }

  -- `getEmailLength` answers as the maildrop.
  length_call :
      (n : ℕ)
      → (r : Variant ℕ MailboxOperationError) × (get_email_length disk m n ≡ ok r)
        × (length_reply r ≡ size_reply (mail_at d n))
  length_call n =
      let (m', e, k) = call-respond disk emails all update m d (size_of_mail n) h in
      sized_reply disk m m' (get_email_length disk m n) (size_reply (mail_at d n)) e

  pub list_one-IsTold :
      (n : ℕ) → IsTold disk emails update all s d list (uint n) (list_one boost disk s n)
  unfolding list_one
  list_one-IsTold n =
      let (r, e, same) = length_call n in
      (
        answer_length boost s n r,
        rw (has, e, list_one),
        responds-Obeys list (uint n) _ (answer_length-only boost s n r)
            (length-text laws s n r ∙ ap (length_line n) same) h refl,
      )

  pub list_all-IsTold : IsTold disk emails update all s d list monostate (list_all boost disk s)
  list_all-IsTold = (
    _,
    list_all-Represents laws disk emails all update m d h s has,
    responds-Obeys list monostate _ refl refl h refl,
  )

  pub stat-IsTold :
      (p : Parameter)
      → IsTold disk emails update all s d stat p (put_mailbox_info_to_reponse boost disk s)
  stat-IsTold p = (
    _,
    info-Represents laws disk emails all update m d h s has,
    responds-Obeys stat p _ refl refl h refl,
  )

  retrieve-Obeys :
      (n : ℕ) (r : Variant ℕ MailboxOperationError)
      → get_email_length disk m n ≡ ok r
      → length_reply r ≡ size_reply (mail_at d n)
      → IsTold disk emails update all s d retr (uint n) (retrieve boost disk s m n r)
  unfolding retrieve print_session_error set_error_response
  retrieve-Obeys n (error e) there same = (
    set_error_response boost s (print_session_error no_such_message),
    refl,
    responds-Obeys retr (uint n) _ refl
        (error-text laws s _
          ∙ ap (λ r. retrieval r (content_at (get_elem? (contents disk emails) n))) same)
        h refl,
  )
  retrieve-Obeys n (value size) there same =
      let content = content_at (get_elem? (contents disk emails) n) in
      (
        answer_email boost s size (or_internal_error content),
        rw (content-Represents disk emails all update m d h n size there) refl,
        responds-Obeys retr (uint n) _ (answer_email-only boost s size (or_internal_error content))
            (email-text laws s size content ∙ ap (λ r. retrieval r content) same) h refl,
      )

  retr_step :
      (n : ℕ) (r : Variant ℕ MailboxOperationError)
      → get_email_length disk m n ≡ ok r
      → authorized_case boost disk retr (uint n) s ≡ retrieve boost disk s m n r
  unfolding authorized_case
  retr_step n r e = rw (has, e, authorized_case)

  pub retr-IsTold :
      (n : ℕ)
      → IsTold disk emails update all s d retr (uint n) (authorized_case boost disk retr (uint n) s)
  retr-IsTold n =
      let (r, e, same) = length_call n in
      let (s', q, o) = retrieve-Obeys n r e same in (s', retr_step n r e ∙ q, o)

  pub user-Obeys :
      (name : Bytes) → Obeys disk emails update all s d user (text name) (confirm_user boost s name)
  user-Obeys name =
      responds-Obeys user (text name) _ (confirm_user-only boost s name) (confirm-text laws s name)
        h refl

  pub pass-IsTold :
      (p : Parameter)
      → IsTold disk emails update all s d pass p
          (ok (set_error_response boost s (print_session_error already_logged)))
  unfolding print_session_error set_error_response
  pass-IsTold p = (
    set_error_response boost s (print_session_error already_logged),
    refl,
    responds-Obeys pass p _ refl (error-text laws s _) h refl,
  )

  pub noop-IsTold :
      (p : Parameter)
      → IsTold disk emails update all s d noop p (ok (set_simple_ok_response boost s []))
  unfolding set_simple_ok_response
  noop-IsTold p = (
    set_simple_ok_response boost s [],
    refl,
    responds-Obeys noop p _ refl (simple-text laws s) h refl,
  )
