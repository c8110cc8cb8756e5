-- ===== src/Session/Commands.antt =====
-- Every command after the logon is answered: deletions, retrieval, and the whole of
-- `handleAuthorizedUserCommand`.
use simple_pop3serv.Base.{
  ℕ, ◌≡◌, refl, sym, ◌∙◌, subst, true, some, [], Bytes, Outcome, ok, Variant, value, error,
}
use simple_pop3serv.Protocol.Boost.{Boost, BoostLaws}
use simple_pop3serv.Protocol.CommandType.{
  Pop3CommandType, unknown, user, pass, stat, list, retr, dele, noop, rset, quit,
}
use simple_pop3serv.Protocol.Parser.{Parameter, monostate, uint, text}
use simple_pop3serv.Protocol.Parser.Accepted.{Fits}
use simple_pop3serv.Mail.Disk.{Disk}
use simple_pop3serv.Mail.Errors.{MailboxOperationError, email_not_found, email_already_deleted}
use simple_pop3serv.Mail.Mailbox.{Mailbox}
use simple_pop3serv.Mail.Mailbox
use simple_pop3serv.Mail.Mailbox.Listing.{AllPresent}
use simple_pop3serv.Mail.Mailbox.Present.{operations-AllPresent}
use simple_pop3serv.Mail.Mailbox.Total.{requests-IsOk}
use simple_pop3serv.Mail.Mailbox.Valid.{operations-IsValid}
use simple_pop3serv.Mail.Mailbox.Valid
use simple_pop3serv.Session.{Session}
use simple_pop3serv.Session.Reply.{
  put_mailbox_info_to_reponse, set_simple_ok_response, set_error_response,
}
use simple_pop3serv.Session.Authorized.{
  answer_email, answer_delete, delete_one, delete_all_mails, retrieve, confirm_user,
  authorized_case,
}
use simple_pop3serv.Session.Shape.{
  set_error_response-IsReply, set_simple_ok_response-IsReply, answer_email-IsReply,
  confirm_user-IsReply,
}
use simple_pop3serv.Session.Answers.{
  IsAnswered, confirm_user-only, answer_email-only, answers, info-IsAnswered, list_one-IsAnswered,
  list_all-IsAnswered,
}

-- What was answered from a session that differs in its mailbox and its quit flag.
IsAnswered-from :
    (disk : Disk) (s t : Session) (r : Outcome Session)
    → t.state ≡ s.state
    → t.user_name ≡ s.user_name
    → IsAnswered disk t r
    → IsAnswered disk s r
IsAnswered-from disk s t r same_state same_user (s', e, a) = (
  s',
  e,
  record {
    same_state = a.same_state ∙ same_state;
    same_user = a.same_user ∙ same_user;
    still_open = a.still_open;
    reply = a.reply;
  },
)

IsAnswered-eq :
    (disk : Disk) (s : Session) {r r' : Outcome Session}
    → r ≡ r'
    → IsAnswered disk s r'
    → IsAnswered disk s r
IsAnswered-eq disk s e (s', q, a) = (s', e ∙ q, a)

module _ {boost : Boost} (laws : BoostLaws boost) (disk : Disk) (s : Session) (m : Mailbox)
    (has : s.mailbox ≡ some m) (v : Valid.IsValid m) (there : AllPresent disk m.storages) where
  error-IsAnswered : (err : Bytes) → IsAnswered disk s (ok (set_error_response boost s err))
  unfolding set_error_response
  error-IsAnswered err = (
    set_error_response boost s err,
    refl,
    answers disk s m has _ refl (set_error_response-IsReply laws s err) v there,
  )

  simple-IsAnswered : (mesg : Bytes) → IsAnswered disk s (ok (set_simple_ok_response boost s mesg))
  unfolding set_simple_ok_response
  simple-IsAnswered mesg = (
    set_simple_ok_response boost s mesg,
    refl,
    answers disk s m has _ refl (set_simple_ok_response-IsReply laws s mesg) v there,
  )

  answer_delete-IsAnswered :
      (r : MailboxOperationError) → IsAnswered disk s (answer_delete boost disk s r)
  unfolding answer_delete
  answer_delete-IsAnswered email_not_found = error-IsAnswered _
  answer_delete-IsAnswered email_already_deleted = error-IsAnswered _
  answer_delete-IsAnswered _ = info-IsAnswered laws disk s m has v there

  retrieve-IsAnswered :
      (number : ℕ) (r : Variant ℕ MailboxOperationError)
      → IsAnswered disk s (retrieve boost disk s m number r)
  unfolding retrieve
  retrieve-IsAnswered number (error e) = error-IsAnswered _
  retrieve-IsAnswered number (value size) =
      let (result, e) = (requests-IsOk disk m number v there).1 in
      (
        answer_email boost s size result,
        rw e,
        answers disk s m has _ (answer_email-only boost s size result)
            (answer_email-IsReply laws s size result) v there,
      )

  confirm-IsAnswered : (name : Bytes) → IsAnswered disk s (ok (confirm_user boost s name))
  confirm-IsAnswered name = (
    confirm_user boost s name,
    refl,
    answers disk s m has _ (confirm_user-only boost s name) (confirm_user-IsReply laws s name) v
        there,
  )

module _ {boost : Boost} (laws : BoostLaws boost) (disk : Disk) (s : Session) (m : Mailbox)
    (has : s.mailbox ≡ some m) (v : Valid.IsValid m) (there : AllPresent disk m.storages) where
  delete_one-IsAnswered : (number : ℕ) → IsAnswered disk s (delete_one boost disk s number)
  unfolding delete_one
  delete_one-IsAnswered number =
      let t = record s { mailbox = some (Mailbox.delete_email m number).0 } in
      IsAnswered-from disk s t (delete_one boost disk s number) refl refl (
        subst (IsAnswered disk t) (sym (delete_step number)) (
          answer_delete-IsAnswered laws disk t (Mailbox.delete_email m number).0 refl
            (operations-IsValid m number v).0 ((operations-AllPresent disk m there).0 number)
            (Mailbox.delete_email m number).1))
    where
      delete_step :
          (number : ℕ)
          → delete_one boost disk s number
            ≡ answer_delete boost disk
                (record s { mailbox = some (Mailbox.delete_email m number).0 })
                (Mailbox.delete_email m number).1
      delete_step number = rw (has, delete_one)

  -- What is answered after the mailbox was changed to a usable one.
  module _ (m' : Mailbox) (v' : Valid.IsValid m') (there' : AllPresent disk m'.storages) where
    info_changed :
        IsAnswered disk s (put_mailbox_info_to_reponse boost disk (record s { mailbox = some m' }))
    info_changed =
        IsAnswered-from disk s (record s { mailbox = some m' }) _ refl refl
          (info-IsAnswered laws disk (record s { mailbox = some m' }) m' refl v' there')

    simple_changed :
        (mesg : Bytes)
        → IsAnswered disk s
            (ok (set_simple_ok_response boost (record s { mailbox = some m' }) mesg))
    simple_changed mesg =
        IsAnswered-from disk s (record s { mailbox = some m' }) _ refl refl
          (simple-IsAnswered laws disk (record s { mailbox = some m' }) m' refl v' there' mesg)

  delete_all_step :
      delete_all_mails boost disk s
      ≡ ok (set_simple_ok_response boost (record s { mailbox = some (Mailbox.delete_emails m) }) [])
  unfolding delete_all_mails
  delete_all_step = rw (has, delete_all_mails)

  reset_step :
      (p : Parameter)
      → authorized_case boost disk rset p s
        ≡ put_mailbox_info_to_reponse boost disk (record s { mailbox = some (Mailbox.reset m) })
  unfolding authorized_case
  reset_step p = rw (has, authorized_case)

  retr_step :
      (n : ℕ) (result : Variant ℕ MailboxOperationError)
      → Mailbox.get_email_length disk m n ≡ ok result
      → authorized_case boost disk retr (uint n) s ≡ retrieve boost disk s m n result
  unfolding authorized_case
  retr_step n result e = rw (has, e, authorized_case)

  delete_all-IsAnswered : IsAnswered disk s (delete_all_mails boost disk s)
  delete_all-IsAnswered = IsAnswered-eq disk s delete_all_step (
      simple_changed (Mailbox.delete_emails m) (operations-IsValid m 0 v).1
        (operations-AllPresent disk m there).1 [])

  pub authorized_case-IsAnswered :
      (t : Pop3CommandType) (p : Parameter)
      → Fits t p
      → IsAnswered disk s (authorized_case boost disk t p s)
  unfolding authorized_case
  authorized_case-IsAnswered unknown p h = absurd h
  authorized_case-IsAnswered user (text name) h = confirm-IsAnswered laws disk s m has v there name
  authorized_case-IsAnswered user (uint n) h = absurd h
  authorized_case-IsAnswered user monostate h = absurd h
  authorized_case-IsAnswered pass p h = error-IsAnswered laws disk s m has v there _
  authorized_case-IsAnswered stat p h = info-IsAnswered laws disk s m has v there
  authorized_case-IsAnswered list (uint n) h = list_one-IsAnswered laws disk s m has v there n
  authorized_case-IsAnswered list monostate h = list_all-IsAnswered laws disk s m has v there
  authorized_case-IsAnswered list (text t) h = list_all-IsAnswered laws disk s m has v there
  authorized_case-IsAnswered dele (uint n) h = delete_one-IsAnswered n
  authorized_case-IsAnswered dele monostate h = delete_all-IsAnswered
  authorized_case-IsAnswered dele (text t) h = delete_all-IsAnswered
  authorized_case-IsAnswered noop p h = simple-IsAnswered laws disk s m has v there []
  authorized_case-IsAnswered quit p h =
      IsAnswered-from disk s (record s { quit_command_received = true }) _ refl refl
        (simple-IsAnswered laws disk (record s { quit_command_received = true }) m has v there _)
  authorized_case-IsAnswered retr (uint n) h =
      let (result, e) = (requests-IsOk disk m n v there).0 in
      IsAnswered-eq disk s (retr_step n result e)
        (retrieve-IsAnswered laws disk s m has v there n result)
  authorized_case-IsAnswered retr (text t) h = absurd h
  authorized_case-IsAnswered retr monostate h = absurd h
  authorized_case-IsAnswered rset p h = IsAnswered-eq disk s (reset_step p) (
      info_changed (Mailbox.reset m) (operations-IsValid m 0 v).2
        (operations-AllPresent disk m there).2)
