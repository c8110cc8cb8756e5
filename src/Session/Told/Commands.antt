-- ===== src/Session/Told/Commands.antt =====
-- Every command after the logon against what the client is told: DELE, RSET and QUIT, and the whole
-- of `handleAuthorizedUserCommand`.
use simple_pop3serv.Base.{
  ℕ, ◌≡◌, refl, sym, ap, ◌∙◌, subst, Bool, true, false, some, List, [], map, arith, bytes, ok,
  ok-injective,
}
use simple_pop3serv.Protocol.Boost.{Boost, BoostLaws}
use simple_pop3serv.Protocol.CommandType.{
  Pop3CommandType, unknown, user, pass, stat, list, retr, dele, noop, rset, quit,
}
use simple_pop3serv.Protocol.Parser.{Parameter, monostate, uint, text}
use simple_pop3serv.Protocol.Parser.Accepted.{Fits}
use simple_pop3serv.Mail.Disk.{Disk, FilePath}
use simple_pop3serv.Mail.Errors.{MailboxOperationError, email_not_found, email_already_deleted}
use simple_pop3serv.Mail.Mailbox.{Mailbox}
use simple_pop3serv.Mail.Mailbox
use simple_pop3serv.Mail.Mailbox.Maildrop.{
  Maildrop, with_mark, respond, all_after, undo, remove_all, remove, after_remove, result,
}
use simple_pop3serv.Mail.Mailbox.Maildrop.Calls.{Represents}
use simple_pop3serv.Mail.Mailbox.Maildrop.Refines.{call-respond}
use simple_pop3serv.Session.{Session, print_session_error, no_such_message, message_already_deleted}
use simple_pop3serv.Session.Reply.{
  set_error_response, set_simple_ok_response, put_mailbox_info_to_reponse,
}
use simple_pop3serv.Session.Authorized.{
  answer_delete, delete_one, delete_all_mails, confirm_user, authorized_case,
}
use simple_pop3serv.Session.Answers.{OnlyResponds}
use simple_pop3serv.Session.Told.{request_of, told, removal}
use simple_pop3serv.Session.Told.Texts.{error-text, simple-text, signing_off-text}
use simple_pop3serv.Session.Told.Obeys.{Obeys, IsTold, contents, is_quit, info-Represents}
use simple_pop3serv.Session.Told.Unchanged.{
  stat-IsTold, list_one-IsTold, list_all-IsTold, retr-IsTold, user-Obeys, pass-IsTold, noop-IsTold,
}

module _ {boost : Boost} (laws : BoostLaws boost) (disk : Disk) (emails : List FilePath)
    (all update : Bool) (m : Mailbox) (d : Maildrop)
    (h : Represents disk emails all update m d) where
  -- What is answered to DELE with a number, once the mail is marked or not.
  answer_delete-told :
      (t : Session)
      → t.mailbox ≡ some m
      → (e : MailboxOperationError)
      → (s' : Session) × (answer_delete boost disk t e ≡ ok s')
        × OnlyResponds t s'
        × (s'.response ≡ removal t.user_name d (result e))
  unfolding answer_delete print_session_error set_error_response
  answer_delete-told t has email_not_found = (
    set_error_response boost t (print_session_error no_such_message),
    refl,
    refl,
    error-text laws t _,
  )
  answer_delete-told t has email_already_deleted = (
    set_error_response boost t (print_session_error message_already_deleted),
    refl,
    refl,
    error-text laws t _,
  )
  answer_delete-told t has _ =
      (_, info-Represents laws disk emails all update m d h t has, refl, refl)

module _ {boost : Boost} (laws : BoostLaws boost) (disk : Disk) (emails : List FilePath)
    (all update : Bool) (m : Mailbox) (d : Maildrop) (h : Represents disk emails all update m d)
    (s : Session) (has : s.mailbox ≡ some m) where
  -- A response after the mailbox was changed.
  changed-Obeys :
      (t : Pop3CommandType) (p : Parameter) (m' : Mailbox) (s' : Session)
      → OnlyResponds (record s { mailbox = some m' }) s'
      → s'.response ≡ told s.user_name (contents disk emails) d t p
      → Represents disk emails
          (all_after all (request_of t p))
          update
          m'
          (respond d (request_of t p)).0
      → is_quit t ≡ false
      → Obeys disk emails update all s d t p s'
  changed-Obeys t p m' s' only reply next open_still = record {
    mailbox_after = m';
    has = ap (λ (u : Session). u.mailbox) only;
    represents = next;
    reply = reply;
    same_state = ap (λ (u : Session). u.state) only;
    same_user = ap (λ (u : Session). u.user_name) only;
    quits = ap (λ (u : Session). u.quit_command_received) only ∙ rw open_still (ground arith);
  }

  delete_step :
      (n : ℕ)
      → delete_one boost disk s n
        ≡ answer_delete boost disk
            (record s { mailbox = some (Mailbox.delete_email m n).0 })
            (Mailbox.delete_email m n).1
  unfolding delete_one
  delete_step n = rw (has, delete_one)

  delete_one-IsTold :
      (n : ℕ) → IsTold disk emails update all s d dele (uint n) (delete_one boost disk s n)
  delete_one-IsTold n =
      let (m', e, next) = call-respond disk emails all update m d (remove n) h in
      let there = ok-injective e in
      let after =
        subst (λ m. Represents disk emails all update m (after_remove d n))
          (sym (ap (λ r. r.0) there)) next in
      let changed = (Mailbox.delete_email m n).0 in
      let (s', q, only, reply) =
        answer_delete-told laws disk emails all update changed (after_remove d n) after
          (record s { mailbox = some changed }) refl (Mailbox.delete_email m n).1 in
      (
        s',
        delete_step n ∙ q,
        changed-Obeys dele (uint n) changed s' only
            (reply ∙ ap (λ r. removal s.user_name (after_remove d n) r.1) there) after refl,
      )

  delete_all-IsTold :
      IsTold disk emails update all s d dele monostate (delete_all_mails boost disk s)
  unfolding delete_all_mails set_simple_ok_response
  delete_all-IsTold =
      let t = record s { mailbox = some (Mailbox.delete_emails m) } in
      let (m', e, next) = call-respond disk emails all update m d remove_all h in
      (
        set_simple_ok_response boost t [],
        rw (has, delete_all_mails),
        changed-Obeys dele monostate (Mailbox.delete_emails m) _ refl (simple-text laws t)
            (subst (λ m. Represents disk emails true update m (map (with_mark true) d))
              (sym (ap (λ r. r.0) (ok-injective e))) next)
            refl,
      )

  reset_step :
      (p : Parameter)
      → authorized_case boost disk rset p s
        ≡ put_mailbox_info_to_reponse boost disk (record s { mailbox = some (Mailbox.reset m) })
  unfolding authorized_case
  reset_step p = rw (has, authorized_case)

  reset-IsTold :
      IsTold disk emails update all s d rset monostate (authorized_case boost disk rset monostate s)
  reset-IsTold =
      let (m', e, next) = call-respond disk emails all update m d undo h in
      let after =
        subst (λ m. Represents disk emails false update m (map (with_mark false) d))
          (sym (ap (λ r. r.0) (ok-injective e))) next in
      (
        _,
        reset_step monostate
            ∙ info-Represents laws disk emails false update (Mailbox.reset m)
                (map (with_mark false) d) after (record s { mailbox = some (Mailbox.reset m) })
                refl,
        changed-Obeys rset monostate (Mailbox.reset m) _ refl refl after refl,
      )

  quit-IsTold :
      (p : Parameter)
      → IsTold disk emails update all s d quit p (
          ok (
            set_simple_ok_response boost
              (record s { quit_command_received = true })
              (bytes "POP3 server signing off")))
  unfolding set_simple_ok_response
  quit-IsTold p = (
    set_simple_ok_response boost (record s { quit_command_received = true })
        (bytes "POP3 server signing off"),
    refl,
    record {
      mailbox_after = m;
      has = has;
      represents = h;
      reply = signing_off-text laws s;
      same_state = refl;
      same_user = refl;
      quits = ground arith;
    },
  )

  -- For a session whose mailbox, of one valid storage with all its files on the disk, stands for a
  -- maildrop: every command with the parameter that its type takes is answered without a fault,
  -- the response is the text that the client of that maildrop is told, the mailbox then stands for
  -- the maildrop after the request of the command, the state and the user name stay, and the
  -- session is to end exactly if it was before or the command is QUIT.
  pub authorized_case-IsTold :
      (t : Pop3CommandType) (p : Parameter)
      → Fits t p
      → IsTold disk emails update all s d t p (authorized_case boost disk t p s)
  unfolding authorized_case
  authorized_case-IsTold unknown p f = absurd f
  authorized_case-IsTold user (text name) f =
      (confirm_user boost s name, refl, user-Obeys laws disk emails all update m d h s has name)
  authorized_case-IsTold user (uint n) f = absurd f
  authorized_case-IsTold user monostate f = absurd f
  authorized_case-IsTold pass p f = pass-IsTold laws disk emails all update m d h s has p
  authorized_case-IsTold stat p f = stat-IsTold laws disk emails all update m d h s has p
  authorized_case-IsTold list (uint n) f = list_one-IsTold laws disk emails all update m d h s has n
  authorized_case-IsTold list monostate f = list_all-IsTold laws disk emails all update m d h s has
  authorized_case-IsTold list (text t) f = absurd f
  authorized_case-IsTold dele (uint n) f = delete_one-IsTold n
  authorized_case-IsTold dele monostate f = delete_all-IsTold
  authorized_case-IsTold dele (text t) f = absurd f
  authorized_case-IsTold noop p f = noop-IsTold laws disk emails all update m d h s has p
  authorized_case-IsTold quit p f = quit-IsTold p
  authorized_case-IsTold retr (uint n) f = retr-IsTold laws disk emails all update m d h s has n
  authorized_case-IsTold retr (text t) f = absurd f
  authorized_case-IsTold retr monostate f = absurd f
  authorized_case-IsTold rset monostate f = reset-IsTold
  authorized_case-IsTold rset (text t) f = absurd f
  authorized_case-IsTold rset (uint n) f = absurd f
