-- ===== src/Session/Keeps.antt =====
-- What every handler of an authorized user's command keeps if it returns, whatever the files on
-- the disk: the state, the user, and whose mailbox it is.
use simple_pop3serv.Base.{
  ℕ, ◌≡◌, refl, sym, ap, subst, Option, none, some, Bytes, bytes, [], true, Outcome, ok, fault,
  Ensures, Ensures-bind, Bool-cases, inl, inr, Variant, value, error,
}
use simple_pop3serv.Protocol.Boost.{Boost}
use simple_pop3serv.Protocol.CommandType.{
  Pop3CommandType, unknown, user, pass, stat, list, retr, dele, noop, rset, quit,
}
use simple_pop3serv.Protocol.Parser.{Pop3Command, Parameter, monostate, uint, text}
use simple_pop3serv.Mail.Disk.{Disk}
use simple_pop3serv.Mail.Errors.{MailboxOperationError, email_not_found, email_already_deleted}
use simple_pop3serv.Mail.Mailbox.{Mailbox}
use simple_pop3serv.Mail.Mailbox
use simple_pop3serv.Mail.Mailbox.Follows.{
  Follows, Follows-self, Follows-trans, delete_email-Follows, delete_emails-Follows, reset-Follows,
  set_update-Follows,
}
use simple_pop3serv.Session.{Session, deref}
use simple_pop3serv.Session.Reply.{
  put_mailbox_info_to_reponse, set_error_response, set_simple_ok_response,
}
use simple_pop3serv.Session.Anonymous.{get_text, get_uint}
use simple_pop3serv.Session.Read.{on_written, update_mailbox}
use simple_pop3serv.Session.Answers.{
  OnlyResponds, confirm_user-only, answer_email-only, answer_length-only,
}
use simple_pop3serv.Session.Authorized.{
  list_one, list_all, handle_list, answer_delete, delete_one, delete_all_mails, handle_delete,
  retrieve, handle_retr, authorized_case, handle_authorized_user_command,
}

abbrev pub FollowsOption : Option Mailbox → Option Mailbox → Type 0
FollowsOption none none = Unit
FollowsOption (some m) (some m') = Follows m m'
FollowsOption _ _ = ⊥

pub record Keeps (s s' : Session) : Type 0 where
  pub same_state : s'.state ≡ s.state
  pub same_user : s'.user_name ≡ s.user_name
  pub follows : FollowsOption s.mailbox s'.mailbox

FollowsOption-self : (m : Option Mailbox) → FollowsOption m m
FollowsOption-self none = tt
FollowsOption-self (some m) = Follows-self m

pub Keeps-only : (s s' : Session) → OnlyResponds s s' → Keeps s s'
Keeps-only s s' e = record {
  same_state = ap (λ (t : Session). t.state) e;
  same_user = ap (λ (t : Session). t.user_name) e;
  follows =
      subst (FollowsOption s.mailbox) (sym (ap (λ (t : Session). t.mailbox) e))
        (FollowsOption-self s.mailbox);
}

deref-eq : (mailbox : Option Mailbox) (m : Mailbox) → deref mailbox ≡ ok m → mailbox ≡ some m
unfolding deref
deref-eq none m e = cc
deref-eq (some k) m e = cc

FollowsOption-trans :
    (m m' : Mailbox) (o : Option Mailbox)
    → Follows m m'
    → FollowsOption (some m') o
    → FollowsOption (some m) o
FollowsOption-trans m m' none f g = g
FollowsOption-trans m m' (some k) f g = Follows-trans m m' k f g

-- A session with the mailbox changed to one that follows, and then one that keeps that.
Keeps-changed :
    (s s' : Session) (m m' : Mailbox)
    → s.mailbox ≡ some m
    → Follows m m'
    → Keeps (record s { mailbox = some m' }) s'
    → Keeps s s'
Keeps-changed s s' m m' e f k = record {
  same_state = k.same_state;
  same_user = k.same_user;
  follows =
      subst (λ (o : Option Mailbox). FollowsOption o s'.mailbox) (sym e)
        (FollowsOption-trans m m' s'.mailbox f k.follows);
}

-- The call, if it returns, gives a session that keeps what `s` has.
abbrev pub Keeping : Session → Outcome Session → Type 0
Keeping s = Ensures (Keeps s)

Keeping-changed :
    (s : Session) (m m' : Mailbox) (r : Outcome Session)
    → s.mailbox ≡ some m
    → Follows m m'
    → Keeping (record s { mailbox = some m' }) r
    → Keeping s r
Keeping-changed s m m' (ok s') e f k = Keeps-changed s s' m m' e f k
Keeping-changed s m m' (fault b) e f k = tt

module _ (boost : Boost) (disk : Disk) where
  pub info-Keeping : (s : Session) → Keeping s (put_mailbox_info_to_reponse boost disk s)
  unfolding put_mailbox_info_to_reponse
  info-Keeping s = Ensures-bind (Keeps s) (deref s.mailbox) _ (λ m e.
      Ensures-bind (Keeps s) (Mailbox.get_whole_mailbox_size disk m) _
        (λ size q. Keeps-only s _ refl))

  error-Keeps : (s : Session) (err : Bytes) → Keeps s (set_error_response boost s err)
  unfolding set_error_response
  error-Keeps s err = Keeps-only s _ refl

  simple-Keeps : (s : Session) (mesg : Bytes) → Keeps s (set_simple_ok_response boost s mesg)
  unfolding set_simple_ok_response
  simple-Keeps s mesg = Keeps-only s _ refl

  list_one-Keeping : (s : Session) (n : ℕ) → Keeping s (list_one boost disk s n)
  unfolding list_one
  list_one-Keeping s n = Ensures-bind (Keeps s) (deref s.mailbox) _ (λ m e.
      Ensures-bind (Keeps s) (Mailbox.get_email_length disk m n) _
        (λ r q. Keeps-only s _ (answer_length-only boost s n r)))

  list_all-Keeping : (s : Session) → Keeping s (list_all boost disk s)
  unfolding list_all
  list_all-Keeping s = Ensures-bind (Keeps s) (deref s.mailbox) _ (λ m e.
      Ensures-bind (Keeps s) (Mailbox.get_emails_lengths disk m) _ (λ lengths p.
        Ensures-bind (Keeps s) (Mailbox.get_whole_mailbox_size disk m) _
          (λ size q. Keeps-only s _ refl)))

  handle_list-Keeping : (s : Session) (p : Parameter) → Keeping s (handle_list boost disk p s)
  unfolding handle_list
  handle_list-Keeping s (uint n) = list_one-Keeping s n
  handle_list-Keeping s monostate = list_all-Keeping s
  handle_list-Keeping s (text t) = list_all-Keeping s

  answer_delete-Keeping :
      (s : Session) (r : MailboxOperationError) → Keeping s (answer_delete boost disk s r)
  unfolding answer_delete
  answer_delete-Keeping s email_not_found = error-Keeps s _
  answer_delete-Keeping s email_already_deleted = error-Keeps s _
  answer_delete-Keeping s _ = info-Keeping s

  delete_one-Keeping : (s : Session) (n : ℕ) → Keeping s (delete_one boost disk s n)
  unfolding delete_one
  delete_one-Keeping s n = Ensures-bind (Keeps s) (deref s.mailbox) _ (λ m e.
      Keeping-changed s m (Mailbox.delete_email m n).0 _ (deref-eq s.mailbox m e)
        (delete_email-Follows m n) (answer_delete-Keeping _ (Mailbox.delete_email m n).1))

  delete_all-Keeping : (s : Session) → Keeping s (delete_all_mails boost disk s)
  unfolding delete_all_mails
  delete_all-Keeping s = Ensures-bind (Keeps s) (deref s.mailbox) _ (λ m e.
      Keeps-changed s _ m (Mailbox.delete_emails m) (deref-eq s.mailbox m e)
        (delete_emails-Follows m) (simple-Keeps _ []))

  handle_delete-Keeping : (s : Session) (p : Parameter) → Keeping s (handle_delete boost disk p s)
  unfolding handle_delete
  handle_delete-Keeping s (uint n) = delete_one-Keeping s n
  handle_delete-Keeping s monostate = delete_all-Keeping s
  handle_delete-Keeping s (text t) = delete_all-Keeping s

  retrieve-Keeping :
      (s : Session) (m : Mailbox) (n : ℕ) (r : Variant ℕ MailboxOperationError)
      → Keeping s (retrieve boost disk s m n r)
  unfolding retrieve
  retrieve-Keeping s m n (error e) = error-Keeps s _
  retrieve-Keeping s m n (value size) =
      Ensures-bind (Keeps s) (Mailbox.get_email disk m n) _
        (λ r q. Keeps-only s _ (answer_email-only boost s size r))

  handle_retr-Keeping : (s : Session) (p : Parameter) → Keeping s (handle_retr boost disk p s)
  unfolding handle_retr
  handle_retr-Keeping s p = Ensures-bind (Keeps s) (get_uint p) _ (λ n a.
      Ensures-bind (Keeps s) (deref s.mailbox) _ (λ m e.
        Ensures-bind (Keeps s) (Mailbox.get_email_length disk m n) _
          (λ r q. retrieve-Keeping s m n r)))

  rset-Keeping : (s : Session) (p : Parameter) → Keeping s (authorized_case boost disk rset p s)
  unfolding authorized_case
  rset-Keeping s p = Ensures-bind (Keeps s) (deref s.mailbox) _ (λ m e.
      Keeping-changed s m (Mailbox.reset m) _ (deref-eq s.mailbox m e) (reset-Follows m)
        (info-Keeping _))

  pub authorized_case-Keeping :
      (t : Pop3CommandType) (p : Parameter) (s : Session)
      → Keeping s (authorized_case boost disk t p s)
  unfolding authorized_case
  authorized_case-Keeping list p s = handle_list-Keeping s p
  authorized_case-Keeping dele p s = handle_delete-Keeping s p
  authorized_case-Keeping noop p s = simple-Keeps s []
  authorized_case-Keeping user p s =
      Ensures-bind (Keeps s) (get_text p) _
        (λ name e. Keeps-only s _ (confirm_user-only boost s name))
  authorized_case-Keeping pass p s = error-Keeps s _
  authorized_case-Keeping quit p s =
      let k =
        simple-Keeps (record s { quit_command_received = true })
          (bytes "POP3 server signing off") in
      record { same_state = k.same_state; same_user = k.same_user; follows = k.follows }
  authorized_case-Keeping retr p s = handle_retr-Keeping s p
  authorized_case-Keeping stat p s = info-Keeping s
  authorized_case-Keeping rset p s = rset-Keeping s p
  authorized_case-Keeping unknown p s = Keeps-only s s refl

  -- A command of an authorized user leaves the session in its state, with its user and with the
  -- same mailbox under the same lock, valid if it was.
  pub authorized-Keeping :
      (cmd : Pop3Command) (s : Session)
      → Keeping s (handle_authorized_user_command boost disk cmd s)
  unfolding handle_authorized_user_command
  authorized-Keeping cmd s = authorized_case-Keeping cmd.cmd_type cmd.parameter s

update-FollowsOption : (o : Option Mailbox) → FollowsOption o (update_mailbox o)
update-FollowsOption none = tt
update-FollowsOption (some m) = set_update-Follows m

-- The end of the writing of a response sets no more than the update flag.
pub on_written-Keeps : (s : Session) → Keeps s (on_written s).0
unfolding on_written
on_written-Keeps s = elim (Bool-cases s.quit_command_received) [
  | inl last ↦
      rw last
        (record { same_state = refl; same_user = refl; follows = update-FollowsOption s.mailbox })
  | inr more ↦
      rw more
        (record { same_state = refl; same_user = refl; follows = FollowsOption-self s.mailbox })
]
