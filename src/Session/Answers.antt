-- ===== src/Session/Answers.antt =====
-- Every command after the logon is answered: the handlers of `handleAuthorizedUserCommand` return,
-- keep the mailbox valid, and leave a well-formed response.
use simple_pop3serv.Base.{
  ℕ, ◌≡◌, refl, sym, ap, ◌∙◌, subst, inl, inr, Option, none, some, Bytes, bytes_eq, Outcome, ok,
  Variant, value, error, Bool-cases,
}
use simple_pop3serv.Protocol.Boost.{Boost, BoostLaws}
use simple_pop3serv.Mail.Disk.{Disk}
use simple_pop3serv.Mail.Errors.{MailboxOperationError}
use simple_pop3serv.Mail.Mailbox.{Mailbox}
use simple_pop3serv.Mail.Mailbox
use simple_pop3serv.Mail.Mailbox.Listing.{AllPresent}
use simple_pop3serv.Mail.Mailbox.Total.{listing-IsOk, requests-IsOk}
use simple_pop3serv.Mail.Mailbox.Valid.{operations-IsValid}
use simple_pop3serv.Mail.Mailbox.Valid
use simple_pop3serv.Session.{Session}
use simple_pop3serv.Session.Reply.{put_mailbox_info_to_reponse, mailbox_info, set_error_response}
use simple_pop3serv.Session.Authorized.{
  listing_response, list_one, list_all, answer_length, answer_email, confirm_user,
}
use simple_pop3serv.Session.Shape.{
  IsReply, mailbox_info-IsReply, answer_length-IsReply, listing_response-IsReply,
}

-- A mailbox is open, valid, and its files are on the disk.
abbrev pub IsOpen : Disk → Option Mailbox → Type 0
IsOpen disk none = ⊥
IsOpen disk (some m) = Valid.IsValid m × AllPresent disk m.storages

-- The session after a command: same state and user, a usable mailbox, and a response.
pub record Answers (disk : Disk) (s s' : Session) : Type 0 where
  pub same_state : s'.state ≡ s.state
  pub same_user : s'.user_name ≡ s.user_name
  pub still_open : IsOpen disk s'.mailbox
  pub reply : IsReply s'.response

abbrev pub IsAnswered : Disk → Session → Outcome Session → Type 0
IsAnswered disk s r = (s' : Session) × (r ≡ ok s') × Answers disk s s'

-- Only the response differs.
abbrev pub OnlyResponds : Session → Session → Type 0
OnlyResponds s s' = s' ≡ record s { response = s'.response }

module _ (boost : Boost) (s : Session) where
  pub answer_length-only :
      (number : ℕ) (r : Variant ℕ MailboxOperationError)
      → OnlyResponds s (answer_length boost s number r)
  unfolding answer_length set_error_response
  answer_length-only number (error e) = refl
  answer_length-only number (value size) = refl

  pub answer_email-only :
      (size : ℕ) (r : Variant Bytes MailboxOperationError)
      → OnlyResponds s (answer_email boost s size r)
  unfolding answer_email set_error_response
  answer_email-only size (error e) = refl
  answer_email-only size (value content) = refl

  pub confirm_user-only : (name : Bytes) → OnlyResponds s (confirm_user boost s name)
  unfolding confirm_user set_error_response
  confirm_user-only name = elim (Bool-cases (bytes_eq s.user_name name)) [
    | inl same ↦ rw same
    | inr other ↦ rw other
  ]

module _ (disk : Disk) (s : Session) (m : Mailbox) (has : s.mailbox ≡ some m) where
  pub answers :
      (s' : Session)
      → OnlyResponds s s'
      → IsReply s'.response
      → Valid.IsValid m
      → AllPresent disk m.storages
      → Answers disk s s'
  answers s' only reply v there = record {
    same_state = ap (λ (t : Session). t.state) only;
    same_user = ap (λ (t : Session). t.user_name) only;
    still_open =
        subst (IsOpen disk) (sym has ∙ sym (ap (λ (t : Session). t.mailbox) only)) (v, there);
    reply = reply;
  }

module _ {boost : Boost} (laws : BoostLaws boost) (disk : Disk) (s : Session) (m : Mailbox)
    (has : s.mailbox ≡ some m) (v : Valid.IsValid m) (there : AllPresent disk m.storages) where
  -- The answer with the count and the size of the mailbox.
  pub info-IsAnswered : IsAnswered disk s (put_mailbox_info_to_reponse boost disk s)
  unfolding put_mailbox_info_to_reponse
  info-IsAnswered =
      let (size, e) = (listing-IsOk disk m there).1 in
      (
        record s { response = mailbox_info boost s.user_name (Mailbox.get_emails_count m) size },
        rw (has, e, put_mailbox_info_to_reponse),
        answers disk s m has _ refl (mailbox_info-IsReply laws s.user_name _ size) v there,
      )

  pub list_one-IsAnswered : (number : ℕ) → IsAnswered disk s (list_one boost disk s number)
  unfolding list_one
  list_one-IsAnswered number =
      let (result, e) = (requests-IsOk disk m number v there).0 in
      (
        answer_length boost s number result,
        rw (has, e, list_one),
        answers disk s m has _ (answer_length-only boost s number result)
            (answer_length-IsReply laws s number result) v there,
      )

  pub list_all-IsAnswered : IsAnswered disk s (list_all boost disk s)
  unfolding list_all
  list_all-IsAnswered =
      let ((lengths, e), (size, f)) = listing-IsOk disk m there in
      (
        record s { response = listing_response boost (Mailbox.get_emails_count m) size lengths },
        rw (has, e, f, list_all),
        answers disk s m has _ refl (listing_response-IsReply laws _ size lengths) v there,
      )
