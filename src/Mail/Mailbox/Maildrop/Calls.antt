-- ===== src/Mail/Mailbox/Maildrop/Calls.antt =====
-- The requests to a maildrop as calls of a mailbox, and what it means that a mailbox of one storage
-- stands for a maildrop.
use simple_pop3serv.Base.{
  ℕ, ◌+◌, ◌≤◌, ◌<◌, ◌≡◌, ap, ◌∙◌, inl, inr, Bool, true, false, none, some, List, [], ◌∷◌, ltb,
  arith, get_elem?, get_elem?_in_range, Bool-cases, All, Outcome, ok, ◌>>=◌, Variant, value, error,
}
use simple_pop3serv.Mail.Disk.{Disk, FilePath}
use simple_pop3serv.Mail.Errors.{MailboxOperationError}
use simple_pop3serv.Mail.Storage.{Storage, contains, is_mail_marked_as_deleted}
use simple_pop3serv.Mail.Storage
use simple_pop3serv.Mail.Storage.Valid.{IsValid, count-le}
use simple_pop3serv.Mail.Storage.Listing.{IsPresent, get_email_length-at}
use simple_pop3serv.Mail.Mailbox.{
  Mailbox, get_emails_count, get_email_length, delete_email, delete_emails, reset,
}
use simple_pop3serv.Mail.Mailbox.Find.{total_count, get_emails_count-total}
use simple_pop3serv.Mail.Mailbox.Requests.{length_of_number}
use simple_pop3serv.Mail.Mailbox.Total.{All-get_elem?}
use simple_pop3serv.Mail.Mailbox.Maildrop.{
  Maildrop, unmarked, Request, count, undo, remove_all, size_of_mail, remove, Reply, number, result,
  done, size_reply, mail_at,
}
use simple_pop3serv.Mail.Mailbox.Maildrop.View.{mail_of, view, get_elem?-view_from, unmarked-view}

abbrev pub length_reply : Variant ℕ MailboxOperationError → Reply
length_reply (value k) = number k
length_reply (error e) = result e

module _ (disk : Disk) where
  abbrev pub sized : Mailbox → Variant ℕ MailboxOperationError → Mailbox × Reply
  sized m r = (m, length_reply r)

  -- The request as a call of the mailbox.
  abbrev pub call : Mailbox → Request → Outcome (Mailbox × Reply)
  call m count = ok (m, number (get_emails_count m))
  call m (size_of_mail n) = get_email_length disk m n >>= λ r. ok (sized m r)
  call m (remove n) = ok ((delete_email m n).0, result (delete_email m n).1)
  call m remove_all = ok (delete_emails m, done)
  call m undo = ok (reset m, done)

  abbrev pub calls : Mailbox → List Request → Outcome (List Reply)
  calls m [] = ok []
  calls m (r ∷ rs) = call m r >>= λ first. calls first.0 rs >>= λ rest. ok (first.1 ∷ rest)

  -- The mailbox has one valid storage on the files `emails`, which are on the disk, and looks like
  -- the maildrop; `all` says whether all mails were deleted at once,
  -- and `update` whether the update flag is set.
  pub record Represents (emails : List FilePath) (all update : Bool) (m : Mailbox) (d : Maildrop)
      : Type 0 where
    pub storage : Storage
    pub single : m.storages ≡ storage ∷ []
    pub valid : IsValid storage
    pub there : All (IsPresent disk) storage.emails
    pub looks : view disk storage ≡ d
    pub same_emails : storage.emails ≡ emails
    pub same_all : storage.delete_all ≡ all
    pub same_update : storage.update_at_close ≡ update

  module _ (s : Storage) (v : IsValid s) (there : All (IsPresent disk) s.emails) where
    -- A number below the count finds its mail.
    pub mail_at-view :
        (n : ℕ)
        → n < Storage.get_emails_count s
        → (p : FilePath) × (get_elem? s.emails n ≡ some p)
          × (mail_at (view disk s) n ≡ some (mail_of disk s n p))
    mail_at-view n low =
        let (p, e) = get_elem?_in_range s.emails n (omega (arith, count-le s v)) in
        let at : get_elem? (view disk s) n ≡ some (mail_of disk s n p) =
          get_elem?-view_from disk s 0 s.emails n p e
          ∙ ap (λ k. some (mail_of disk s k p)) (let k : 0 + n ≡ n = omega arith in k) in
        let here : ltb n (unmarked (view disk s)) ≡ true =
          ap (ltb n) (unmarked-view disk s v) ∙ ground arith in
        (p, e, rw here at)

    pub mail_at-none : (n : ℕ) → Storage.get_emails_count s ≤ n → mail_at (view disk s) n ≡ none
    mail_at-none n high =
        let far : ltb n (unmarked (view disk s)) ≡ false =
          ap (ltb n) (unmarked-view disk s v) ∙ ground arith in
        rw far

    pub size_reply-view :
        (m : Mailbox) (n : ℕ)
        → m.storages ≡ s ∷ []
        → (get_email_length disk m n >>= λ r. ok (sized m r))
          ≡ ok (m, size_reply (mail_at (view disk s) n))
    size_reply-view m n single = elim (Bool-cases (ltb n (Storage.get_emails_count s))) [
      | inl low ↦
          let (p, e, at) = mail_at-view n (ground arith) in
          let here = length_of_number disk m s single n in
          let len =
            get_email_length-at disk s n p e
              (All-get_elem? (IsPresent disk) s.emails n p there e) in
          rw (here, low, at, len)
            (elim (Bool-cases (is_mail_marked_as_deleted s n)) [
              | inl marked ↦ rw marked
              | inr free ↦ rw free
            ])
      | inr high ↦ rw (length_of_number disk m s single n, high, mail_at-none n (ground arith))
    ]

    pub below_count : (n : ℕ) → ltb n (unmarked (view disk s)) ≡ ltb n (Storage.get_emails_count s)
    below_count n = ap (ltb n) (unmarked-view disk s v)

    pub count_single :
        (m : Mailbox) → m.storages ≡ s ∷ [] → get_emails_count m ≡ Storage.get_emails_count s
    count_single m single =
        let all = ap total_count single in
        omega (arith, all, get_emails_count-total m (omega (arith, all, count-le s v, v.bounded)))
