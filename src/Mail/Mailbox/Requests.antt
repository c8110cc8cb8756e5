-- ===== src/Mail/Mailbox/Requests.antt =====
-- Requests for single mails: how LIST, RETR and DELE with a number see the mailbox.
use simple_pop3serv.Base.{
  ◌<◌, refl, sym, subst, All, length, size_mod, ℕ, ◌+◌, ◌≤◌, ◌≡◌, ap, ◌∙◌, false, none, some, [],
  ◌∷◌, append-nil, ltb, if◌then◌else◌, arith, get_elem?, ok, ◌>>=◌, value, error,
}
use simple_pop3serv.Mail.Disk.{Disk, FilePath, file_size}
use simple_pop3serv.Mail.Errors.{email_not_found, mail_is_marked_as_deleted}
use simple_pop3serv.Mail.SizeMap.{SizeMap, lookup_key}
use simple_pop3serv.Mail.Storage.{Storage, is_mail_marked_as_deleted}
use simple_pop3serv.Mail.Storage
use simple_pop3serv.Mail.Storage.Listing.{IsPresent, size_of, listed}
use simple_pop3serv.Mail.Storage.Lookup.{lookup_key-listed}
use simple_pop3serv.Mail.Storage.Valid
use simple_pop3serv.Mail.Storage.Valid.{get_emails_count-IsValid}
use simple_pop3serv.Mail.Mailbox.{
  Mailbox, get_emails_lengths, find_storage, get_email_length, get_email, delete_email,
}
use simple_pop3serv.Mail.Mailbox.Listing.{
  listing, total_emails, OnlyLastMarked, AllPresent, get_emails_lengths-listing,
}

module _ (disk : Disk) (m : Mailbox) (s : Storage) (single : m.storages ≡ s ∷ []) where
  pub length_of_number :
      (n : ℕ)
      → get_email_length disk m n ≡ (
          if ltb n (Storage.get_emails_count s)
          then (if is_mail_marked_as_deleted s n
              then ok (error mail_is_marked_as_deleted)
              else (Storage.get_email_length disk s n >>= λ len. ok (value len)))
          else ok (error email_not_found))
  unfolding get_email_length find_storage
  length_of_number n = rw single (ground arith)

  lookup_of_number :
      (n : ℕ) (p : FilePath)
      → get_elem? s.emails n ≡ some p
      → lookup_key (listing disk m.storages 0) n
        ≡ (if is_mail_marked_as_deleted s n then none else some (size_of disk p))
  lookup_of_number n p e =
      ap (λ ss. lookup_key (listing disk ss 0) n) single
      ∙ ap (λ lengths. lookup_key lengths n) (append-nil (listed disk s 0 0 s.emails))
      ∙ ap (lookup_key (listed disk s 0 0 s.emails)) (let same : n ≡ n + 0 = omega arith in same)
      ∙ lookup_key-listed disk s 0 n p e

  listed_with :
      (n : ℕ) (p : FilePath) (len : ℕ)
      → Valid.IsValid s
      → All (IsPresent disk) s.emails
      → get_elem? s.emails n ≡ some p
      → file_size disk p ≡ some len
      → is_mail_marked_as_deleted s n ≡ false
      → (get_emails_lengths disk m ≡ ok (listing disk m.storages 0))
        × (lookup_key (listing disk m.storages 0) n ≡ some len)
  listed_with n p len v there e sized free = (
    (get_emails_lengths-listing disk m (subst (All Valid.IsValid) (sym single) (v, tt))
        (subst (AllPresent disk) (sym single) (there, tt)) (subst OnlyLastMarked (sym single) tt)
        (let fits : length s.emails + 0 < size_mod = omega (arith, v.bounded) in
          subst (λ ss. total_emails ss < size_mod) (sym single) fits)).0,
    lookup_of_number n p e ∙ rw (free, size_of, sized) refl,
  )

  -- In a valid mailbox of one storage whose files are there, an unmarked mail whose number is not
  -- below the number of mails less the number of marks, such as the last one once another is marked:
  -- getEmailsLengths returns a listing that has the mail with its size, and LIST, RETR and DELE with
  -- that number all answer that there is no such mail.
  pub hidden_mail :
      (n : ℕ) (p : FilePath) (len : ℕ)
      → Valid.IsValid s
      → All (IsPresent disk) s.emails
      → get_elem? s.emails n ≡ some p
      → file_size disk p ≡ some len
      → is_mail_marked_as_deleted s n ≡ false
      → length s.emails ≤ n + length s.emails_to_be_deleted
      → (lengths : SizeMap) × (get_emails_lengths disk m ≡ ok lengths)
        × (lookup_key lengths n ≡ some len)
        × (get_email_length disk m n ≡ ok (error email_not_found))
        × (get_email disk m n ≡ ok (error email_not_found))
        × ((delete_email m n).1 ≡ email_not_found)
  unfolding get_email delete_email find_storage
  hidden_mail n p len v there e sized free few =
      let (returns, found) = listed_with n p len v there e sized free in
      let counted = get_emails_count-IsValid s v in
      let high : Storage.get_emails_count s ≤ n = ground (arith, counted, few) in
      (
        listing disk m.storages 0,
        returns,
        found,
        length_of_number n ∙ ground arith,
        rw single (ground arith),
        rw single (ground arith),
      )
