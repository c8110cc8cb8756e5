-- ===== src/Mail/Mailbox/Retrieval.antt =====
-- `getEmailLength` and `getEmail`: the size that is reported is that of the content that is sent.
use simple_pop3serv.Base.{
  ℕ, ◌≡◌, inl, inr, Option, none, some, Bytes, length, arith, Bool-cases, Outcome, ok, ◌>>=◌,
  Variant, value, fault,
}
use simple_pop3serv.Mail.Disk.{Disk, file_size, read_file}
use simple_pop3serv.Mail.Errors.{MailboxOperationError}
use simple_pop3serv.Mail.Storage.{Storage, is_mail_marked_as_deleted, email_path}
use simple_pop3serv.Mail.Storage
use simple_pop3serv.Mail.Mailbox.{
  Mailbox, Found, find_storage, length_in, email_in, get_email_length, get_email,
}

abbrev as_value : ℕ → Outcome (Variant ℕ MailboxOperationError)
as_value k = ok (value k)

length_of_value : (r : Outcome ℕ) (len : ℕ) → (r >>= as_value) ≡ ok (value len) → r ≡ ok len
length_of_value (ok k) len e = cc
length_of_value (fault b) len e = cc

module _ (disk : Disk) where
  storage-size :
      (s : Storage) (n len : ℕ) (content : Bytes)
      → Storage.get_email_length disk s n ≡ ok len
      → Storage.get_email disk s n ≡ ok (value content)
      → length content ≡ len
  unfolding Storage.get_email_length Storage.get_email email_path file_size read_file
  storage-size s n len content e r = ground arith

  found-size :
      (r : Option Found) (len : ℕ) (content : Bytes)
      → length_in disk r ≡ ok (value len)
      → email_in disk r ≡ ok (value content)
      → length content ≡ len
  unfolding length_in email_in
  found-size none len content e r = cc
  found-size (some f) len content e r =
      elim (Bool-cases (is_mail_marked_as_deleted f.here f.number)) [
        | inl marked ↦ cc (rw marked at e)
        | inr free ↦
            storage-size f.here f.number len content
              (length_of_value (Storage.get_email_length disk f.here f.number) len (rw free at e)) r
      ]

  -- If a mail's length and its content are both answered, as RETR needs, the length is the number
  -- of bytes of the content.
  pub get_email-length :
      (m : Mailbox) (n len : ℕ) (content : Bytes)
      → get_email_length disk m n ≡ ok (value len)
      → get_email disk m n ≡ ok (value content)
      → length content ≡ len
  unfolding get_email_length get_email
  get_email-length m n len content e r = found-size (find_storage m.storages n) len content e r
