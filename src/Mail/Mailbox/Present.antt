-- ===== src/Mail/Mailbox/Present.antt =====
-- No operation on the marks changes which files a mailbox has.
use simple_pop3serv.Base.{ℕ, inl, inr, All, Bool-cases}
use simple_pop3serv.Mail.Disk.{Disk}
use simple_pop3serv.Mail.Storage.{
  Storage, is_mail_marked_as_deleted, lengths_loop, or_internal_error,
}
use simple_pop3serv.Mail.Storage
use simple_pop3serv.Mail.Storage.Listing.{IsPresent}
use simple_pop3serv.Mail.Mailbox.{Mailbox, delete_email, delete_emails, reset, set_update}
use simple_pop3serv.Mail.Mailbox.Listing.{AllPresent}
use simple_pop3serv.Mail.Mailbox.Valid.{All-map, delete_email-All}

module _ (disk : Disk) where
  storage-IsPresent-delete_email :
      (s : Storage) (n : ℕ)
      → All (IsPresent disk) s.emails
      → All (IsPresent disk) (Storage.delete_email s n).0.emails
  unfolding Storage.delete_email
  storage-IsPresent-delete_email s n h = elim (Bool-cases (is_mail_marked_as_deleted s n)) [
    | inl e ↦ rw e h
    | inr e ↦ rw e h
  ]

  -- No operation on the marks changes which files a mailbox has.
  pub operations-AllPresent :
      (m : Mailbox)
      → AllPresent disk m.storages
      → ((n : ℕ) → AllPresent disk (delete_email m n).0.storages)
        × AllPresent disk (delete_emails m).storages
        × AllPresent disk (reset m).storages
        × AllPresent disk (set_update m).storages
  unfolding delete_emails reset set_update
  operations-AllPresent m v = (
    λ n. delete_email-All there m n (λ s k h small. storage-IsPresent-delete_email s k h) v,
    All-map there Storage.delete_emails m.storages (λ s h. unfold Storage.delete_emails in h) v,
    All-map there Storage.reset m.storages (λ s h. unfold Storage.reset in h) v,
    All-map there Storage.set_update_flag m.storages (λ s h. unfold Storage.set_update_flag in h) v,
  )
    where
      there : Storage → Type 0
      there s = All (IsPresent disk) s.emails
