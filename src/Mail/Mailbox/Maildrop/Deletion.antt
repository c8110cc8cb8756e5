-- ===== src/Mail/Mailbox/Maildrop/Deletion.antt =====
-- `deleteEmail` of one storage, as the maildrop sees it.
use simple_pop3serv.Base.{
  ℕ, ◌≡◌, refl, sym, ap, ◌∙◌, inl, inr, true, ◌||◌, ◌==◌, some, arith, ==_iff, Bool-cases,
}
use simple_pop3serv.Mail.Disk.{Disk, FilePath}
use simple_pop3serv.Mail.Storage.{Storage, contains, is_mail_marked_as_deleted}
use simple_pop3serv.Mail.Storage
use simple_pop3serv.Mail.Storage.Marks.{contains-append}
use simple_pop3serv.Mail.Mailbox.Maildrop.{result, remove_reply}
use simple_pop3serv.Mail.Mailbox.Maildrop.View.{mail_of}

-- What `deleteEmail` of a storage answers and does, whether the mail was marked or not.
pub delete_email-effect :
    (s : Storage) (n : ℕ)
    → ((disk : Disk) (p : FilePath)
        → result (Storage.delete_email s n).1 ≡ remove_reply (some (mail_of disk s n p)))
      × ((Storage.delete_email s n).0.emails ≡ s.emails)
      × ((k : ℕ)
          → is_mail_marked_as_deleted (Storage.delete_email s n).0 k
            ≡ (is_mail_marked_as_deleted s k || n == k))
      × ((Storage.delete_email s n).0.delete_all ≡ s.delete_all)
      × ((Storage.delete_email s n).0.update_at_close ≡ s.update_at_close)
unfolding Storage.delete_email
delete_email-effect s n = elim (Bool-cases (is_mail_marked_as_deleted s n)) [
  | inl marked ↦ rw marked (
    (λ disk p. refl),
    refl,
    λ k. elim (Bool-cases (n == k)) [
      | inl same ↦
          let there : is_mail_marked_as_deleted s k ≡ true =
            ap (is_mail_marked_as_deleted s) (sym ((==_iff n k).0 same)) ∙ marked in
          there ∙ ground (arith, there)
      | inr other ↦ rw other (ground arith)
    ],
    refl,
    refl,
  )
  | inr free ↦ rw free (
    (λ disk p. refl),
    refl,
    λ k.
        unfold is_mail_marked_as_deleted in
        ground (arith, contains-append s.emails_to_be_deleted n k),
    refl,
    refl,
  )
]
