-- ===== src/Mail/Mailbox/Valid.antt =====
-- The invariant of a mailbox, that its operations keep it, and what they change.
use simple_pop3serv.Base.{
  ℕ, ◌<◌, ◌≡◌, refl, sym, subst, Option, none, some, List, [], ◌∷◌, ◌++◌, map, All, All-append,
  All-append_left, All-append_right,
}
use simple_pop3serv.Mail.Storage.{Storage, is_mail_marked_as_deleted}
use simple_pop3serv.Mail.Storage
use simple_pop3serv.Mail.Storage.Valid.{
  delete_email-IsValid, delete_emails-IsValid, reset-IsValid, set_update_flag-IsValid,
}
use simple_pop3serv.Mail.Storage.Valid
use simple_pop3serv.Mail.Mailbox.{
  Mailbox, Found, find_storage, put_back, delete_in, delete_email, delete_emails, reset, set_update,
}
use simple_pop3serv.Mail.Mailbox.Find.{Locates, find_storage-Locates}

abbrev pub IsValid : Mailbox → Type 0
IsValid m = All Valid.IsValid m.storages

-- A predicate on storages holds of all storages of a mailbox after an operation on each of them,
-- or on the one that `findStorage` finds, if the operation keeps it.
module _ (P : Storage → Type 0) where
  pub All-map :
      (f : Storage → Storage) (ss : List Storage)
      → ((s : Storage) → P s → P (f s))
      → All P ss
      → All P (map f ss)
  All-map f [] keep h = tt
  All-map f (s ∷ ss) keep h = (keep s h.0, All-map f ss keep h.1)

  pub found-All :
      (m : Mailbox) (n : ℕ) (f : Found)
      → All P m.storages
      → find_storage m.storages n ≡ some f
      → P f.here
        × (f.number < Storage.get_emails_count f.here)
        × ((s : Storage) → P s → All P (put_back m f s).storages)
  found-All m n f v e =
      let at : Locates m.storages n (some f) =
        subst (Locates m.storages n) e (find_storage-Locates m.storages n) in
      let parts : All P (f.before ++ f.here ∷ f.after) = subst (All P) (sym at.0) v in
      let right = All-append_right P f.before (f.here ∷ f.after) parts in
      (
        right.0,
        at.1,
        λ s h.
            All-append P f.before (s ∷ f.after)
              (All-append_left P f.before (f.here ∷ f.after) parts) (h, right.1),
      )

  delete_in-All :
      (m : Mailbox) (n : ℕ) (r : Option Found)
      → ((s : Storage) (k : ℕ)
          → P s
          → k < Storage.get_emails_count s
          → P (Storage.delete_email s k).0)
      → All P m.storages
      → find_storage m.storages n ≡ r
      → All P (delete_in m r).0.storages
  unfolding delete_in
  delete_in-All m n none keep v e = v
  delete_in-All m n (some f) keep v e =
      let (here, small, put) = found-All m n f v e in
      put (Storage.delete_email f.here f.number).0 (keep f.here f.number here small)

  pub delete_email-All :
      (m : Mailbox) (n : ℕ)
      → ((s : Storage) (k : ℕ)
          → P s
          → k < Storage.get_emails_count s
          → P (Storage.delete_email s k).0)
      → All P m.storages
      → All P (delete_email m n).0.storages
  unfolding delete_email
  delete_email-All m n keep v = delete_in-All m n (find_storage m.storages n) keep v refl

pub found-IsValid :
    (m : Mailbox) (n : ℕ) (f : Found)
    → IsValid m
    → find_storage m.storages n ≡ some f
    → Valid.IsValid f.here
      × (f.number < Storage.get_emails_count f.here)
      × ((s : Storage) → Valid.IsValid s → IsValid (put_back m f s))
found-IsValid m n f v e = found-All Valid.IsValid m n f v e

-- Every operation keeps a mailbox valid: `deleteEmail` with whatever number, `deleteEmails`,
-- `reset` and `setUpdate`.
pub operations-IsValid :
    (m : Mailbox) (n : ℕ)
    → IsValid m
    → IsValid (delete_email m n).0
      × IsValid (delete_emails m)
      × IsValid (reset m)
      × IsValid (set_update m)
unfolding delete_emails reset set_update
operations-IsValid m n v = (
  delete_email-All Valid.IsValid m n delete_email-IsValid v,
  All-map Valid.IsValid Storage.delete_emails m.storages delete_emails-IsValid v,
  All-map Valid.IsValid Storage.reset m.storages reset-IsValid v,
  All-map Valid.IsValid Storage.set_update_flag m.storages set_update_flag-IsValid v,
)
