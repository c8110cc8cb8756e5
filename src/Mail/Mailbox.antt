-- ===== src/Mail/Mailbox.antt =====
-- Mailbox.{h,cpp}: the mailbox of one user, which joins several storages under one numbering.
-- The proofs are in the modules below.
pub mod Find
pub mod Valid
pub mod Follows
pub mod Undo
pub mod Listing
pub mod Numbers
pub mod Total
pub mod Present
pub mod Close
pub mod Requests
pub mod Retrieval
pub mod Maildrop
use simple_pop3serv.Base.{
  ℕ, zero, suc, ◌+◌, ◌-◌, ◌%◌, Option, none, some, List, [], ◌∷◌, ◌++◌, map, ltb, if◌then◌else◌,
  Bytes, size_mod, Outcome, ok, ◌>>=◌, Variant, value, error,
}
use simple_pop3serv.Mail.Disk.{Disk}
use simple_pop3serv.Mail.Errors.{MailboxOperationError, email_not_found, mail_is_marked_as_deleted}
use simple_pop3serv.Mail.SizeMap.{SizeMap, insert_all, sum_values}
use simple_pop3serv.Mail.Storage.{Storage, is_mail_marked_as_deleted}
use simple_pop3serv.Mail.Storage
use simple_pop3serv.Service.Lock.{MailboxLock}

pub record Mailbox : Type 0 where
  pub name : Bytes
  pub storages : List Storage
  pub lock : MailboxLock

-- std::accumulate over the storages
unfoldable pub count_from : ℕ → List Storage → ℕ
count_from sum [] = sum
count_from sum (s ∷ ss) = count_from ((sum + Storage.get_emails_count s) % size_mod) ss

unfoldable pub get_emails_count : Mailbox → ℕ
unfolding count_from
get_emails_count m = count_from 0 m.storages

-- Where `findStorage` stops: the storages before the iterator, the one at it, those behind it, and
-- what is left of `emailNumber`, which it changes.
pub record Found : Type 0 where
  pub before : List Storage
  pub here : Storage
  pub after : List Storage
  pub number : ℕ

abbrev pub step_over : Storage → Option Found → Option Found
step_over s none = none
step_over s (some f) = some (record f { before = s ∷ f.before })

-- `none` is `storages.cend()`.
unfoldable pub find_storage : List Storage → ℕ → Option Found
find_storage [] n = none
find_storage (s ∷ ss) n =
    let rest = find_storage ss (n - Storage.get_emails_count s) in
    if ltb n (Storage.get_emails_count s)
    then some (record { before = []; here = s; after = ss; number = n })
    else step_over s rest

-- The mailbox with the storage at the iterator changed.
abbrev pub put_back : Mailbox → Found → Storage → Mailbox
put_back m f s = record m { storages = f.before ++ s ∷ f.after }

delete_in : Mailbox → Option Found → Mailbox × MailboxOperationError
delete_in m none = (m, email_not_found)
delete_in m (some f) =
    let (s, result) = Storage.delete_email f.here f.number in (put_back m f s, result)

unfoldable pub delete_email : Mailbox → ℕ → Mailbox × MailboxOperationError
unfolding delete_in
delete_email m n = delete_in m (find_storage m.storages n)

unfoldable pub delete_emails : Mailbox → Mailbox
delete_emails m = record m { storages = map Storage.delete_emails m.storages }

unfoldable pub reset : Mailbox → Mailbox
reset m = record m { storages = map Storage.reset m.storages }

unfoldable pub set_update : Mailbox → Mailbox
set_update m = record m { storages = map Storage.set_update_flag m.storages }

module _ (disk : Disk) where
  -- The loop over the storages, with its map and its offset.
  unfoldable pub lengths_from : List Storage → ℕ → SizeMap → Outcome SizeMap
  lengths_from [] offset lengths = ok lengths
  lengths_from (s ∷ ss) offset lengths = Storage.get_emails_lengths disk s offset >>= λ mp.
      lengths_from ss ((offset + Storage.get_emails_count s) % size_mod) (insert_all mp lengths)

  unfoldable pub get_emails_lengths : Mailbox → Outcome SizeMap
  unfolding lengths_from
  get_emails_lengths m = lengths_from m.storages 0 []

  unfoldable pub get_whole_mailbox_size : Mailbox → Outcome ℕ
  unfolding get_emails_lengths
  get_whole_mailbox_size m = do mp ← get_emails_lengths m; ok (sum_values 0 mp)

  length_in : Option Found → Outcome (Variant ℕ MailboxOperationError)
  length_in none = ok (error email_not_found)
  length_in (some f) =
      if is_mail_marked_as_deleted f.here f.number
      then ok (error mail_is_marked_as_deleted)
      else do len ← Storage.get_email_length disk f.here f.number; ok (value len)

  unfoldable pub get_email_length : Mailbox → ℕ → Outcome (Variant ℕ MailboxOperationError)
  unfolding length_in
  get_email_length m n = length_in (find_storage m.storages n)

  email_in : Option Found → Outcome (Variant Bytes MailboxOperationError)
  email_in none = ok (error email_not_found)
  email_in (some f) = Storage.get_email disk f.here f.number

  unfoldable pub get_email : Mailbox → ℕ → Outcome (Variant Bytes MailboxOperationError)
  unfolding email_in
  get_email m n = email_in (find_storage m.storages n)

-- The storages are destroyed one after the other.
unfoldable pub destroy_storages : List Storage → Disk → Outcome Disk
destroy_storages [] disk = ok disk
destroy_storages (s ∷ ss) disk = Storage.destroy s disk >>= λ disk'. destroy_storages ss disk'
