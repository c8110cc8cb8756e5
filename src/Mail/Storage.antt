-- ===== src/Mail/Storage.antt =====
-- MailStorage.h and FileSystemMailStorage.{h,cpp}: one storage of mails. The only subclass of
-- `MailStorage` is `FileSystemMailStorage`, so its fields and overrides stand here with the base's.
-- The proofs are in the modules below.
pub mod Marks
pub mod Valid
pub mod Listing
pub mod Lookup
pub mod Close
pub mod ReadFile
use simple_pop3serv.Base.{
  ℕ, zero, suc, ◌+◌, ◌-◌, ◌%◌, Bool, true, false, not, ◌||◌, Option, none, some, List, [], ◌∷◌,
  ◌++◌, ◌==◌, if◌then◌else◌, Bytes, length, get_elem?, size_mod, Outcome, ok, fault, ◌>>=◌,
  out_of_range, file_missing, Variant, value, error,
}
use simple_pop3serv.Mail.Errors.{
  MailboxOperationError, no_error, email_already_deleted, mail_is_marked_as_deleted, internal_error,
}
use simple_pop3serv.Mail.Disk.{Disk, FilePath, file_size, read_file, remove}
use simple_pop3serv.Mail.SizeMap.{SizeMap, emplace}

pub record Storage : Type 0 where
  pub emails : List FilePath
  pub emails_to_be_deleted : List ℕ
  pub delete_all : Bool
  pub update_at_close : Bool

-- The constructor.
abbrev pub new_storage : List FilePath → Storage
new_storage emails = record {
  emails = emails;
  emails_to_be_deleted = [];
  delete_all = false;
  update_at_close = false;
}

-- std::find in the vector of numbers, as a test.
unfoldable pub contains : List ℕ → ℕ → Bool
contains [] n = false
contains (x ∷ xs) n = x == n || contains xs n

unfoldable pub is_mail_marked_as_deleted : Storage → ℕ → Bool
unfolding contains
is_mail_marked_as_deleted s n = if s.delete_all then true else contains s.emails_to_be_deleted n

-- `emails.size() - emailsToBeDeleted.size()` in `std::size_t`
unfoldable pub get_emails_count : Storage → ℕ
get_emails_count s =
    if s.delete_all
    then 0
    else (length s.emails + size_mod - length s.emails_to_be_deleted) % size_mod

unfoldable pub delete_email : Storage → ℕ → Storage × MailboxOperationError
delete_email s n =
    if is_mail_marked_as_deleted s n
    then (s, email_already_deleted)
    else (record s { emails_to_be_deleted = s.emails_to_be_deleted ++ n ∷ [] }, no_error)

unfoldable pub delete_emails : Storage → Storage
delete_emails s = record s { delete_all = true }

unfoldable pub reset : Storage → Storage
reset s = record s { delete_all = false; emails_to_be_deleted = [] }

unfoldable pub set_update_flag : Storage → Storage
set_update_flag s = record s { update_at_close = true }

-- `emails[n]`
unfoldable pub email_path : Storage → ℕ → Outcome FilePath
email_path s n = elim (get_elem? s.emails n) [ none ↦ fault out_of_range | some p ↦ ok p ]

abbrev pub or_missing {ℓ} : {A : Type ℓ} → Option A → Outcome A
or_missing none = fault file_missing
or_missing (some a) = ok a

abbrev pub or_internal_error : Option Bytes → Variant Bytes MailboxOperationError
or_internal_error none = error internal_error
or_internal_error (some content) = value content

module _ (disk : Disk) where
  unfoldable pub get_email_length : Storage → ℕ → Outcome ℕ
  unfolding email_path
  get_email_length s n = do path ← email_path s n; or_missing (file_size disk path)

  unfoldable pub get_email : Storage → ℕ → Outcome (Variant Bytes MailboxOperationError)
  unfolding email_path
  get_email s n = if is_mail_marked_as_deleted s n then ok (error mail_is_marked_as_deleted) else do
    path ← email_path s n
    len ← or_missing (file_size disk path)
    ok (or_internal_error (read_file disk path))

  -- The rounds of the `for` loop that are left, from the mail `i` on.
  unfoldable pub lengths_loop : Storage → ℕ → ℕ → ℕ → SizeMap → Outcome SizeMap
  lengths_loop s offset zero i lengths = ok lengths
  lengths_loop s offset (suc rounds) i lengths = elim (is_mail_marked_as_deleted s i) [
    | true ↦ lengths_loop s offset rounds (i + 1) lengths
    | false ↦ get_email_length s i >>= λ len.
        lengths_loop s offset rounds (i + 1) (emplace ((i + offset) % size_mod) len lengths)
  ]

  unfoldable pub get_emails_lengths : Storage → ℕ → Outcome SizeMap
  unfolding lengths_loop
  get_emails_lengths s offset = lengths_loop s offset (length s.emails) 0 []

-- The loop of the destructor: the first removal that throws ends it.
unfoldable pub remove_emails : List FilePath → List ℕ → Disk → Outcome Disk
remove_emails emails [] disk = ok disk
remove_emails emails (n ∷ ns) disk = elim (get_elem? emails n) [
  | none ↦ fault out_of_range
  | some path ↦ remove disk path >>= remove_emails emails ns
]

-- `~FileSystemMailStorage`
unfoldable pub destroy : Storage → Disk → Outcome Disk
unfolding remove_emails
destroy s disk =
    if s.update_at_close then remove_emails s.emails s.emails_to_be_deleted disk else ok disk
