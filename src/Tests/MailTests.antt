-- ===== src/Tests/MailTests.antt =====
-- Mailboxes and their storages on the sample disk.
use simple_pop3serv.Base.{
  fault, removal_failed, ◌⊎◌, false, ℕ, ◌-◌, ◌≡◌, refl, true, bytes_eq, some, List, [], ◌∷◌,
  if◌then◌else◌, arith, length, All, ok, error, bytes,
}
use simple_pop3serv.Mail.Disk.{Disk, file_size, read_file}
use simple_pop3serv.Mail.Errors.{email_not_found}
use simple_pop3serv.Mail.SizeMap.{lookup_key, sum_values, insert_all}
use simple_pop3serv.Mail.Storage.{
  Storage, is_mail_marked_as_deleted, destroy, set_update_flag, delete_emails,
}
use simple_pop3serv.Mail.Storage
use simple_pop3serv.Mail.Storage.Valid.{get_emails_count-IsValid}
use simple_pop3serv.Mail.Storage.Valid
use simple_pop3serv.Mail.Storage.Listing.{IsPresent}
use simple_pop3serv.Mail.Mailbox.Retrieval.{get_email-length}
use simple_pop3serv.Mail.Storage.Close.{
  names_file, meets_refusal, removes, Leaves, destroy-files, destroy-delete_emails,
}
use simple_pop3serv.Mail.Mailbox.{Mailbox, find_storage}
use simple_pop3serv.Mail.Mailbox
use simple_pop3serv.Mail.Mailbox.Find.{Locates, find_storage-Locates}
use simple_pop3serv.Mail.Mailbox.Valid.{IsValid, operations-IsValid}
use simple_pop3serv.Mail.Mailbox.Undo.{one, every, apply_deletions, reset-deletions}
use simple_pop3serv.Mail.Mailbox.Listing.{listing, get_emails_lengths-listing}
use simple_pop3serv.Mail.Mailbox.Numbers.{first_listed, get_emails_lengths-first_listed}
use simple_pop3serv.Mail.SizeMap.{SizeMap, Ascending}
use simple_pop3serv.Mail.Mailbox.Requests.{hidden_mail}
use simple_pop3serv.Mail.Mailbox.Maildrop.{Request, remove, count, size_of_mail, undo, replies}
use simple_pop3serv.Mail.Mailbox.Maildrop.View.{view}
use simple_pop3serv.Mail.Mailbox.Maildrop.Calls.{calls}
use simple_pop3serv.Mail.Mailbox.Maildrop.Refines.{calls-refine}
use simple_pop3serv.Mail.Storage.Valid.{new_storage-IsValid}
use simple_pop3serv.Mail.Storage.ReadFile
use simple_pop3serv.Mail.Storage.ReadFile.{read_file-content}
use simple_pop3serv.Tests.SampleDisk.{
  second_path, sample_disk, sample_storage, marked_storage, mailbox_of,
}

present : All (IsPresent sample_disk) sample_storage.emails
unfolding file_size bytes_eq
present = ((5, refl), ((3, refl), tt))

sample-IsValid : Valid.IsValid sample_storage
sample-IsValid = record { distinct = tt; within = tt; bounded = omega arith }

pub marked-IsValid : Valid.IsValid marked_storage
unfolding Storage.contains
marked-IsValid = record { distinct = (refl, tt); within = omega arith; bounded = omega arith }

abbrev one_mailbox : Mailbox
one_mailbox = mailbox_of (marked_storage ∷ [])

abbrev two_mailbox : Mailbox
two_mailbox = mailbox_of (sample_storage ∷ marked_storage ∷ [])

marked_is_marked : is_mail_marked_as_deleted marked_storage 0 ≡ true
unfolding is_mail_marked_as_deleted
marked_is_marked = refl

-- DELE of the first mail: the second one is then number 1, and the count is 1.
listing_run : Mailbox.get_emails_lengths sample_disk one_mailbox ≡ ok ((1, 3) ∷ [])
unfolding Mailbox.get_emails_lengths Storage.get_emails_lengths file_size bytes_eq
    is_mail_marked_as_deleted Storage.get_email_length insert_all
listing_run = refl

get_emails_count-IsValid_example : Storage.get_emails_count marked_storage ≡ (
    if marked_storage.delete_all
    then 0
    else length marked_storage.emails - length marked_storage.emails_to_be_deleted)
get_emails_count-IsValid_example = get_emails_count-IsValid marked_storage marked-IsValid

-- The second file cannot be removed.
abbrev refusing_disk : Disk
refusing_disk = record sample_disk { refuses = λ q. bytes_eq q second_path }

destroy-files_example :
    ((meets_refusal refusing_disk.refuses (set_update_flag marked_storage) ≡ true)
      × (destroy (set_update_flag marked_storage) refusing_disk ≡ fault removal_failed))
    ⊎ ((meets_refusal refusing_disk.refuses (set_update_flag marked_storage) ≡ false)
        × Leaves refusing_disk
            (removes (set_update_flag marked_storage))
            (destroy (set_update_flag marked_storage) refusing_disk))
destroy-files_example =
    destroy-files (set_update_flag marked_storage) refusing_disk
      (Valid.set_update_flag-IsValid marked_storage marked-IsValid)

destroy-delete_emails_example :
    ((n : ℕ) → is_mail_marked_as_deleted (delete_emails marked_storage) n ≡ true)
    × (Storage.get_emails_count (delete_emails marked_storage) ≡ 0)
    × Leaves refusing_disk
        (names_file marked_storage.emails marked_storage.emails_to_be_deleted)
        (destroy (set_update_flag (delete_emails marked_storage)) refusing_disk)
unfolding bytes_eq
destroy-delete_emails_example =
    destroy-delete_emails marked_storage refusing_disk marked-IsValid refl

-- Number 2 of the two storages is number 0 of the second one.
find_storage-Locates_example : Locates two_mailbox.storages 2 (find_storage two_mailbox.storages 2)
find_storage-Locates_example = find_storage-Locates two_mailbox.storages 2

operations-IsValid_example :
    IsValid (Mailbox.delete_email two_mailbox 1).0
    × IsValid (Mailbox.delete_emails two_mailbox)
    × IsValid (Mailbox.reset two_mailbox)
    × IsValid (Mailbox.set_update two_mailbox)
operations-IsValid_example = operations-IsValid two_mailbox 1 (sample-IsValid, (marked-IsValid, tt))

reset-deletions_example :
    Mailbox.reset (apply_deletions (mailbox_of (sample_storage ∷ [])) (one 1 ∷ every ∷ one 0 ∷ []))
    ≡ mailbox_of (sample_storage ∷ [])
reset-deletions_example =
    reset-deletions (mailbox_of (sample_storage ∷ [])) (one 1 ∷ every ∷ one 0 ∷ [])
      ((refl, refl), tt)

get_emails_lengths-listing_example :
    (Mailbox.get_emails_lengths sample_disk two_mailbox
      ≡ ok (listing sample_disk two_mailbox.storages 0))
    × (length (listing sample_disk two_mailbox.storages 0) ≡ Mailbox.get_emails_count two_mailbox)
    × (Mailbox.get_whole_mailbox_size sample_disk two_mailbox
        ≡ ok (sum_values 0 (listing sample_disk two_mailbox.storages 0)))
get_emails_lengths-listing_example =
    get_emails_lengths-listing sample_disk two_mailbox (sample-IsValid, (marked-IsValid, tt))
      (present, (present, tt)) ((refl, refl), tt) (omega arith)

-- The first of two mails is marked in the first storage, whose second mail has the number of the
-- first mail of the second storage.
abbrev colliding_mailbox : Mailbox
colliding_mailbox = mailbox_of (marked_storage ∷ sample_storage ∷ [])

get_emails_lengths-first_listed_example :
    (lengths : SizeMap) × (Mailbox.get_emails_lengths sample_disk colliding_mailbox ≡ ok lengths)
    × Ascending 0 lengths
    × ((n : ℕ) → lookup_key lengths n ≡ first_listed sample_disk colliding_mailbox.storages 0 n)
get_emails_lengths-first_listed_example =
    get_emails_lengths-first_listed sample_disk colliding_mailbox
      (marked-IsValid, (sample-IsValid, tt)) (present, (present, tt)) (omega arith)

-- The first of two mails is marked, and the second one, number 1, is out of reach.
hidden_mail_example :
    (lengths : SizeMap) × (Mailbox.get_emails_lengths sample_disk one_mailbox ≡ ok lengths)
    × (lookup_key lengths 1 ≡ some 3)
    × (Mailbox.get_email_length sample_disk one_mailbox 1 ≡ ok (error email_not_found))
    × (Mailbox.get_email sample_disk one_mailbox 1 ≡ ok (error email_not_found))
    × ((Mailbox.delete_email one_mailbox 1).1 ≡ email_not_found)
unfolding is_mail_marked_as_deleted file_size bytes_eq
hidden_mail_example =
    hidden_mail sample_disk one_mailbox marked_storage refl 1 second_path 3 marked-IsValid present
      refl refl refl (omega arith)

-- Number 0 of the two storages.
get_email-length_example : length (bytes "Hello") ≡ 5
unfolding Mailbox.get_email_length Mailbox.get_email find_storage Storage.get_emails_count
    Storage.get_email_length Storage.get_email is_mail_marked_as_deleted file_size read_file
    bytes_eq
get_email-length_example = get_email-length sample_disk two_mailbox 0 5 (bytes "Hello") refl refl

-- The second mail is deleted twice, and everything is taken back.
abbrev some_requests : List Request
some_requests = remove 0 ∷ count ∷ remove 0 ∷ size_of_mail 0 ∷ undo ∷ size_of_mail 1 ∷ []

calls-refine_example :
    calls sample_disk (mailbox_of (sample_storage ∷ [])) some_requests
    ≡ ok (replies (view sample_disk sample_storage) some_requests)
calls-refine_example =
    calls-refine sample_disk (mailbox_of (sample_storage ∷ [])) sample_storage some_requests refl
      (new_storage-IsValid sample_storage.emails (omega arith)) present

read_file-content_example : ReadFile.read_file 12 (bytes "Hello, mail") ≡ some (bytes "Hello, mail")
read_file-content_example = read_file-content (bytes "Hello, mail") 12 (omega arith)
