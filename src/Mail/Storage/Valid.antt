-- ===== src/Mail/Storage/Valid.antt =====
-- The invariant of a storage, and that every operation keeps it.
use simple_pop3serv.Base.{
  ℕ, ◌-◌, ◌≤◌, ◌<◌, ◌≡◌, inl, inr, false, List, [], ◌∷◌, if◌then◌else◌, arith, length, size_mod,
  All-append, Bool-cases,
}
use simple_pop3serv.Mail.Disk.{FilePath}
use simple_pop3serv.Mail.Storage.{
  Storage, new_storage, contains, is_mail_marked_as_deleted, get_emails_count, delete_email,
  delete_emails, reset, set_update_flag,
}
use simple_pop3serv.Mail.Storage.Marks.{Distinct, Within, Distinct-append, length-Distinct}

-- The marked numbers are distinct numbers of mails, and the vector of mails fits the memory.
pub record IsValid (s : Storage) : Type 0 where
  pub distinct : Distinct s.emails_to_be_deleted
  pub within : Within 0 (length s.emails) s.emails_to_be_deleted
  pub bounded : length s.emails < size_mod

pub new_storage-IsValid :
    (emails : List FilePath) → length emails < size_mod → IsValid (new_storage emails)
new_storage-IsValid emails h = record { distinct = tt; within = tt; bounded = h }

-- Not more numbers are marked than there are mails, so that the subtraction of the sizes in
-- `getEmailsCount` does not wrap.
pub marked-le : (s : Storage) → IsValid s → length s.emails_to_be_deleted ≤ length s.emails
marked-le s v = length-Distinct s.emails_to_be_deleted (length s.emails) v.distinct v.within

-- On a valid storage the count is the number of mails less the marked ones, and 0 once all are
-- marked.
pub get_emails_count-IsValid :
    (s : Storage)
    → IsValid s
    → get_emails_count s
      ≡ (if s.delete_all then 0 else length s.emails - length s.emails_to_be_deleted)
unfolding get_emails_count
get_emails_count-IsValid s v = ground (arith, marked-le s v, v.bounded)

pub count-le : (s : Storage) → IsValid s → get_emails_count s ≤ length s.emails
count-le s v = ground (arith, get_emails_count-IsValid s v)

unmarked_contains :
    (s : Storage) (n : ℕ)
    → is_mail_marked_as_deleted s n ≡ false
    → contains s.emails_to_be_deleted n ≡ false
unfolding is_mail_marked_as_deleted
unmarked_contains s n e = ground arith

-- `deleteEmail` on a number that `findStorage` hands it keeps the storage valid.
pub delete_email-IsValid :
    (s : Storage) (n : ℕ) → IsValid s → n < get_emails_count s → IsValid (delete_email s n).0
unfolding delete_email
delete_email-IsValid s n v h = elim (Bool-cases (is_mail_marked_as_deleted s n)) [
  | inl e ↦ rw e v
  | inr e ↦ rw e (record {
    distinct = Distinct-append s.emails_to_be_deleted n v.distinct (unmarked_contains s n e);
    within =
        All-append (λ x. (0 ≤ x) × (x < length s.emails)) s.emails_to_be_deleted (n ∷ []) v.within
          ((omega arith, omega (arith, count-le s v)), tt);
    bounded = v.bounded;
  })
]

pub delete_emails-IsValid : (s : Storage) → IsValid s → IsValid (delete_emails s)
unfolding delete_emails
delete_emails-IsValid s v = record { distinct = v.distinct; within = v.within; bounded = v.bounded }

pub reset-IsValid : (s : Storage) → IsValid s → IsValid (reset s)
unfolding reset
reset-IsValid s v = record { distinct = tt; within = tt; bounded = v.bounded }

pub set_update_flag-IsValid : (s : Storage) → IsValid s → IsValid (set_update_flag s)
unfolding set_update_flag
set_update_flag-IsValid s v = record {
  distinct = v.distinct;
  within = v.within;
  bounded = v.bounded;
}
