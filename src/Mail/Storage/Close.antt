-- ===== src/Mail/Storage/Close.antt =====
-- `~FileSystemMailStorage`: what becomes of the files when a storage is destroyed.
use simple_pop3serv.Base.{
  ℕ, ◌≡◌, refl, ◌∙◌, inl, inr, Bool, false, ◌||◌, ◌&&◌, Option, none, some, List, [], ◌∷◌,
  if◌then◌else◌, arith, bytes_eq, length, get_elem?, get_elem?_in_range, Bool-cases, ok, Outcome,
  fault, removal_failed, true, ◌⊎◌,
}
use simple_pop3serv.Mail.Disk.{Disk, FilePath, find_file, remove, removed, find_file-without_file}
use simple_pop3serv.Mail.Storage.{
  is_mail_marked_as_deleted, get_emails_count, Storage, delete_emails, set_update_flag,
  remove_emails, destroy,
}
use simple_pop3serv.Mail.Storage.Marks.{Within}
use simple_pop3serv.Mail.Storage.Valid.{IsValid}

abbrev pub is_path : Option FilePath → FilePath → Bool
is_path none q = false
is_path (some p) q = bytes_eq p q

-- Whether one of the numbers is that of a mail in the file `q`.
abbrev pub names_file : List FilePath → List ℕ → FilePath → Bool
names_file emails [] q = false
names_file emails (n ∷ ns) q = is_path (get_elem? emails n) q || names_file emails ns q

-- Whether the system refuses to remove the file of one of the numbers.
abbrev is_refused_at : (FilePath → Bool) → Option FilePath → Bool
is_refused_at refuses none = false
is_refused_at refuses (some p) = refuses p

abbrev pub is_refused : (FilePath → Bool) → List FilePath → List ℕ → Bool
is_refused refuses emails [] = false
is_refused refuses emails (n ∷ ns) =
    is_refused_at refuses (get_elem? emails n) || is_refused refuses emails ns

-- Whether the destructor of the storage meets a file that cannot be removed.
abbrev pub meets_refusal : (FilePath → Bool) → Storage → Bool
meets_refusal refuses s = s.update_at_close && is_refused refuses s.emails s.emails_to_be_deleted

remove_emails-step :
    (emails : List FilePath) (n : ℕ) (ns : List ℕ) (p : FilePath) (disk : Disk)
    → get_elem? emails n ≡ some p
    → disk.refuses p ≡ false
    → remove_emails emails (n ∷ ns) disk ≡ remove_emails emails ns (removed disk p)
unfolding remove_emails remove
remove_emails-step emails n ns p disk e quiet = rw (e, remove_emails) (rw quiet)

remove_emails-stops :
    (emails : List FilePath) (n : ℕ) (ns : List ℕ) (p : FilePath) (disk : Disk)
    → get_elem? emails n ≡ some p
    → disk.refuses p ≡ true
    → remove_emails emails (n ∷ ns) disk ≡ fault removal_failed
unfolding remove_emails remove
remove_emails-stops emails n ns p disk e refused = rw (e, remove_emails) (rw refused)

find_file-removed_step :
    (emails : List FilePath) (n : ℕ) (ns : List ℕ) (p : FilePath) (disk : Disk) (q : FilePath)
    → get_elem? emails n ≡ some p
    → (if names_file emails ns q then none else find_file (removed disk p).files q)
      ≡ (if names_file emails (n ∷ ns) q then none else find_file disk.files q)
find_file-removed_step emails n ns p disk q e =
    ground (arith, find_file-without_file p q disk.files)

-- The disk that a removal leaves: without the files that are in `gone`.
pub record Leaves (disk : Disk) (gone : FilePath → Bool) (r : Outcome Disk) : Type 0 where
  pub left : Disk
  pub returns : r ≡ ok left
  pub same_refuses : left.refuses ≡ disk.refuses
  pub found :
      (q : FilePath) → find_file left.files q ≡ (if gone q then none else find_file disk.files q)

remove_emails-Leaves :
    (emails : List FilePath) (ns : List ℕ) (disk : Disk)
    → Within 0 (length emails) ns
    → is_refused disk.refuses emails ns ≡ false
    → Leaves disk (names_file emails ns) (remove_emails emails ns disk)
unfolding remove_emails
remove_emails-Leaves emails [] disk w quiet = record {
  left = disk;
  returns = refl;
  same_refuses = refl;
  found = λ q. refl;
}
remove_emails-Leaves emails (n ∷ ns) disk w quiet =
    let (p, e) = get_elem?_in_range emails n (omega arith) in
    let here : disk.refuses p ≡ false = ground (arith, e, quiet) in
    let later : is_refused disk.refuses emails ns ≡ false = ground (arith, quiet) in
    let rest = remove_emails-Leaves emails ns (removed disk p) w.1 later in
    record {
      left = rest.left;
      returns = remove_emails-step emails n ns p disk e here ∙ rest.returns;
      same_refuses = rest.same_refuses;
      found = λ q. rest.found q ∙ find_file-removed_step emails n ns p disk q e;
    }

remove_emails-refused :
    (emails : List FilePath) (ns : List ℕ) (disk : Disk)
    → Within 0 (length emails) ns
    → is_refused disk.refuses emails ns ≡ true
    → remove_emails emails ns disk ≡ fault removal_failed
remove_emails-refused emails [] disk w refused = cc
remove_emails-refused emails (n ∷ ns) disk w refused =
    let (p, e) = get_elem?_in_range emails n (omega arith) in
    elim (Bool-cases (disk.refuses p)) [
      | inl here ↦ remove_emails-stops emails n ns p disk e here
      | inr quiet ↦
          let later : is_refused disk.refuses emails ns ≡ true =
            ground (arith, e, quiet, refused) in
          remove_emails-step emails n ns p disk e quiet
          ∙ remove_emails-refused emails ns (removed disk p) w.1 later
    ]

-- Whether the storage's destructor removes the file.
abbrev pub removes : Storage → FilePath → Bool
removes s q = s.update_at_close && names_file s.emails s.emails_to_be_deleted q

-- A storage that meets no refusal is destroyed without a fault.
pub destroy-Leaves :
    (s : Storage) (disk : Disk)
    → IsValid s
    → meets_refusal disk.refuses s ≡ false
    → Leaves disk (removes s) (destroy s disk)
unfolding destroy
destroy-Leaves s disk v quiet = elim (Bool-cases s.update_at_close) [
  | inl e ↦
      let unrefused : is_refused disk.refuses s.emails s.emails_to_be_deleted ≡ false =
        ground (arith, e, quiet) in
      rw e (remove_emails-Leaves s.emails s.emails_to_be_deleted disk v.within unrefused)
  | inr e ↦ rw e (record { left = disk; returns = refl; same_refuses = refl; found = λ q. refl })
]

destroy-refused :
    (s : Storage) (disk : Disk)
    → IsValid s
    → meets_refusal disk.refuses s ≡ true
    → destroy s disk ≡ fault removal_failed
unfolding destroy
destroy-refused s disk v refused =
    let e : s.update_at_close ≡ true = ground (arith, refused) in
    let h : is_refused disk.refuses s.emails s.emails_to_be_deleted ≡ true =
      ground (arith, refused) in
    rw e (remove_emails-refused s.emails s.emails_to_be_deleted disk v.within h)

-- A valid storage is destroyed. If its update flag is set and the system refuses to remove the file
-- of one of the numbers in its list of deletions, the destructor throws. If not, it does not fault:
-- with the update flag, the files of the numbers in the list are gone and every other file is as it
-- was; without it, all files are as they were.
pub destroy-files :
    (s : Storage) (disk : Disk)
    → IsValid s
    → ((meets_refusal disk.refuses s ≡ true) × (destroy s disk ≡ fault removal_failed))
      ⊎ ((meets_refusal disk.refuses s ≡ false) × Leaves disk (removes s) (destroy s disk))
destroy-files s disk v = elim (Bool-cases (meets_refusal disk.refuses s)) [
  | inl refused ↦ inl (refused, destroy-refused s disk v refused)
  | inr quiet ↦ inr (quiet, destroy-Leaves s disk v quiet)
]

-- `deleteEmails` marks every mail of a valid storage, and its count is 0. But when the storage is
-- then destroyed with its update flag set, and no removal is refused, exactly the files of the
-- numbers that were in the list of deletions before are gone, and those of the other mails stay.
pub destroy-delete_emails :
    (s : Storage) (disk : Disk)
    → IsValid s
    → is_refused disk.refuses s.emails s.emails_to_be_deleted ≡ false
    → ((n : ℕ) → is_mail_marked_as_deleted (delete_emails s) n ≡ true)
      × (get_emails_count (delete_emails s) ≡ 0)
      × Leaves disk
          (names_file s.emails s.emails_to_be_deleted)
          (destroy (set_update_flag (delete_emails s)) disk)
unfolding set_update_flag delete_emails is_mail_marked_as_deleted get_emails_count destroy
destroy-delete_emails s disk v quiet =
    (λ n. refl, refl, remove_emails-Leaves s.emails s.emails_to_be_deleted disk v.within quiet)
