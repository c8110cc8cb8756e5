-- ===== src/Mail/Mailbox/Total.antt =====
-- No request to a valid mailbox ends in a fault while its files are there.
use simple_pop3serv.Base.{
  ℕ, zero, suc, ◌+◌, ◌%◌, ◌≤◌, ◌<◌, ◌≡◌, refl, sym, subst, inl, inr, Option, none, some, List, [],
  ◌∷◌, arith, length, get_elem?, get_elem?_in_range, size_mod, All, Bool-cases, Outcome, ok, ◌>>=◌,
  value, All-append_right,
}
use simple_pop3serv.Mail.Disk.{Disk, FilePath, file_size, read_file}
use simple_pop3serv.Mail.SizeMap.{SizeMap, emplace, insert_all, sum_values}
use simple_pop3serv.Mail.Storage.{
  Storage, is_mail_marked_as_deleted, lengths_loop, or_internal_error,
}
use simple_pop3serv.Mail.Storage
use simple_pop3serv.Mail.Storage.Valid.{count-le}
use simple_pop3serv.Mail.Storage.Listing.{
  IsPresent, size_of, get_email_length-at, lengths_loop-marked,
}
use simple_pop3serv.Mail.Mailbox.{
  Mailbox, Found, find_storage, lengths_from, get_emails_lengths, get_whole_mailbox_size, length_in,
  get_email_length, email_in, get_email,
}
use simple_pop3serv.Mail.Mailbox.Find.{Locates, find_storage-Locates}
use simple_pop3serv.Mail.Mailbox.Listing.{AllPresent}
use simple_pop3serv.Mail.Mailbox.Valid.{IsValid, found-IsValid}

-- The call returns a value.
abbrev pub IsOk {ℓ} : {A : Type ℓ} → Outcome A → Type ℓ
IsOk {A} r = (a : A) × (r ≡ ok a)

pub IsOk-bind {ℓ} :
    {A B : Type ℓ} (r : Outcome A) (f : A → Outcome B)
    → IsOk r
    → ((a : A) → IsOk (f a))
    → IsOk (r >>= f)
IsOk-bind r f (a, e) h = let (b, q) = h a in (b, rw e q)

pub All-get_elem? :
    (P : FilePath → Type 0) (ps : List FilePath) (n : ℕ) (p : FilePath)
    → All P ps
    → get_elem? ps n ≡ some p
    → P p
All-get_elem? P [] n p h e = cc
All-get_elem? P (q ∷ ps) zero p h e = let same : q ≡ p = cc in subst P same h.0
All-get_elem? P (q ∷ ps) (suc n) p h e = All-get_elem? P ps n p h.1 e

module _ (disk : Disk) where
  storage_length-IsOk :
      (s : Storage) (n : ℕ)
      → All (IsPresent disk) s.emails
      → n < length s.emails
      → IsOk (Storage.get_email_length disk s n)
  storage_length-IsOk s n there h =
      let (p, e) = get_elem?_in_range s.emails n h in
      (
        size_of disk p,
        get_email_length-at disk s n p e (All-get_elem? (IsPresent disk) s.emails n p there e),
      )

  storage_email-IsOk :
      (s : Storage) (n : ℕ)
      → All (IsPresent disk) s.emails
      → n < length s.emails
      → IsOk (Storage.get_email disk s n)
  unfolding Storage.get_email
  storage_email-IsOk s n there h =
      let (p, e) = get_elem?_in_range s.emails n h in
      let (size, known) = All-get_elem? (IsPresent disk) s.emails n p there e in
      email_at s n p size e known
    where
      email_at :
          (s : Storage) (n : ℕ) (p : FilePath) (size : ℕ)
          → get_elem? s.emails n ≡ some p
          → file_size disk p ≡ some size
          → IsOk (Storage.get_email disk s n)
      email_at s n p size e known = elim (Bool-cases (is_mail_marked_as_deleted s n)) [
        | inl marked ↦ rw marked (_, refl)
        | inr free ↦ rw free (or_internal_error (read_file disk p), ground arith)
      ]

  lengths_loop-IsOk :
      (s : Storage) (offset rounds i : ℕ) (lengths : SizeMap)
      → All (IsPresent disk) s.emails
      → i + rounds ≤ length s.emails
      → IsOk (lengths_loop disk s offset rounds i lengths)
  unfolding lengths_loop
  lengths_loop-IsOk s offset zero i lengths there h = (lengths, refl)
  lengths_loop-IsOk s offset (suc rounds) i lengths there h =
      elim (Bool-cases (is_mail_marked_as_deleted s i)) [
        | inl e ↦
            rw (lengths_loop-marked disk s offset rounds i lengths e)
              (lengths_loop-IsOk s offset rounds (i + 1) lengths there (omega arith))
        | inr e ↦
            rw (e, lengths_loop)
              (IsOk-bind (Storage.get_email_length disk s i)
                (λ len.
                  lengths_loop disk s offset rounds (i + 1)
                    (emplace ((i + offset) % size_mod) len lengths))
                (storage_length-IsOk s i there (omega arith))
                (λ len. lengths_loop-IsOk s offset rounds (i + 1) _ there (omega arith)))
      ]

  lengths_from-IsOk :
      (ss : List Storage) (offset : ℕ) (lengths : SizeMap)
      → AllPresent disk ss
      → IsOk (lengths_from disk ss offset lengths)
  unfolding lengths_from Storage.get_emails_lengths
  lengths_from-IsOk [] offset lengths there = (lengths, refl)
  lengths_from-IsOk (s ∷ ss) offset lengths there =
      IsOk-bind (Storage.get_emails_lengths disk s offset) _
        (lengths_loop-IsOk s offset (length s.emails) 0 [] there.0 (omega arith))
        (λ mp. lengths_from-IsOk ss _ (insert_all mp lengths) there.1)

  -- The listing and the size of a mailbox whose files are there are computed without a fault,
  -- whatever is marked.
  pub listing-IsOk :
      (m : Mailbox)
      → AllPresent disk m.storages
      → IsOk (get_emails_lengths disk m) × IsOk (get_whole_mailbox_size disk m)
  unfolding get_emails_lengths get_whole_mailbox_size
  listing-IsOk m there =
      let all = lengths_from-IsOk m.storages 0 [] there in
      (all, IsOk-bind (lengths_from disk m.storages 0 []) _ all (λ mp. (sum_values 0 mp, refl)))

  found-IsPresent :
      (m : Mailbox) (n : ℕ) (f : Found)
      → AllPresent disk m.storages
      → find_storage m.storages n ≡ some f
      → All (IsPresent disk) f.here.emails
  found-IsPresent m n f there e =
      let at : Locates m.storages n (some f) =
        subst (Locates m.storages n) e (find_storage-Locates m.storages n) in
      (All-append_right (λ (s : Storage). All (IsPresent disk) s.emails) f.before (f.here ∷ f.after)
        (subst (AllPresent disk) (sym at.0) there)).0

  found_in_range :
      (m : Mailbox) (n : ℕ) (f : Found)
      → IsValid m
      → find_storage m.storages n ≡ some f
      → f.number < length f.here.emails
  found_in_range m n f v e =
      let (valid, small, put) = found-IsValid m n f v e in omega (arith, count-le f.here valid)

  length_in-IsOk :
      (m : Mailbox) (n : ℕ) (r : Option Found)
      → IsValid m
      → AllPresent disk m.storages
      → find_storage m.storages n ≡ r
      → IsOk (length_in disk r)
  unfolding length_in
  length_in-IsOk m n none v there e = (_, refl)
  length_in-IsOk m n (some f) v there e =
      elim (Bool-cases (is_mail_marked_as_deleted f.here f.number)) [
        | inl marked ↦ rw marked (_, refl)
        | inr free ↦ rw free (
            IsOk-bind (Storage.get_email_length disk f.here f.number) _
              (storage_length-IsOk f.here f.number (found-IsPresent m n f there e)
                (found_in_range m n f v e))
              (λ len. (value len, refl)))
      ]

  email_in-IsOk :
      (m : Mailbox) (n : ℕ) (r : Option Found)
      → IsValid m
      → AllPresent disk m.storages
      → find_storage m.storages n ≡ r
      → IsOk (email_in disk r)
  unfolding email_in
  email_in-IsOk m n none v there e = (_, refl)
  email_in-IsOk m n (some f) v there e =
      storage_email-IsOk f.here f.number (found-IsPresent m n f there e) (found_in_range m n f v e)

  -- On a valid mailbox whose files are there, a request for the length of a mail and one for the
  -- mail are answered, by a value or an error code, whatever the number.
  pub requests-IsOk :
      (m : Mailbox) (n : ℕ)
      → IsValid m
      → AllPresent disk m.storages
      → IsOk (get_email_length disk m n) × IsOk (get_email disk m n)
  unfolding get_email_length get_email
  requests-IsOk m n v there = (
    length_in-IsOk m n (find_storage m.storages n) v there refl,
    email_in-IsOk m n (find_storage m.storages n) v there refl,
  )
