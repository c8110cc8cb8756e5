-- ===== src/Session/Told/Content.antt =====
-- The content that RETR reads, for a mailbox that stands for a maildrop.
use simple_pop3serv.Base.{
  ℕ, zero, suc, ◌≡◌, ◌∙◌, subst, inl, inr, Bool, true, false, some, List, [], ◌∷◌, map,
  if◌then◌else◌, ltb, arith, get_elem?, get_elem?_in_range, ok, value, error, Bool-cases,
}
use simple_pop3serv.Mail.Disk.{Disk, FilePath, read_file}
use simple_pop3serv.Mail.Errors.{email_not_found}
use simple_pop3serv.Mail.Storage.{Storage, is_mail_marked_as_deleted, or_internal_error, email_path}
use simple_pop3serv.Mail.Storage
use simple_pop3serv.Mail.Storage.Listing.{IsPresent}
use simple_pop3serv.Mail.Storage.Valid.{count-le}
use simple_pop3serv.Mail.Mailbox.{Mailbox, find_storage, get_email_length, get_email}
use simple_pop3serv.Mail.Mailbox.Requests.{length_of_number}
use simple_pop3serv.Mail.Mailbox.Total.{All-get_elem?}
use simple_pop3serv.Mail.Mailbox.Maildrop.{Maildrop}
use simple_pop3serv.Mail.Mailbox.Maildrop.Calls.{Represents}
use simple_pop3serv.Session.Told.{content_at}

get_elem?-map {ℓ κ} :
    {A : Type ℓ} {B : Type κ} (f : A → B) (xs : List A) (n : ℕ) (x : A)
    → get_elem? xs n ≡ some x
    → get_elem? (map f xs) n ≡ some (f x)
get_elem?-map f [] n x e = cc
get_elem?-map f (y ∷ xs) zero x e = cc
get_elem?-map f (y ∷ xs) (suc n) x e = get_elem?-map f xs n x e

module _ (disk : Disk) where
  get_email_at :
      (s : Storage) (n : ℕ) (p : FilePath)
      → is_mail_marked_as_deleted s n ≡ false
      → get_elem? s.emails n ≡ some p
      → IsPresent disk p
      → Storage.get_email disk s n ≡ ok (or_internal_error (read_file disk p))
  unfolding Storage.get_email email_path
  get_email_at s n p free e (size, there) = ground arith

  module _ (m : Mailbox) (s : Storage) (single : m.storages ≡ s ∷ []) where
    get_email_single :
        (n : ℕ)
        → get_email disk m n ≡ (
            if ltb n (Storage.get_emails_count s)
            then Storage.get_email disk s n
            else ok (error email_not_found))
    unfolding get_email find_storage
    get_email_single n = rw single (ground arith)

    low_and_free :
        (n size : ℕ)
        → get_email_length disk m n ≡ ok (value size)
        → (ltb n (Storage.get_emails_count s) ≡ true) × (is_mail_marked_as_deleted s n ≡ false)
    low_and_free n size e = elim (Bool-cases (ltb n (Storage.get_emails_count s))) [
      | inl low ↦ elim (Bool-cases (is_mail_marked_as_deleted s n)) [
        | inl marked ↦ cc (rw (low, marked) at (length_of_number disk m s single n), e)
        | inr free ↦ (low, free)
      ]
      | inr high ↦ cc (rw high at (length_of_number disk m s single n), e)
    ]

-- If the length of a mail is answered, its content is read, and the answer is the content of the
-- file at its place among the files, or an error where the file does not open.
pub content-Represents :
    (disk : Disk) (emails : List FilePath) (all update : Bool) (m : Mailbox) (d : Maildrop)
    → Represents disk emails all update m d
    → (n size : ℕ) → get_email_length disk m n ≡ ok (value size)
    → get_email disk m n
      ≡ ok (or_internal_error (content_at (get_elem? (map (read_file disk) emails) n)))
content-Represents disk emails all update m d h n size e =
    let (low, free) = low_and_free disk m h.storage h.single n size e in
    let (p, at) =
      get_elem?_in_range h.storage.emails n (ground (arith, count-le h.storage h.valid)) in
    let here = subst (λ ps. get_elem? ps n ≡ some p) h.same_emails at in
    get_email_single disk m h.storage h.single n
    ∙ rw (low, get_elem?-map (read_file disk) emails n p here)
        (get_email_at disk h.storage n p free at
          (All-get_elem? (IsPresent disk) h.storage.emails n p h.there at))
