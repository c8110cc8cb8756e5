-- ===== src/Mail/Mailbox/Find.antt =====
-- `findStorage`: where the walk over the storages stops, and what it leaves of the number.
use simple_pop3serv.Base.{
  ℕ, ◌+◌, ◌-◌, ◌%◌, ◌≤◌, ◌<◌, ◌≡◌, refl, ap, inl, inr, Option, none, some, List, [], ◌∷◌, ◌++◌, ltb,
  arith, Bool-cases, size_mod,
}
use simple_pop3serv.Mail.Storage.{Storage}
use simple_pop3serv.Mail.Storage
use simple_pop3serv.Mail.Mailbox.{
  Mailbox, Found, find_storage, step_over, count_from, get_emails_count,
}

-- The mails of the storages that are not marked, in unbounded numbers.
abbrev pub total_count : List Storage → ℕ
total_count [] = 0
total_count (s ∷ ss) = Storage.get_emails_count s + total_count ss

-- What an answer of `findStorage` for the number `n` says.
abbrev pub Locates : List Storage → ℕ → Option Found → Type 0
Locates ss n none = total_count ss ≤ n
Locates ss n (some f) =
    (f.before ++ f.here ∷ f.after ≡ ss)
    × (f.number < Storage.get_emails_count f.here)
    × (total_count f.before + f.number ≡ n)

Locates-step_over :
    (s : Storage) (ss : List Storage) (n : ℕ) (r : Option Found)
    → Storage.get_emails_count s ≤ n
    → Locates ss (n - Storage.get_emails_count s) r
    → Locates (s ∷ ss) n (step_over s r)
Locates-step_over s ss n none h l = omega arith
Locates-step_over s ss n (some f) h l = (ap (◌∷◌ s) l.0, l.1, omega (arith, l.2))

-- The walk ends at the storage that holds the number, counted over the unmarked mails of the
-- storages before it, with the rest of the number in range; it runs off the end exactly when the
-- storages together have no such number.
pub find_storage-Locates : (ss : List Storage) (n : ℕ) → Locates ss n (find_storage ss n)
unfolding find_storage
find_storage-Locates [] n = omega arith
find_storage-Locates (s ∷ ss) n = elim (Bool-cases (ltb n (Storage.get_emails_count s))) [
  | inl here ↦ rw here (refl, ground arith, omega arith)
  | inr on ↦ rw on (
      Locates-step_over s ss n (find_storage ss (n - Storage.get_emails_count s)) (ground arith)
        (find_storage-Locates ss (n - Storage.get_emails_count s)))
]

count_from-total :
    (sum : ℕ) (ss : List Storage)
    → sum + total_count ss < size_mod
    → count_from sum ss ≡ sum + total_count ss
unfolding count_from
count_from-total sum [] h = omega arith
count_from-total sum (s ∷ ss) h =
    let e : (sum + Storage.get_emails_count s) % size_mod ≡ sum + Storage.get_emails_count s =
      omega arith in
    rw e (omega (arith, count_from-total (sum + Storage.get_emails_count s) ss (omega arith)))

-- As long as that sum fits `std::size_t`, the count of the mailbox is the sum of the counts of
-- its storages.
pub get_emails_count-total :
    (m : Mailbox) → total_count m.storages < size_mod → get_emails_count m ≡ total_count m.storages
unfolding get_emails_count
get_emails_count-total m h = omega (arith, count_from-total 0 m.storages (omega arith))
