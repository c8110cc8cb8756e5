-- ===== src/Mail/Mailbox/Listing.antt =====
-- `Mailbox::getEmailsLengths`: the listing of the whole mailbox.
use simple_pop3serv.Base.{
  ℕ, ◌+◌, ◌%◌, ◌≤◌, ◌<◌, ◌≡◌, refl, sym, ap, ◌∙◌, subst, List, [], ◌∷◌, ◌++◌, append-nil,
  append_assoc, arith, length, length-append, size_mod, All, All-append, ok,
}
use simple_pop3serv.Mail.Disk.{Disk}
use simple_pop3serv.Mail.SizeMap.{
  SizeMap, KeysBelow, KeysBelow-mono, insert_all, insert_all-Ascending, sum_values, Ascending,
}
use simple_pop3serv.Mail.Storage.{Storage}
use simple_pop3serv.Mail.Storage
use simple_pop3serv.Mail.Storage.Valid.{get_emails_count-IsValid}
use simple_pop3serv.Mail.Storage.Valid
use simple_pop3serv.Mail.Storage.Listing.{
  IsPresent, listed, get_emails_lengths-listed, length-listed-count, listed-Ascending,
  listed-KeysBelow,
}
use simple_pop3serv.Mail.Mailbox.{
  Mailbox, lengths_from, get_emails_lengths, get_whole_mailbox_size, get_emails_count,
}
use simple_pop3serv.Mail.Mailbox.Find.{total_count, get_emails_count-total}
use simple_pop3serv.Mail.Mailbox.Undo.{IsUnmarked}

-- Every storage but the last has nothing marked. A mailbox with one storage is always so.
abbrev pub OnlyLastMarked : List Storage → Type 0
OnlyLastMarked [] = Unit
OnlyLastMarked (s ∷ []) = Unit
OnlyLastMarked (s ∷ t ∷ ss) = IsUnmarked s × OnlyLastMarked (t ∷ ss)

-- All mails, marked or not, in unbounded numbers.
abbrev pub total_emails : List Storage → ℕ
total_emails [] = 0
total_emails (s ∷ ss) = length s.emails + total_emails ss

count-IsUnmarked :
    (s : Storage) → Valid.IsValid s → IsUnmarked s → Storage.get_emails_count s ≡ length s.emails
count-IsUnmarked s v u = get_emails_count-IsValid s v ∙ rw (u.1, u.0) (omega arith)

module _ (disk : Disk) where
  -- The files of the mailbox are there.
  abbrev pub AllPresent : List Storage → Type 0
  AllPresent = All (λ s. All (IsPresent disk) s.emails)

  -- The unmarked mails of the storages, one storage after the other, each numbered behind the
  -- unmarked mails of the storages before its own.
  abbrev pub listing : List Storage → ℕ → SizeMap
  listing [] offset = []
  listing (s ∷ ss) offset =
      listed disk s offset 0 s.emails ++ listing ss (offset + Storage.get_emails_count s)

  pub lengths_from-step :
      (s : Storage) (ss : List Storage) (offset : ℕ) (lengths mp : SizeMap)
      → Storage.get_emails_lengths disk s offset ≡ ok mp
      → lengths_from disk (s ∷ ss) offset lengths
        ≡ lengths_from disk ss
            ((offset + Storage.get_emails_count s) % size_mod)
            (insert_all mp lengths)
  unfolding lengths_from
  lengths_from-step s ss offset lengths mp e = rw e

  module _ (s : Storage) (offset : ℕ) (lengths : SizeMap) where
    lengths_from-listed :
        (ss : List Storage)
        → All (IsPresent disk) s.emails
        → length s.emails + offset ≤ size_mod
        → KeysBelow offset lengths
        → lengths_from disk (s ∷ ss) offset lengths
          ≡ lengths_from disk ss
              ((offset + Storage.get_emails_count s) % size_mod)
              (lengths ++ listed disk s offset 0 s.emails)
    lengths_from-listed ss there fits below =
        lengths_from-step s ss offset lengths (listed disk s offset 0 s.emails)
          (get_emails_lengths-listed disk s offset there fits)
        ∙ ap (lengths_from disk ss ((offset + Storage.get_emails_count s) % size_mod)) (
            insert_all-Ascending offset (listed disk s offset 0 s.emails) lengths below (
              subst (λ lo. Ascending lo (listed disk s offset 0 s.emails)) (omega arith)
                (listed-Ascending disk s offset 0 s.emails)))

  below-listed :
      (s : Storage) (offset : ℕ) (lengths : SizeMap)
      → Storage.get_emails_count s ≡ length s.emails
      → KeysBelow offset lengths
      → KeysBelow (offset + Storage.get_emails_count s) (lengths ++ listed disk s offset 0 s.emails)
  below-listed s offset lengths c below =
      All-append (λ p. p.0 < offset + Storage.get_emails_count s) lengths
        (listed disk s offset 0 s.emails) (KeysBelow-mono lengths (omega arith) below)
        (KeysBelow-mono (listed disk s offset 0 s.emails) (omega arith)
          (listed-KeysBelow disk s offset 0 s.emails))

  lengths_from-listing :
      (ss : List Storage) (offset : ℕ) (lengths : SizeMap)
      → All Valid.IsValid ss
      → AllPresent ss
      → OnlyLastMarked ss
      → offset + total_emails ss < size_mod
      → KeysBelow offset lengths
      → lengths_from disk ss offset lengths ≡ ok (lengths ++ listing ss offset)
  unfolding lengths_from
  lengths_from-listing [] offset lengths v there last fits below =
      ap (λ (m : SizeMap). ok m) (sym (append-nil lengths))
  lengths_from-listing (s ∷ []) offset lengths v there last fits below =
      lengths_from-listed s offset lengths [] there.0 (omega arith) below
      ∙ ap (λ (m : SizeMap). ok (lengths ++ m)) (sym (append-nil (listed disk s offset 0 s.emails)))
  lengths_from-listing (s ∷ t ∷ ss) offset lengths v there last fits below =
      let c : Storage.get_emails_count s ≡ length s.emails = count-IsUnmarked s v.0 last.0 in
      let mails : SizeMap = listed disk s offset 0 s.emails in
      lengths_from-listed s offset lengths (t ∷ ss) there.0 (omega arith) below
      ∙ ap (λ k. lengths_from disk (t ∷ ss) k (lengths ++ mails))
          (let o : (offset + Storage.get_emails_count s) % size_mod
                ≡ offset + Storage.get_emails_count s =
              omega arith in
            o)
      ∙ lengths_from-listing (t ∷ ss) (offset + Storage.get_emails_count s) (lengths ++ mails) v.1
          there.1 last.1 (omega arith) (below-listed s offset lengths c below)
      ∙ ap (λ (m : SizeMap). ok m)
          (append_assoc lengths mails (listing (t ∷ ss) (offset + Storage.get_emails_count s)))

  length-listing :
      (ss : List Storage) (offset : ℕ)
      → All Valid.IsValid ss
      → length (listing ss offset) ≡ total_count ss
  length-listing [] offset v = refl
  length-listing (s ∷ ss) offset v = omega (
    arith,
    length-append (listed disk s offset 0 s.emails)
        (listing ss (offset + Storage.get_emails_count s)),
    length-listed-count disk s offset v.0,
    length-listing ss (offset + Storage.get_emails_count s) v.1,
  )

  total_count-le : (ss : List Storage) → All Valid.IsValid ss → total_count ss ≤ total_emails ss
  total_count-le [] v = omega arith
  total_count-le (s ∷ ss) v = omega (arith, Valid.count-le s v.0, total_count-le ss v.1)

  -- On a valid mailbox of fewer than 2 ^ 64 mails whose files are there and of which no storage
  -- but the last has marks, the listing is that of the unmarked mails in order, each storage
  -- numbered behind the mails of those before it; it has as many entries as the count that STAT
  -- reports; and the size that STAT reports is the sum of its sizes in `std::size_t`.
  pub get_emails_lengths-listing :
      (m : Mailbox)
      → All Valid.IsValid m.storages
      → AllPresent m.storages
      → OnlyLastMarked m.storages
      → total_emails m.storages < size_mod
      → (get_emails_lengths disk m ≡ ok (listing m.storages 0))
        × (length (listing m.storages 0) ≡ get_emails_count m)
        × (get_whole_mailbox_size disk m ≡ ok (sum_values 0 (listing m.storages 0)))
  unfolding get_emails_lengths get_whole_mailbox_size
  get_emails_lengths-listing m v there last fits =
      let listed_all : lengths_from disk m.storages 0 [] ≡ ok (listing m.storages 0) =
        lengths_from-listing m.storages 0 [] v there last (omega arith) tt in
      (
        listed_all,
        length-listing m.storages 0 v
            ∙ sym (get_emails_count-total m (omega (arith, total_count-le m.storages v))),
        rw listed_all,
      )
