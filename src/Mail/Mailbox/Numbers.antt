-- ===== src/Mail/Mailbox/Numbers.antt =====
-- `Mailbox::getEmailsLengths` of any mailbox: which mail a number is listed for.
use simple_pop3serv.Base.{
  or_else, ℕ, ◌+◌, ◌%◌, ◌≤◌, ◌<◌, ◌≡◌, refl, ap, ◌∙◌, Option, none, some, List, [], ◌∷◌, ◌==◌,
  if◌then◌else◌, arith, length, size_mod, All, ok,
}
use simple_pop3serv.Mail.Disk.{Disk}
use simple_pop3serv.Mail.SizeMap.{
  SizeMap, emplace, insert_all, lookup_key, lookup_key-Ascending, Ascending,
}
use simple_pop3serv.Mail.Storage.{Storage}
use simple_pop3serv.Mail.Storage
use simple_pop3serv.Mail.Storage.Valid
use simple_pop3serv.Mail.Storage.Listing.{listed, get_emails_lengths-listed}
use simple_pop3serv.Mail.Mailbox.{Mailbox, lengths_from, get_emails_lengths}
use simple_pop3serv.Mail.Mailbox.Listing.{AllPresent, total_emails, lengths_from-step}

emplace-Ascending :
    (lo k v : ℕ) (m : SizeMap) → lo ≤ k → Ascending lo m → Ascending lo (emplace k v m)
unfolding emplace
emplace-Ascending lo k v [] h up = (h, tt)
emplace-Ascending lo k v ((j, w) ∷ m) h up = ground (arith, emplace-Ascending (j + 1) k v m)

lookup_key-emplace :
    (lo k v n : ℕ) (m : SizeMap)
    → Ascending lo m
    → lookup_key (emplace k v m) n
      ≡ (if k == n then or_else (lookup_key m n) (some v) else lookup_key m n)
unfolding emplace lookup_key
lookup_key-emplace lo k v n [] up = ground arith
lookup_key-emplace lo k v n ((j, w) ∷ m) up =
    ground (arith, lookup_key-emplace (j + 1) k v n m up.1, lookup_key-Ascending (j + 1) n m)

-- What is inserted counts where the number is not there yet.
insert_all-lookup_key :
    (r m : SizeMap)
    → Ascending 0 m
    → Ascending 0 (insert_all r m)
      × ((n : ℕ) → lookup_key (insert_all r m) n ≡ or_else (lookup_key m n) (lookup_key r n))
unfolding insert_all lookup_key
insert_all-lookup_key [] m up = (up, λ n. ground arith)
insert_all-lookup_key ((k, v) ∷ r) m up =
    let (sorted, found) =
      insert_all-lookup_key r (emplace k v m) (emplace-Ascending 0 k v m (omega arith) up) in
    (sorted, λ n. found n ∙ ground (arith, lookup_key-emplace 0 k v n m up))

module _ (disk : Disk) where
  -- The size of the mail that the number is listed for: the first storage that lists an unmarked
  -- mail under the number.
  abbrev pub first_listed : List Storage → ℕ → ℕ → Option ℕ
  first_listed [] offset n = none
  first_listed (s ∷ ss) offset n =
      or_else (lookup_key (listed disk s offset 0 s.emails) n)
        (first_listed ss (offset + Storage.get_emails_count s) n)

  lengths_from-first_listed :
      (ss : List Storage) (offset : ℕ) (lengths : SizeMap)
      → All Valid.IsValid ss
      → AllPresent disk ss
      → offset + total_emails ss < size_mod
      → Ascending 0 lengths
      → (r : SizeMap) × (lengths_from disk ss offset lengths ≡ ok r)
        × Ascending 0 r
        × ((n : ℕ) → lookup_key r n ≡ or_else (lookup_key lengths n) (first_listed ss offset n))
  unfolding lengths_from
  lengths_from-first_listed [] offset lengths v there fits up =
      (lengths, refl, up, λ n. ground arith)
  lengths_from-first_listed (s ∷ ss) offset lengths v there fits up =
      let mails = listed disk s offset 0 s.emails in
      let fewer : Storage.get_emails_count s ≤ length s.emails = Valid.count-le s v.0 in
      let (sorted, found) = insert_all-lookup_key mails lengths up in
      let (r, e, ups, rest) =
        lengths_from-first_listed ss (offset + Storage.get_emails_count s)
          (insert_all mails lengths) v.1 there.1 (omega arith) sorted in
      (
        r,
        lengths_from-step disk s ss offset lengths mails
              (get_emails_lengths-listed disk s offset there.0 (omega arith))
            ∙ ap (λ k. lengths_from disk ss k (insert_all mails lengths))
                (let o : (offset + Storage.get_emails_count s) % size_mod
                      ≡ offset + Storage.get_emails_count s =
                    omega arith in
                  o)
            ∙ e,
        ups,
        λ n. rest n ∙ ground (arith, found n),
      )

  -- On a valid mailbox of fewer than 2 ^ 64 mails whose files are there, the listing returns, in
  -- rising numbers, and a number is listed with the size of the unmarked mail that the first of
  -- the storages has under it; each storage counts its mails, marked or not, from the number of
  -- unmarked mails in the storages before it. So a mail is not listed if a storage before its own
  -- has an unmarked mail under the same number.
  pub get_emails_lengths-first_listed :
      (m : Mailbox)
      → All Valid.IsValid m.storages
      → AllPresent disk m.storages
      → total_emails m.storages < size_mod
      → (lengths : SizeMap) × (get_emails_lengths disk m ≡ ok lengths)
        × Ascending 0 lengths
        × ((n : ℕ) → lookup_key lengths n ≡ first_listed m.storages 0 n)
  unfolding get_emails_lengths lookup_key
  get_emails_lengths-first_listed m v there fits =
      lengths_from-first_listed m.storages 0 [] v there (omega arith) tt
