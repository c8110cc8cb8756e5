-- ===== src/Mail/Storage/Listing.antt =====
-- `getEmailsLengths` of one storage against the list of its unmarked mails.
use simple_pop3serv.Base.{
  ℕ, suc, ◌+◌, ◌-◌, ◌%◌, ◌≤◌, ◌<◌, ◌≡◌, refl, sym, ap, ◌∙◌, subst, inl, inr, true, false, none,
  some, List, [], ◌∷◌, ◌++◌, append-nil, append_assoc, if◌then◌else◌, arith, length, get_elem?,
  size_mod, All, All-append, Bool-cases, ok,
}
use simple_pop3serv.Mail.Disk.{Disk, FilePath, file_size}
use simple_pop3serv.Mail.SizeMap.{
  SizeMap, KeysBelow, emplace, emplace-KeysBelow, KeysBelow-mono, Ascending, Ascending-mono,
}
use simple_pop3serv.Mail.Storage.{
  Storage, is_mail_marked_as_deleted, get_emails_count, get_email_length, lengths_loop,
  get_emails_lengths,
}
use simple_pop3serv.Mail.Storage.Marks.{Within, count_free, count_free-length}
use simple_pop3serv.Mail.Storage.Valid.{IsValid, get_emails_count-IsValid}

module _ (disk : Disk) where
  abbrev pub IsPresent : FilePath → Type 0
  IsPresent p = (n : ℕ) × (file_size disk p ≡ some n)

  -- The size of a file that is there.
  abbrev pub size_of : FilePath → ℕ
  size_of p = elim (file_size disk p) [ none ↦ 0 | some n ↦ n ]

  -- The unmarked mails from the number `i` on, each with its number, moved by the offset, and its
  -- size.
  abbrev pub listed : Storage → ℕ → ℕ → List FilePath → SizeMap
  listed s offset i [] = []
  listed s offset i (p ∷ ps) =
      let rest = listed s offset (i + 1) ps in
      if is_mail_marked_as_deleted s i then rest else (i + offset, size_of p) ∷ rest

  -- `emails` from the number `i` on is `ps`.
  abbrev IsTail : List FilePath → ℕ → List FilePath → Type 0
  IsTail emails i ps = (j : ℕ) → get_elem? emails (i + j) ≡ get_elem? ps j

  IsTail-next :
      (emails : List FilePath) (i : ℕ) (p : FilePath) (ps : List FilePath)
      → IsTail emails i (p ∷ ps)
      → IsTail emails (i + 1) ps
  IsTail-next emails i p ps h j =
      ap (get_elem? emails) (let e : i + 1 + j ≡ i + suc j = omega arith in e) ∙ h (suc j)

  pub get_email_length-at :
      (s : Storage) (n : ℕ) (p : FilePath)
      → get_elem? s.emails n ≡ some p
      → IsPresent p
      → get_email_length disk s n ≡ ok (size_of p)
  unfolding get_email_length
  get_email_length-at s n p e (size, there) = ground arith

  pub lengths_loop-marked :
      (s : Storage) (offset rounds i : ℕ) (lengths : SizeMap)
      → is_mail_marked_as_deleted s i ≡ true
      → lengths_loop disk s offset (suc rounds) i lengths
        ≡ lengths_loop disk s offset rounds (i + 1) lengths
  unfolding lengths_loop
  lengths_loop-marked s offset rounds i lengths e = rw (e, lengths_loop)

  lengths_loop-unmarked :
      (s : Storage) (offset rounds i len : ℕ) (lengths : SizeMap)
      → is_mail_marked_as_deleted s i ≡ false
      → get_email_length disk s i ≡ ok len
      → i + offset < size_mod
      → KeysBelow (i + offset) lengths
      → lengths_loop disk s offset (suc rounds) i lengths
        ≡ lengths_loop disk s offset rounds (i + 1) (lengths ++ (i + offset, len) ∷ [])
  unfolding lengths_loop
  lengths_loop-unmarked s offset rounds i len lengths e q small below =
      rw (e, q, lengths_loop)
        (ap (lengths_loop disk s offset rounds (i + 1)) (
          ap (λ k. emplace k len lengths)
            (let k : (i + offset) % size_mod ≡ i + offset = omega arith in k)
          ∙ emplace-KeysBelow (i + offset) len lengths below))

  lengths_loop-listed :
      (s : Storage) (offset : ℕ) (ps : List FilePath) (i : ℕ) (lengths : SizeMap)
      → IsTail s.emails i ps
      → All IsPresent ps
      → i + length ps + offset ≤ size_mod
      → KeysBelow (i + offset) lengths
      → lengths_loop disk s offset (length ps) i lengths ≡ ok (lengths ++ listed s offset i ps)
  unfolding lengths_loop
  lengths_loop-listed s offset [] i lengths tail there fits below =
      ap (λ (m : SizeMap). ok m) (sym (append-nil lengths))
  lengths_loop-listed s offset (p ∷ ps) i lengths tail there fits below =
      elim (Bool-cases (is_mail_marked_as_deleted s i)) [
        | inl e ↦
            lengths_loop-marked s offset (length ps) i lengths e
            ∙ lengths_loop-listed s offset ps (i + 1) lengths (IsTail-next s.emails i p ps tail)
                there.1 (omega arith) (KeysBelow-mono lengths (omega arith) below)
            ∙ rw e
        | inr e ↦
            lengths_loop-unmarked s offset (length ps) i (size_of p) lengths e
              (get_email_length-at s i p
                (subst (λ k. get_elem? s.emails k ≡ some p) (omega arith) (tail 0)) there.0)
              (omega arith) below
            ∙ lengths_loop-listed s offset ps (i + 1) (lengths ++ (i + offset, size_of p) ∷ [])
                (IsTail-next s.emails i p ps tail) there.1 (omega arith)
                (All-append (λ q. q.0 < i + 1 + offset) lengths ((i + offset, size_of p) ∷ [])
                  (KeysBelow-mono lengths (omega arith) below) (omega arith, tt))
            ∙ rw e (
                ap (λ (m : SizeMap). ok m)
                  (append_assoc lengths ((i + offset, size_of p) ∷ [])
                    (listed s offset (i + 1) ps)))
      ]

  -- With the files there, and the mails and the offset together within 2 ^ 64, the listing of a
  -- storage is the list of its unmarked mails, each with its number moved by the offset and the
  -- size of its file.
  pub get_emails_lengths-listed :
      (s : Storage) (offset : ℕ)
      → All IsPresent s.emails
      → length s.emails + offset ≤ size_mod
      → get_emails_lengths disk s offset ≡ ok (listed s offset 0 s.emails)
  unfolding get_emails_lengths
  get_emails_lengths-listed s offset there fits =
      lengths_loop-listed s offset s.emails 0 []
        (λ j. ap (get_elem? s.emails) (let e : 0 + j ≡ j = omega arith in e)) there (omega arith) tt

  listed-all_marked :
      (s : Storage) (offset i : ℕ) (ps : List FilePath)
      → s.delete_all ≡ true
      → listed s offset i ps ≡ []
  unfolding is_mail_marked_as_deleted
  listed-all_marked s offset i [] e = refl
  listed-all_marked s offset i (p ∷ ps) e = rw e (listed-all_marked s offset (i + 1) ps e)

  length-listed :
      (s : Storage) (offset i : ℕ) (ps : List FilePath)
      → s.delete_all ≡ false
      → length (listed s offset i ps) ≡ count_free s.emails_to_be_deleted i (length ps)
  unfolding is_mail_marked_as_deleted
  length-listed s offset i [] e = refl
  length-listed s offset i (p ∷ ps) e = ground (arith, length-listed s offset (i + 1) ps)

  -- The listing of a valid storage has as many entries as `getEmailsCount` says.
  pub length-listed-count :
      (s : Storage) (offset : ℕ)
      → IsValid s
      → length (listed s offset 0 s.emails) ≡ get_emails_count s
  length-listed-count s offset v = elim (Bool-cases s.delete_all) [
    | inl e ↦
        ap length (listed-all_marked s offset 0 s.emails e)
        ∙ ground (arith, get_emails_count-IsValid s v)
    | inr e ↦ omega (
      arith,
      length-listed s offset 0 s.emails e,
      count_free-length (length s.emails) s.emails_to_be_deleted 0 v.distinct within,
      unmarked_count e,
    )
  ]
    where
      within : Within 0 (0 + length s.emails) s.emails_to_be_deleted
      within = subst (λ hi. Within 0 hi s.emails_to_be_deleted) (omega arith) v.within

      unmarked_count :
          s.delete_all ≡ false
          → get_emails_count s ≡ length s.emails - length s.emails_to_be_deleted
      unmarked_count e = get_emails_count-IsValid s v ∙ rw e

  pub listed-Ascending :
      (s : Storage) (offset i : ℕ) (ps : List FilePath)
      → Ascending (i + offset) (listed s offset i ps)
  listed-Ascending s offset i [] = tt
  listed-Ascending s offset i (p ∷ ps) = elim (Bool-cases (is_mail_marked_as_deleted s i)) [
    | inl e ↦ rw e (
        Ascending-mono (i + offset) (i + 1 + offset) (listed s offset (i + 1) ps) (omega arith)
          (listed-Ascending s offset (i + 1) ps))
    | inr e ↦ rw e (
      omega arith,
      subst (λ lo. Ascending lo (listed s offset (i + 1) ps)) (omega arith)
          (listed-Ascending s offset (i + 1) ps),
    )
  ]

  pub listed-KeysBelow :
      (s : Storage) (offset i : ℕ) (ps : List FilePath)
      → KeysBelow (i + length ps + offset) (listed s offset i ps)
  listed-KeysBelow s offset i [] = tt
  listed-KeysBelow s offset i (p ∷ ps) =
      let rest : KeysBelow (i + length (p ∷ ps) + offset) (listed s offset (i + 1) ps) =
        KeysBelow-mono (listed s offset (i + 1) ps) (omega arith)
          (listed-KeysBelow s offset (i + 1) ps) in
      elim (Bool-cases (is_mail_marked_as_deleted s i)) [
        | inl e ↦ rw e rest
        | inr e ↦ rw e (omega arith, rest)
      ]
