-- ===== src/Mail/Storage/Lookup.antt =====
-- What the listing of one storage says of one number.
use simple_pop3serv.Base.{
  ℕ, zero, suc, ◌+◌, ◌<◌, ◌≡◌, ◌∙◌, inl, inr, none, some, List, [], ◌∷◌, if◌then◌else◌, arith,
  get_elem?, Bool-cases,
}
use simple_pop3serv.Mail.Disk.{Disk, FilePath}
use simple_pop3serv.Mail.SizeMap.{lookup_key, lookup_key-Ascending}
use simple_pop3serv.Mail.Storage.{Storage, is_mail_marked_as_deleted}
use simple_pop3serv.Mail.Storage.Listing.{listed, size_of, listed-Ascending}

module _ (disk : Disk) where
  lookup_key-here :
      (s : Storage) (offset i : ℕ) (p : FilePath) (ps : List FilePath)
      → lookup_key (listed disk s offset i (p ∷ ps)) (i + offset)
        ≡ (if is_mail_marked_as_deleted s i then none else some (size_of disk p))
  unfolding lookup_key
  lookup_key-here s offset i p ps = elim (Bool-cases (is_mail_marked_as_deleted s i)) [
    | inl e ↦ rw e (
        lookup_key-Ascending (i + 1 + offset) (i + offset) (listed disk s offset (i + 1) ps)
          (omega arith) (listed-Ascending disk s offset (i + 1) ps))
    | inr e ↦ rw e (ground arith)
  ]

  lookup_key-later :
      (s : Storage) (offset i n : ℕ) (p : FilePath) (ps : List FilePath)
      → i < n
      → lookup_key (listed disk s offset i (p ∷ ps)) (n + offset)
        ≡ lookup_key (listed disk s offset (i + 1) ps) (n + offset)
  unfolding lookup_key
  lookup_key-later s offset i n p ps h = elim (Bool-cases (is_mail_marked_as_deleted s i)) [
    | inl e ↦ rw e
    | inr e ↦ rw e (ground arith)
  ]

  lookup_key-from :
      (s : Storage) (offset : ℕ) (ps : List FilePath) (i j n : ℕ) (p : FilePath)
      → i + j ≡ n
      → get_elem? ps j ≡ some p
      → lookup_key (listed disk s offset i ps) (n + offset)
        ≡ (if is_mail_marked_as_deleted s n then none else some (size_of disk p))
  lookup_key-from s offset [] i j n p at e = cc
  lookup_key-from s offset (q ∷ ps) i zero n p at e =
      let same : i ≡ n = omega arith in
      let file : q ≡ p = cc in rw (← same, ← file) (lookup_key-here s offset i q ps)
  lookup_key-from s offset (q ∷ ps) i (suc j) n p at e =
      lookup_key-later s offset i n q ps (omega arith)
      ∙ lookup_key-from s offset ps (i + 1) j n p (omega arith) e

  -- The listing of the unmarked mails holds the number of each of them, with the size of its file,
  -- and no number of a marked one.
  pub lookup_key-listed :
      (s : Storage) (offset n : ℕ) (p : FilePath)
      → get_elem? s.emails n ≡ some p
      → lookup_key (listed disk s offset 0 s.emails) (n + offset)
        ≡ (if is_mail_marked_as_deleted s n then none else some (size_of disk p))
  lookup_key-listed s offset n p e = lookup_key-from s offset s.emails 0 n n p (omega arith) e
