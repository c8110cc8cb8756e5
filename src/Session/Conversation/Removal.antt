-- ===== src/Session/Conversation/Removal.antt =====
-- The files that the destructor of a storage removes are those of the marked mails of its maildrop.
use simple_pop3serv.Base.{
  ◌⊎◌, ℕ, zero, suc, ◌+◌, ◌≡◌, refl, sym, ap, ◌∙◌, subst, inl, inr, Bool, true, false, ◌||◌, ◌&&◌,
  ◌==◌, ==_iff, Option, none, some, List, [], ◌∷◌, arith, bytes_eq, bytes_eq_iff, bytes_eq_refl,
  get_elem?,
}
use simple_pop3serv.Mail.Disk.{Disk, FilePath}
use simple_pop3serv.Mail.Storage.{Storage, contains, is_mail_marked_as_deleted}
use simple_pop3serv.Mail.Storage.Close.{is_path, names_file}
use simple_pop3serv.Mail.Mailbox.Maildrop.View.{view_from}
use simple_pop3serv.Session.Conversation.{is_marked_file}

-- A number that makes the Boolean true.
abbrev Named : List FilePath → List ℕ → FilePath → Type 0
Named emails ns q = (n : ℕ) × (contains ns n ≡ true) × (get_elem? emails n ≡ some q)

is_path-some : (o : Option FilePath) (q : FilePath) → is_path o q ≡ true → o ≡ some q
is_path-some none q e = cc
is_path-some (some p) q e = ap some ((bytes_eq_iff p q).0 e)

or-cases : (a b : Bool) → (a || b) ≡ true → (a ≡ true) ⊎ (b ≡ true)
or-cases true b e = inl refl
or-cases false b e = inr e

or-right : (a : Bool) → (a || true) ≡ true
or-right true = refl
or-right false = refl

Bool-iff : (a b : Bool) → (a ≡ true → b ≡ true) → (b ≡ true → a ≡ true) → a ≡ b
Bool-iff true b f g = sym (f refl)
Bool-iff false true f g = g refl
Bool-iff false false f g = refl

names_file-Named :
    (emails : List FilePath) (ns : List ℕ) (q : FilePath)
    → names_file emails ns q ≡ true
    → Named emails ns q
unfolding contains
names_file-Named emails [] q e = cc
names_file-Named emails (n ∷ ns) q e =
    elim (or-cases (is_path (get_elem? emails n) q) (names_file emails ns q) e) [
      | inl here ↦ (n, ground arith, is_path-some (get_elem? emails n) q here)
      | inr later ↦
          let (k, marked, at) = names_file-Named emails ns q later in
          (k, rw marked (or-right (n == k)), at)
    ]

Named-names_file :
    (emails : List FilePath) (ns : List ℕ) (q : FilePath) (n : ℕ)
    → contains ns n ≡ true
    → get_elem? emails n ≡ some q
    → names_file emails ns q ≡ true
unfolding contains
Named-names_file emails [] q n marked at = cc
Named-names_file emails (k ∷ ns) q n marked at = elim (or-cases (k == n) (contains ns n) marked) [
  | inl same ↦
      let here = ap (get_elem? emails) ((==_iff k n).0 same) ∙ at in rw (here, bytes_eq_refl q) refl
  | inr later ↦
      rw (Named-names_file emails ns q n later at) (or-right (is_path (get_elem? emails k) q))
]

module _ (disk : Disk) (s : Storage) (q : FilePath) where
  -- A place that makes the Boolean true.
  abbrev Marked : ℕ → List FilePath → Type 0
  Marked i ps = (j : ℕ) × (is_mail_marked_as_deleted s (i + j) ≡ true) × (get_elem? ps j ≡ some q)

  is_marked_file-Marked :
      (i : ℕ) (ps : List FilePath)
      → is_marked_file ps (view_from disk s i ps) q ≡ true
      → Marked i ps
  is_marked_file-Marked i [] e = cc
  is_marked_file-Marked i (p ∷ ps) e =
      elim (or-cases (is_mail_marked_as_deleted s i && bytes_eq p q)
        (is_marked_file ps (view_from disk s (i + 1) ps) q) e) [
          | inl here ↦ (
            0,
            subst (λ k. is_mail_marked_as_deleted s k ≡ true) (let k : i ≡ i + 0 = omega arith in k)
                (ground arith),
            ap some ((bytes_eq_iff p q).0 (ground arith)),
          )
          | inr later ↦
              let (j, marked, at) = is_marked_file-Marked (i + 1) ps later in
              (
                suc j,
                subst (λ k. is_mail_marked_as_deleted s k ≡ true)
                    (let k : i + 1 + j ≡ i + suc j = omega arith in k) marked,
                at,
              )
        ]

  Marked-is_marked_file :
      (i : ℕ) (ps : List FilePath) (j : ℕ)
      → is_mail_marked_as_deleted s (i + j) ≡ true
      → get_elem? ps j ≡ some q
      → is_marked_file ps (view_from disk s i ps) q ≡ true
  Marked-is_marked_file i [] j marked at = cc
  Marked-is_marked_file i (p ∷ ps) zero marked at =
      let here =
        subst (λ k. is_mail_marked_as_deleted s k ≡ true) (let k : i + 0 ≡ i = omega arith in k)
          marked in
      let same : bytes_eq p q ≡ true = (bytes_eq_iff p q).1 cc in rw (here, same) refl
  Marked-is_marked_file i (p ∷ ps) (suc j) marked at =
      rw
        (Marked-is_marked_file (i + 1) ps j
          (subst (λ k. is_mail_marked_as_deleted s k ≡ true)
            (let k : i + suc j ≡ i + 1 + j = omega arith in k) marked)
          at)
        (or-right (is_mail_marked_as_deleted s i && bytes_eq p q))

  -- Unless all mails stand deleted at once, the numbers name the files of the marked mails.
  pub names_file-is_marked_file :
      s.delete_all ≡ false
      → names_file s.emails s.emails_to_be_deleted q
        ≡ is_marked_file s.emails (view_from disk s 0 s.emails) q
  unfolding is_mail_marked_as_deleted
  names_file-is_marked_file e =
      let same : (n : ℕ) → is_mail_marked_as_deleted s n ≡ contains s.emails_to_be_deleted n =
        λ n. rw e refl in
      Bool-iff _ _
        (λ named.
          let (n, marked, at) = names_file-Named s.emails s.emails_to_be_deleted q named in
          Marked-is_marked_file 0 s.emails n
            (same (0 + n)
              ∙ ap (contains s.emails_to_be_deleted) (let k : 0 + n ≡ n = omega arith in k)
              ∙ marked)
            at)
        (λ there.
          let (n, marked, at) = is_marked_file-Marked 0 s.emails there in
          Named-names_file s.emails s.emails_to_be_deleted q n
            (ap (contains s.emails_to_be_deleted) (let k : n ≡ 0 + n = omega arith in k)
              ∙ sym (same (0 + n))
              ∙ marked)
            at)
