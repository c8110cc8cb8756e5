-- ===== src/Mail/Mailbox/Maildrop/View.antt =====
-- One storage seen as a maildrop, and what its operations do to that view.
use simple_pop3serv.Base.{
  ℕ, zero, suc, ◌+◌, ◌≤◌, ◌≡◌, refl, ap, ◌∙◌, subst, inl, inr, Bool, true, false, ◌||◌, ◌==◌, some,
  List, [], ◌∷◌, map, arith, get_elem?, length, Bool-cases,
}
use simple_pop3serv.Mail.Disk.{Disk, FilePath}
use simple_pop3serv.Mail.Storage.{Storage, is_mail_marked_as_deleted, get_emails_count}
use simple_pop3serv.Mail.Storage.Marks.{Within, count_free, count_free-length}
use simple_pop3serv.Mail.Storage.Valid.{IsValid, get_emails_count-IsValid}
use simple_pop3serv.Mail.Storage.Listing.{size_of}
use simple_pop3serv.Mail.Mailbox.Maildrop.{Mail, Maildrop, unmarked, with_mark, mark}

some-injective : {p q : FilePath} → some p ≡ some q → p ≡ q
some-injective e = cc

module _ (disk : Disk) where
  abbrev pub mail_of : Storage → ℕ → FilePath → Mail
  mail_of s i p = record { size = size_of disk p; marked = is_mail_marked_as_deleted s i }

  -- The mails from the number `i` on.
  abbrev pub view_from : Storage → ℕ → List FilePath → Maildrop
  view_from s i [] = []
  view_from s i (p ∷ ps) = mail_of s i p ∷ view_from s (i + 1) ps

  abbrev pub view : Storage → Maildrop
  view s = view_from s 0 s.emails

  pub view_from-same :
      (s t : Storage) (i : ℕ) (ps : List FilePath)
      → ((k : ℕ) → i ≤ k → is_mail_marked_as_deleted t k ≡ is_mail_marked_as_deleted s k)
      → view_from t i ps ≡ view_from s i ps
  view_from-same s t i [] h = refl
  view_from-same s t i (p ∷ ps) h =
      rw (h i (omega arith))
        (ap (◌∷◌ (mail_of s i p)) (view_from-same s t (i + 1) ps (λ k below. h k (omega arith))))

  pub get_elem?-view_from :
      (s : Storage) (i : ℕ) (ps : List FilePath) (n : ℕ) (p : FilePath)
      → get_elem? ps n ≡ some p
      → get_elem? (view_from s i ps) n ≡ some (mail_of s (i + n) p)
  get_elem?-view_from s i [] n p e = cc
  get_elem?-view_from s i (q ∷ ps) zero p e =
      let zero_more : i ≡ i + 0 = omega arith in
      ap (λ k. some (mail_of s k q)) zero_more
      ∙ ap (λ r. some (mail_of s (i + 0) r)) (some-injective e)
  get_elem?-view_from s i (q ∷ ps) (suc n) p e =
      get_elem?-view_from s (i + 1) ps n p e
      ∙ ap (λ k. some (mail_of s k p)) (let k : i + 1 + n ≡ i + suc n = omega arith in k)

  -- Marking one number marks the mail at its place.
  pub view_from-mark :
      (s t : Storage) (i d : ℕ) (ps : List FilePath)
      → ((k : ℕ) → is_mail_marked_as_deleted t k ≡ (is_mail_marked_as_deleted s k || (i + d) == k))
      → view_from t i ps ≡ mark d (view_from s i ps)
  view_from-mark s t i d [] h = refl
  view_from-mark s t i zero (p ∷ ps) h =
      let marked : is_mail_marked_as_deleted t i ≡ true = ground (arith, h i) in
      rw marked (
        ap (◌∷◌ (with_mark true (mail_of s i p)))
          (view_from-same s t (i + 1) ps (λ k above. ground (arith, h k))))
  view_from-mark s t i (suc d) (p ∷ ps) h =
      let same : is_mail_marked_as_deleted t i ≡ is_mail_marked_as_deleted s i =
        ground (arith, h i) in
      rw same
        (ap (◌∷◌ (mail_of s i p)) (view_from-mark s t (i + 1) d ps (λ k. ground (arith, h k))))

  pub view_from-all :
      (s t : Storage) (b : Bool) (i : ℕ) (ps : List FilePath)
      → ((k : ℕ) → is_mail_marked_as_deleted t k ≡ b)
      → view_from t i ps ≡ map (with_mark b) (view_from s i ps)
  view_from-all s t b i [] h = refl
  view_from-all s t b i (p ∷ ps) h =
      rw (h i) (ap (◌∷◌ (with_mark b (mail_of s i p))) (view_from-all s t b (i + 1) ps h))

  unmarked-free :
      (s : Storage) (i : ℕ) (ps : List FilePath)
      → s.delete_all ≡ false
      → unmarked (view_from s i ps) ≡ count_free s.emails_to_be_deleted i (length ps)
  unfolding is_mail_marked_as_deleted
  unmarked-free s i [] e = refl
  unmarked-free s i (p ∷ ps) e = ground (arith, unmarked-free s (i + 1) ps e)

  unmarked-none :
      (s : Storage) (i : ℕ) (ps : List FilePath)
      → s.delete_all ≡ true
      → unmarked (view_from s i ps) ≡ 0
  unfolding is_mail_marked_as_deleted
  unmarked-none s i [] e = refl
  unmarked-none s i (p ∷ ps) e = ground (arith, unmarked-none s (i + 1) ps e)

  -- The count of a valid storage is the number of its mails that are not marked.
  pub unmarked-view : (s : Storage) → IsValid s → unmarked (view s) ≡ get_emails_count s
  unmarked-view s v = elim (Bool-cases s.delete_all) [
    | inl all ↦ unmarked-none s 0 s.emails all ∙ ground (arith, get_emails_count-IsValid s v)
    | inr some' ↦
        let within =
          subst (λ hi. Within 0 hi s.emails_to_be_deleted)
            (let e : length s.emails ≡ 0 + length s.emails = omega arith in e) v.within in
        let free = count_free-length (length s.emails) s.emails_to_be_deleted 0 v.distinct within in
        unmarked-free s 0 s.emails some' ∙ ground (arith, get_emails_count-IsValid s v, free)
  ]
