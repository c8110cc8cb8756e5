-- ===== src/Mail/Mailbox/Close.antt =====
-- The storages of a mailbox when it is destroyed.
use simple_pop3serv.Base.{
  ℕ, ◌≡◌, refl, ap, ◌∙◌, subst, sym, inl, inr, Bool, false, ◌||◌, List, [], ◌∷◌, map, arith, All,
  get_elem?, Option-cases, ok,
}
use simple_pop3serv.Mail.Disk.{Disk, FilePath}
use simple_pop3serv.Mail.Storage.{Storage, destroy, set_update_flag}
use simple_pop3serv.Mail.Storage.Valid
use simple_pop3serv.Mail.Storage.Close.{
  names_file, is_refused, meets_refusal, removes, Leaves, destroy-Leaves,
}
use simple_pop3serv.Mail.Mailbox.{destroy_storages}

-- Whether the list of deletions of one of the storages has a number of a mail in the file `q`.
abbrev pub lists_file : List Storage → FilePath → Bool
lists_file [] q = false
lists_file (s ∷ ss) q = names_file s.emails s.emails_to_be_deleted q || lists_file ss q

-- The same for the storages with their update flag set.
abbrev pub removes_file : List Storage → FilePath → Bool
removes_file [] q = false
removes_file (s ∷ ss) q = removes s q || removes_file ss q

destroy_storages-step :
    (s : Storage) (ss : List Storage) (disk disk' : Disk)
    → destroy s disk ≡ ok disk'
    → destroy_storages (s ∷ ss) disk ≡ destroy_storages ss disk'
unfolding destroy_storages
destroy_storages-step s ss disk disk' e = rw e

-- No storage's destructor meets a file that cannot be removed.
abbrev pub Quiet : (FilePath → Bool) → List Storage → Type 0
Quiet refuses ss = All (λ s. meets_refusal refuses s ≡ false) ss

pub destroy_storages-Leaves :
    (ss : List Storage) (disk : Disk)
    → All Valid.IsValid ss
    → Quiet disk.refuses ss
    → Leaves disk (removes_file ss) (destroy_storages ss disk)
unfolding destroy_storages
destroy_storages-Leaves [] disk v quiet = record {
  left = disk;
  returns = refl;
  same_refuses = refl;
  found = λ q. refl;
}
destroy_storages-Leaves (s ∷ ss) disk v quiet =
    let first = destroy-Leaves s disk v.0 quiet.0 in
    let rest =
      destroy_storages-Leaves ss first.left v.1
        (subst (λ refuses. Quiet refuses ss) (sym first.same_refuses) quiet.1) in
    record {
      left = rest.left;
      returns = destroy_storages-step s ss disk first.left first.returns ∙ rest.returns;
      same_refuses = rest.same_refuses ∙ first.same_refuses;
      found = λ q. ground (arith, first.found q, rest.found q);
    }

pub Quiet-set_update :
    (refuses : FilePath → Bool) (ss : List Storage)
    → All (λ (s : Storage). is_refused refuses s.emails s.emails_to_be_deleted ≡ false) ss
    → Quiet refuses (map set_update_flag ss)
unfolding set_update_flag
Quiet-set_update refuses [] h = tt
Quiet-set_update refuses (s ∷ ss) h = (h.0, Quiet-set_update refuses ss h.1)

pub Quiet-unset :
    (refuses : FilePath → Bool) (ss : List Storage)
    → All (λ (s : Storage). s.update_at_close ≡ false) ss
    → Quiet refuses ss
Quiet-unset refuses [] h = tt
Quiet-unset refuses (s ∷ ss) h = (rw h.0 refl, Quiet-unset refuses ss h.1)

is_refused-never :
    (refuses : FilePath → Bool) (emails : List FilePath) (ns : List ℕ)
    → ((q : FilePath) → refuses q ≡ false)
    → is_refused refuses emails ns ≡ false
is_refused-never refuses emails [] h = refl
is_refused-never refuses emails (n ∷ ns) h = elim (Option-cases (get_elem? emails n)) [
  | inl e ↦ rw e (is_refused-never refuses emails ns h)
  | inr (p, e) ↦ rw (e, h p) (is_refused-never refuses emails ns h)
]

-- Where the system refuses no removal, nothing is met.
pub Quiet-never :
    (refuses : FilePath → Bool) (ss : List Storage)
    → ((q : FilePath) → refuses q ≡ false)
    → Quiet refuses ss
Quiet-never refuses [] h = tt
Quiet-never refuses (s ∷ ss) h = (
  let never = is_refused-never refuses s.emails s.emails_to_be_deleted h in ground (arith, never),
  Quiet-never refuses ss h,
)

pub removes_file-set_update :
    (ss : List Storage) (q : FilePath) → removes_file (map set_update_flag ss) q ≡ lists_file ss q
unfolding set_update_flag
removes_file-set_update [] q = refl
removes_file-set_update (s ∷ ss) q =
    ap (λ (b : Bool). names_file s.emails s.emails_to_be_deleted q || b)
      (removes_file-set_update ss q)

pub removes_file-unset :
    (ss : List Storage) (q : FilePath)
    → All (λ (s : Storage). s.update_at_close ≡ false) ss
    → removes_file ss q ≡ false
removes_file-unset [] q h = refl
removes_file-unset (s ∷ ss) q h = ground (arith, removes_file-unset ss q h.1)
