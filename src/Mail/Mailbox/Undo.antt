-- ===== src/Mail/Mailbox/Undo.antt =====
-- `Mailbox::reset`: it takes back every deletion since the mailbox was opened.
use simple_pop3serv.Base.{
  ℕ, ◌≡◌, refl, sym, ap, ◌∙◌, subst, inl, inr, false, Option, none, some, List, [], ◌∷◌, ◌++◌, map,
  Bool-cases, All,
}
use mathlib.Core.List.{map-append}
use simple_pop3serv.Mail.Storage.{Storage, is_mail_marked_as_deleted}
use simple_pop3serv.Mail.Storage
use simple_pop3serv.Mail.Mailbox.{
  Mailbox, Found, find_storage, delete_in, delete_email, delete_emails, reset,
}
use simple_pop3serv.Mail.Mailbox.Find.{Locates, find_storage-Locates}

storage_reset-delete_email :
    (s : Storage) (n : ℕ) → Storage.reset (Storage.delete_email s n).0 ≡ Storage.reset s
unfolding Storage.reset Storage.delete_email
storage_reset-delete_email s n = elim (Bool-cases (is_mail_marked_as_deleted s n)) [
  | inl e ↦ rw e
  | inr e ↦ rw e
]

storage_reset-delete_emails :
    (s : Storage) → Storage.reset (Storage.delete_emails s) ≡ Storage.reset s
unfolding Storage.reset Storage.delete_emails
storage_reset-delete_emails s = refl

map-reset-delete_emails :
    (ss : List Storage) → map Storage.reset (map Storage.delete_emails ss) ≡ map Storage.reset ss
map-reset-delete_emails [] = refl
map-reset-delete_emails (s ∷ ss) =
    ap (λ t. t ∷ map Storage.reset (map Storage.delete_emails ss)) (storage_reset-delete_emails s)
    ∙ ap (◌∷◌ (Storage.reset s)) (map-reset-delete_emails ss)

map-reset-put :
    (before after : List Storage) (s t : Storage)
    → Storage.reset s ≡ Storage.reset t
    → map Storage.reset (before ++ s ∷ after) ≡ map Storage.reset (before ++ t ∷ after)
map-reset-put before after s t e =
    map-append Storage.reset before (s ∷ after)
    ∙ ap (λ u. map Storage.reset before ++ u ∷ map Storage.reset after) e
    ∙ sym (map-append Storage.reset before (t ∷ after))

-- A client's requests to delete: `DELE n` and `DELE`.
pub data Deletion : Type 0 where
  one : ℕ → Deletion
  every : Deletion

abbrev pub apply_deletion : Mailbox → Deletion → Mailbox
apply_deletion m (one n) = (delete_email m n).0
apply_deletion m every = delete_emails m

abbrev pub apply_deletions : Mailbox → List Deletion → Mailbox
apply_deletions m [] = m
apply_deletions m (d ∷ ds) = apply_deletions (apply_deletion m d) ds

reset-delete_in :
    (m : Mailbox) (n : ℕ) (r : Option Found)
    → find_storage m.storages n ≡ r
    → reset (delete_in m r).0 ≡ reset m
unfolding reset delete_in
reset-delete_in m n none e = refl
reset-delete_in m n (some f) e =
    let at : Locates m.storages n (some f) =
      subst (Locates m.storages n) e (find_storage-Locates m.storages n) in
    ap (λ ss. record m { storages = ss })
      (map-reset-put f.before f.after (Storage.delete_email f.here f.number).0 f.here
          (storage_reset-delete_email f.here f.number)
        ∙ ap (map Storage.reset) at.0)

reset-apply_deletion : (m : Mailbox) (d : Deletion) → reset (apply_deletion m d) ≡ reset m
unfolding delete_email delete_emails reset
reset-apply_deletion m (one n) = reset-delete_in m n (find_storage m.storages n) refl
reset-apply_deletion m every =
    ap (λ ss. record m { storages = ss }) (map-reset-delete_emails m.storages)

reset-apply_deletions : (m : Mailbox) (ds : List Deletion) → reset (apply_deletions m ds) ≡ reset m
reset-apply_deletions m [] = refl
reset-apply_deletions m (d ∷ ds) =
    reset-apply_deletions (apply_deletion m d) ds ∙ reset-apply_deletion m d

-- Nothing is marked in the storage.
abbrev pub IsUnmarked : Storage → Type 0
IsUnmarked s = (s.emails_to_be_deleted ≡ []) × (s.delete_all ≡ false)

map-reset-IsUnmarked : (ss : List Storage) → All IsUnmarked ss → map Storage.reset ss ≡ ss
unfolding Storage.reset
map-reset-IsUnmarked [] h = refl
map-reset-IsUnmarked (s ∷ ss) h = cc (map-reset-IsUnmarked ss h.1, h.0.0, h.0.1)

-- On a mailbox with nothing marked, any requests to delete and then a reset leave the mailbox as
-- it was.
pub reset-deletions :
    (m : Mailbox) (ds : List Deletion)
    → All IsUnmarked m.storages
    → reset (apply_deletions m ds) ≡ m
reset-deletions m ds h =
    reset-apply_deletions m ds
    ∙ unfold reset in ap (λ ss. record m { storages = ss }) (map-reset-IsUnmarked m.storages h)
