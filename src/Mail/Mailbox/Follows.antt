-- ===== src/Mail/Mailbox/Follows.antt =====
-- The operations of a mailbox change neither its name nor its lock, and keep it valid.
use simple_pop3serv.Base.{ℕ, ◌≡◌, refl, ◌∙◌, Option, none, some}
use simple_pop3serv.Mail.Mailbox.{
  Mailbox, Found, find_storage, delete_in, delete_email, delete_emails, reset, set_update,
}
use simple_pop3serv.Mail.Mailbox.Valid.{IsValid, operations-IsValid}

-- The same user's mailbox, under the same lock, and valid if it was.
pub record Follows (m m' : Mailbox) : Type 0 where
  pub same_name : m'.name ≡ m.name
  pub same_lock : m'.lock ≡ m.lock
  pub still_valid : IsValid m → IsValid m'

pub Follows-self : (m : Mailbox) → Follows m m
Follows-self m = record { same_name = refl; same_lock = refl; still_valid = λ v. v }

delete_in-Follows :
    (m : Mailbox) (r : Option Found)
    → (IsValid m → IsValid (delete_in m r).0)
    → Follows m (delete_in m r).0
unfolding delete_in
delete_in-Follows m none v = Follows-self m
delete_in-Follows m (some f) v = record { same_name = refl; same_lock = refl; still_valid = v }

pub delete_email-Follows : (m : Mailbox) (n : ℕ) → Follows m (delete_email m n).0
unfolding delete_email
delete_email-Follows m n =
    delete_in-Follows m (find_storage m.storages n) (λ v. (operations-IsValid m n v).0)

pub delete_emails-Follows : (m : Mailbox) → Follows m (delete_emails m)
delete_emails-Follows m = record {
  same_name = unfold delete_emails in refl;
  same_lock = unfold delete_emails in refl;
  still_valid = λ v. (operations-IsValid m 0 v).1;
}

pub reset-Follows : (m : Mailbox) → Follows m (reset m)
reset-Follows m = record {
  same_name = unfold reset in refl;
  same_lock = unfold reset in refl;
  still_valid = λ v. (operations-IsValid m 0 v).2;
}

pub set_update-Follows : (m : Mailbox) → Follows m (set_update m)
set_update-Follows m = record {
  same_name = unfold set_update in refl;
  same_lock = unfold set_update in refl;
  still_valid = λ v. (operations-IsValid m 0 v).3;
}

pub Follows-trans : (k l m : Mailbox) → Follows k l → Follows l m → Follows k m
Follows-trans k l m f g = record {
  same_name = g.same_name ∙ f.same_name;
  same_lock = g.same_lock ∙ f.same_lock;
  still_valid = λ v. g.still_valid (f.still_valid v);
}
