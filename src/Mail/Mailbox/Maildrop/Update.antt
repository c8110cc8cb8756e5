-- ===== src/Mail/Mailbox/Maildrop/Update.antt =====
-- A mailbox that stands for a maildrop, when its session has ended by QUIT.
use simple_pop3serv.Base.{refl, ap, ◌∙◌, Bool, true, false, List, map}
use simple_pop3serv.Mail.Disk.{Disk, FilePath}
use simple_pop3serv.Mail.Storage.{is_mail_marked_as_deleted, set_update_flag}
use simple_pop3serv.Mail.Storage.Valid.{set_update_flag-IsValid}
use simple_pop3serv.Mail.Mailbox.{Mailbox, set_update}
use simple_pop3serv.Mail.Mailbox.Maildrop.{Maildrop}
use simple_pop3serv.Mail.Mailbox.Maildrop.View.{view_from-same}
use simple_pop3serv.Mail.Mailbox.Maildrop.Calls.{Represents}

-- Setting the update flag changes nothing that the maildrop shows.
pub set_update-Represents :
    (disk : Disk) (emails : List FilePath) (all : Bool) (m : Mailbox) (d : Maildrop)
    → Represents disk emails all false m d
    → Represents disk emails all true (set_update m) d
unfolding set_update set_update_flag is_mail_marked_as_deleted
set_update-Represents disk emails all m d h = record {
  storage = set_update_flag h.storage;
  single = ap (map set_update_flag) h.single;
  valid = set_update_flag-IsValid h.storage h.valid;
  there = h.there;
  looks =
      view_from-same disk h.storage (set_update_flag h.storage) 0 h.storage.emails (λ k below. refl)
      ∙ h.looks;
  same_emails = h.same_emails;
  same_all = h.same_all;
  same_update = refl;
}
