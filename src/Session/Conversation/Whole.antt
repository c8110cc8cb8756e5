-- ===== src/Session/Conversation/Whole.antt =====
-- A session from the logon to its end: what the client is told, and which files are left.
use simple_pop3serv.Base.{
  ◌≡◌, ◌<◌, ◌+◌, refl, sym, ap, ◌∙◌, subst, Bool, false, ◌||◌, ◌&&◌, none, some, List, [], ◌∷◌, map,
  if◌then◌else◌, ℕ, arith, All, Bytes, length, size_mod, ok, Variant,
}
use simple_pop3serv.Protocol.Boost.{Boost, BoostLaws}
use simple_pop3serv.Protocol.Parser.{Pop3Command, ParsingError}
use simple_pop3serv.Mail.Disk.{Disk, FilePath, find_file}
use simple_pop3serv.Mail.Storage.{new_storage, is_mail_marked_as_deleted, contains}
use simple_pop3serv.Mail.Storage.Valid.{IsValid, new_storage-IsValid}
use simple_pop3serv.Mail.Storage.Listing.{IsPresent, size_of}
use simple_pop3serv.Mail.Mailbox.{Mailbox}
use simple_pop3serv.Mail.Mailbox.Maildrop.{Maildrop}
use simple_pop3serv.Mail.Mailbox.Maildrop.View.{view_from}
use simple_pop3serv.Mail.Mailbox.Maildrop.Calls.{Represents}
use simple_pop3serv.Service.Lock.{destroy_lock}
use simple_pop3serv.Service.Connect.{World, Settings}
use simple_pop3serv.Session.{Session, transaction, destroy_mailbox}
use simple_pop3serv.Mail.Mailbox.Close.{removes_file, Quiet-never}
use simple_pop3serv.Session.Close.{destroy_mailbox-files}
use simple_pop3serv.Session.Told.Obeys.{contents}
use simple_pop3serv.Session.Conversation.{
  converse, Reads, dialogue, final, final_all, has_quit, is_marked_file,
}
use simple_pop3serv.Session.Conversation.Refines.{IsReady, converse-Says}
use simple_pop3serv.Session.Conversation.Removal.{names_file-is_marked_file}

-- The maildrop of the files, with nothing marked.
abbrev pub opened : Disk → List FilePath → Maildrop
opened disk emails = map (λ p. record { size = size_of disk p; marked = false }) emails

view_from-opened :
    (disk : Disk) (emails : List FilePath) (i : ℕ) (ps : List FilePath)
    → view_from disk (new_storage emails) i ps ≡ opened disk ps
unfolding is_mail_marked_as_deleted contains
view_from-opened disk emails i [] = refl
view_from-opened disk emails i (p ∷ ps) =
    ap (◌∷◌ (record { size = size_of disk p; marked = false }))
      (view_from-opened disk emails (i + 1) ps)

-- The session of a user who has just logged on to a mailbox on the files of one folder.
pub record IsLoggedOn (world : World) (emails : List FilePath) (m : Mailbox) (s : Session)
    : Type 0 where
  pub at : s.state ≡ transaction
  pub stays : s.quit_command_received ≡ false
  pub has : s.mailbox ≡ some m
  pub single : m.storages ≡ new_storage emails ∷ []
  pub bounded : length emails < size_mod
  pub there : All (IsPresent world.disk) emails

-- What a destroyed mailbox removes, by the maildrop that it stands for.
removes_file-Represents :
    (disk : Disk) (emails : List FilePath) (update : Bool) (m : Mailbox) (d : Maildrop)
    (q : FilePath)
    → Represents disk emails false update m d
    → removes_file m.storages q ≡ (update && is_marked_file emails d q)
removes_file-Represents disk emails update m d q h =
    ap (λ ss. removes_file ss q) h.single
    ∙ rw (h.same_update, names_file-is_marked_file disk h.storage q h.same_all)
        (ap (λ (b : Bool). (update && b) || false)
            (ap (λ ps. is_marked_file ps (view_from disk h.storage 0 h.storage.emails) q)
                h.same_emails
              ∙ ap (λ d. is_marked_file emails d q) h.looks)
          ∙ ground arith)

module _ {boost : Boost} (laws : BoostLaws boost) (settings : Settings) (world : World)
    (emails : List FilePath) (m : Mailbox) (s : Session) (h : IsLoggedOn world emails m s) where
  pub ready :
      IsReady laws settings world emails s.user_name m.lock false m (opened world.disk emails) s
  ready = record {
    at = h.at;
    called = refl;
    stays = h.stays;
    has = h.has;
    same_lock = refl;
    represents = record {
      storage = new_storage emails;
      single = h.single;
      valid = new_storage-IsValid emails h.bounded;
      there = h.there;
      looks = view_from-opened world.disk emails 0 emails;
      same_emails = refl;
      same_all = refl;
      same_update = refl;
    };
  }

  -- What the client is told.
  pub converse-dialogue :
      (lines : List Bytes) (rs : List (Variant Pop3Command ParsingError))
      → Reads boost settings lines rs
      → (s' : Session) × (converse boost settings lines s world
          ≡ ok (
            dialogue s.user_name (contents world.disk emails) (opened world.disk emails) rs,
            s',
            world,
          ))
  converse-dialogue lines rs e =
      let t =
        converse-Says laws settings world emails s.user_name m.lock rs lines e false m
          (opened world.disk emails) s ready in
      (t.session, t.returns)

  -- What becomes of the files and the lock.
  pub converse-removes :
      (lines : List Bytes) (rs : List (Variant Pop3Command ParsingError))
      → Reads boost settings lines rs
      → final_all false rs ≡ false
      → ((q : FilePath) → world.disk.refuses q ≡ false)
      → (s' : Session) × (world' : World) × (converse boost settings lines s world
          ≡ ok (
            dialogue s.user_name (contents world.disk emails) (opened world.disk emails) rs,
            s',
            world,
          ))
        × (destroy_mailbox world s'.mailbox ≡ ok world')
        × (world'.active ≡ destroy_lock world.active m.lock)
        × ((q : FilePath)
            → find_file world'.disk.files q ≡ (
                if has_quit rs && is_marked_file emails (final (opened world.disk emails) rs) q
                then none
                else find_file world.disk.files q))
  converse-removes lines rs e some_left never =
      let t =
        converse-Says laws settings world emails s.user_name m.lock rs lines e false m
          (opened world.disk emails) s ready in
      let r =
        subst
          (λ all.
            Represents world.disk emails all (has_quit rs) t.mailbox_after
              (final (opened world.disk emails) rs))
          some_left t.represents in
      let (world', gone, active, same, found) =
        destroy_mailbox-files world t.mailbox_after
          (subst (All IsValid) (sym r.single) (r.valid, tt))
          (Quiet-never world.disk.refuses t.mailbox_after.storages never) in
      (
        t.session,
        world',
        t.returns,
        ap (destroy_mailbox world) t.has ∙ gone,
        active ∙ ap (destroy_lock world.active) t.same_lock,
        λ q.
            found q
            ∙ ap (λ (b : Bool). if b then none else find_file world.disk.files q)
                (removes_file-Represents world.disk emails (has_quit rs) t.mailbox_after _ q r),
      )
