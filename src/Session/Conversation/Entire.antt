-- ===== src/Session/Conversation/Entire.antt =====
-- An entire session, from the first line to the destruction of its mailbox.
use simple_pop3serv.Base.{
  ◌≡◌, ap, ◌∙◌, false, ◌&&◌, not, Option, none, List, ◌∷◌, Bytes, if◌then◌else◌, arith, bytes_eq,
  bytes_eq_iff, ok, Variant,
}
use simple_pop3serv.Protocol.Boost.{Boost, BoostLaws}
use simple_pop3serv.Protocol.Parser.{Pop3Command, ParsingError}
use simple_pop3serv.Mail.Disk.{FilePath, find_file}
use simple_pop3serv.Mail.Storage.{Storage}
use simple_pop3serv.Mail.Mailbox.{Mailbox}
use simple_pop3serv.Mail.Mailbox.Maildrop.{Maildrop}
use simple_pop3serv.Service.Registry.{is_active}
use simple_pop3serv.Service.Connect.{World, Settings}
use simple_pop3serv.Session.{Session, destroy_mailbox}
use simple_pop3serv.Session.Close.{is_active-destroy_lock}
use simple_pop3serv.Session.Told.{status}
use simple_pop3serv.Session.Told.Obeys.{contents}
use simple_pop3serv.Session.Conversation.{
  converse, joined, Reads, dialogue, final, final_all, has_quit, is_marked_file,
}
use simple_pop3serv.Session.Conversation.Whole.{opened, converse-dialogue, converse-removes}
use simple_pop3serv.Session.Conversation.Logon.{
  LogsOn, user_reply, connected_facts, logged_on, logged_on-IsLoggedOn, logon_rounds,
}

-- The replies to USER, PASS and the other lines.
abbrev pub entire :
    Bytes → List (Option Bytes) → Maildrop → List (Variant Pop3Command ParsingError) → List Bytes
entire name contents d rs = user_reply name ∷ status name d ∷ dialogue name contents d rs

module _ {boost : Boost} (laws : BoostLaws boost) (settings : Settings) (world world1 : World)
    (s : Session) (user_line pass_line name : Bytes) (m : Mailbox) (st : Storage)
    (h : LogsOn boost settings world world1 s user_line pass_line name m st) (lines : List Bytes)
    (rs : List (Variant Pop3Command ParsingError)) (reads : Reads boost settings lines rs) where
  -- A session that is not logged on gets USER with a name that the manager knows and that holds no
  -- NUL, and PASS with which the service connects it to a mailbox of one storage; the disk has
  -- fewer than 2 ^ 64 files. Then any further lines that the parser returns from, commands or not,
  -- are answered without a fault. USER and PASS are answered with the name and with the count and
  -- size of the mails, and the replies to the further lines, up to the first QUIT, are those of
  -- the maildrop that has the sizes of the storage's files and at first no marks.
  pub converse-entire :
      (s' : Session) × (converse boost settings (user_line ∷ pass_line ∷ lines) s world
        ≡ ok (
          entire name (contents world1.disk st.emails) (opened world1.disk st.emails) rs,
          s',
          world1,
        ))
  converse-entire =
      let logon = logon_rounds laws settings world world1 s user_line pass_line name m st h lines in
      let (s', r) =
        converse-dialogue laws settings world1 st.emails m
          (logged_on laws settings world world1 s user_line pass_line name m st h)
          (logged_on-IsLoggedOn laws settings world world1 s user_line pass_line name m st h) lines
          rs reads in
      (
        s',
        logon
            ∙ ap
                (λ r.
                  joined (user_reply name) (joined (status name (opened world1.disk st.emails)) r))
                r,
      )

  -- Under the same conditions, and unless all mails stand deleted at once in the end, as after DELE
  -- without a number and no RSET behind it, and while the system refuses to remove no file: once the lines are answered so, the mailbox of the
  -- session is destroyed without a fault. Exactly those files are gone whose mails are marked in
  -- the maildrop in the end, if one of the further lines was QUIT, and none if not; and every name
  -- is locked or free as it was before the session.
  pub converse-leaves :
      final_all false rs ≡ false
      → ((q : FilePath) → world1.disk.refuses q ≡ false)
      → (s' : Session) × (world' : World) × (converse boost settings
            (user_line ∷ pass_line ∷ lines)
            s
            world
          ≡ ok (
            entire name (contents world1.disk st.emails) (opened world1.disk st.emails) rs,
            s',
            world1,
          ))
        × (destroy_mailbox world1 s'.mailbox ≡ ok world')
        × ((q : FilePath)
            → find_file world'.disk.files q ≡ (
                if has_quit rs
                  && is_marked_file st.emails (final (opened world1.disk st.emails) rs) q
                then none
                else find_file world.disk.files q))
        × ((other : Bytes) → is_active world'.active other ≡ is_active world.active other)
  unfolding is_active
  converse-leaves some_left never =
      let logon = logon_rounds laws settings world world1 s user_line pass_line name m st h lines in
      let (s', world', r, gone, active, found) =
        converse-removes laws settings world1 st.emails m
          (logged_on laws settings world world1 s user_line pass_line name m st h)
          (logged_on-IsLoggedOn laws settings world world1 s user_line pass_line name m st h) lines
          rs reads some_left never in
      let c = (connected_facts laws settings world world1 s user_line pass_line name m st h).0 in
      (
        s',
        world',
        logon
            ∙ ap
                (λ r.
                  joined (user_reply name) (joined (status name (opened world1.disk st.emails)) r))
                r,
        gone,
        λ q.
            found q
            ∙ ap
                (λ fs.
                  if has_quit rs
                    && is_marked_file st.emails (final (opened world1.disk st.emails) rs) q
                  then none
                  else find_file fs q)
                c.2,
        λ other.
            ap (λ a. is_active a other) active
            ∙ is_active-destroy_lock world1.active m.lock name other c.4 h.plain
            ∙ ap (λ a. not (bytes_eq name other) && is_active a other) c.1
            ∙ ground (arith, bytes_eq_iff name other, c.0),
      )
