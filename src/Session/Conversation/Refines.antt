-- ===== src/Session/Conversation/Refines.antt =====
-- A conversation after the logon is that of the maildrop.
use simple_pop3serv.Base.{
  ◌≡◌, refl, ap, ◌∙◌, inl, inr, Bool, true, false, some, List, [], ◌∷◌, arith, Bytes, ok,
  Ensures-ok, Variant, value, error, Bool-cases,
}
use simple_pop3serv.Protocol.Boost.{Boost, BoostLaws}
use simple_pop3serv.Protocol.Parser.{
  Pop3Command, ParsingError, print_parsing_error, parse_pop3_command,
}
use simple_pop3serv.Protocol.Parser.Accepted.{parse-IsWellFormed}
use simple_pop3serv.Mail.Disk.{FilePath}
use simple_pop3serv.Mail.Mailbox.{Mailbox, set_update}
use simple_pop3serv.Mail.Mailbox.Maildrop.{Maildrop}
use simple_pop3serv.Mail.Mailbox.Maildrop.Calls.{Represents}
use simple_pop3serv.Mail.Mailbox.Maildrop.Update.{set_update-Represents}
use simple_pop3serv.Service.Lock.{MailboxLock}
use simple_pop3serv.Mail.Mailbox.Follows.{set_update-Follows}
use simple_pop3serv.Session.Keeps.{Keeps, authorized_case-Keeping}
use simple_pop3serv.Session.Authorized.{authorized_case}
use simple_pop3serv.Service.Connect.{World, Settings}
use simple_pop3serv.Session.{Session, transaction}
use simple_pop3serv.Session.Reply.{set_error_response}
use simple_pop3serv.Session.Read.{read_impl, update_mailbox}
use simple_pop3serv.Session.Told.{told}
use simple_pop3serv.Session.Told.Texts.{error-text}
use simple_pop3serv.Session.Told.Obeys.{Obeys, contents, is_quit}
use simple_pop3serv.Session.Told.Commands.{authorized_case-IsTold}
use simple_pop3serv.Session.Conversation.{
  Conversation, converse, joined, Reads, dialogue, final, final_all, has_quit, next, next_all,
}
use simple_pop3serv.Session.Conversation.Rounds.{
  with_line, followed, converse-quit, converse-goes_on, read_impl-error, read_impl-transaction,
}

module _ {boost : Boost} (laws : BoostLaws boost) (settings : Settings) (world : World)
    (emails : List FilePath) (name : Bytes) (lock : MailboxLock) where
  -- A conversation with these replies, which ends with a mailbox that stands for the maildrop.
  pub record Tells (replies : List Bytes) (all quits : Bool) (d : Maildrop) (r : Conversation)
      : Type 0 where
    pub session : Session
    pub mailbox_after : Mailbox
    pub returns : r ≡ ok (replies, session, world)
    pub has : session.mailbox ≡ some mailbox_after
    pub same_lock : mailbox_after.lock ≡ lock
    pub represents : Represents world.disk emails all quits mailbox_after d

  -- A session that is ready for the next line.
  pub record IsReady (all : Bool) (m : Mailbox) (d : Maildrop) (s : Session) : Type 0 where
    pub at : s.state ≡ transaction
    pub called : s.user_name ≡ name
    pub stays : s.quit_command_received ≡ false
    pub has : s.mailbox ≡ some m
    pub same_lock : m.lock ≡ lock
    pub represents : Represents world.disk emails all false m d

  Tells-joined :
      (reply : Bytes) (replies : List Bytes) (all quits : Bool) (d : Maildrop) (r r' : Conversation)
      → r ≡ joined reply r'
      → Tells replies all quits d r'
      → Tells (reply ∷ replies) all quits d r
  Tells-joined reply replies all quits d r r' e t = record {
    session = t.session;
    mailbox_after = t.mailbox_after;
    returns = e ∙ ap (joined reply) t.returns;
    has = t.has;
    same_lock = t.same_lock;
    represents = t.represents;
  }

  abbrev pub Says :
      Maildrop → Bool → List (Variant Pop3Command ParsingError) → Conversation → Type 0
  Says d all rs r =
      Tells (dialogue name (contents world.disk emails) d rs) (final_all all rs) (has_quit rs)
        (final d rs) r

  -- One command: the replies, if the conversation goes on from the next maildrop as told.
  module _ (rs : List (Variant Pop3Command ParsingError)) (line : Bytes) (lines : List Bytes)
      (cmd : Pop3Command) (parsed : parse_pop3_command boost line ≡ ok (value cmd)) (all : Bool)
      (m : Mailbox) (d : Maildrop) (s : Session) (h : IsReady all m d s) where
    told_next :
        (t : Session) × (read_impl boost settings (record s { request = line }) world
          ≡ ok (t, world))
        × (o : Obeys world.disk emails false all (with_line s line) d cmd.cmd_type cmd.parameter t)
        × (o.mailbox_after.lock ≡ lock)
    told_next =
        let (t, q, o) =
          authorized_case-IsTold laws world.disk emails all false m d h.represents
            (with_line s line) h.has cmd.cmd_type cmd.parameter
            (parse-IsWellFormed laws line cmd parsed) in
        let k =
          Ensures-ok (Keeps (with_line s line))
            (authorized_case boost world.disk cmd.cmd_type cmd.parameter (with_line s line)) t
            (authorized_case-Keeping boost world.disk cmd.cmd_type cmd.parameter (with_line s line))
            q in
        (
          t,
          read_impl-transaction boost settings world line s t cmd parsed h.at q,
          o,
          (followed s.mailbox t.mailbox m o.mailbox_after h.has o.has k.follows).same_lock
              ∙ h.same_lock,
        )

    quit-Says :
        is_quit cmd.cmd_type ≡ true
        → Says d all (value cmd ∷ rs) (converse boost settings (line ∷ lines) s world)
    quit-Says quit =
        let (t, step, o, locked) = told_next in
        rw (quit, final, final_all)
          (record {
            session = record t { mailbox = update_mailbox t.mailbox };
            mailbox_after = set_update o.mailbox_after;
            returns =
                converse-quit boost settings world line lines s t world step
                  (o.quits ∙ rw quit (ground arith))
                ∙ ap
                    (λ reply.
                      ok (reply ∷ [], record t { mailbox = update_mailbox t.mailbox }, world))
                    (o.reply
                      ∙ ap (λ n. told n (contents world.disk emails) d cmd.cmd_type cmd.parameter)
                          h.called);
            has = ap update_mailbox o.has;
            same_lock = (set_update-Follows o.mailbox_after).same_lock ∙ locked;
            represents =
                set_update-Represents world.disk emails (next_all all cmd) o.mailbox_after
                  (next d cmd) o.represents;
          })

    value-Says :
        is_quit cmd.cmd_type ≡ false
        → ((m' : Mailbox) (s' : Session)
            → IsReady (next_all all cmd) m' (next d cmd) s'
            → Says (next d cmd) (next_all all cmd) rs (converse boost settings lines s' world))
        → Says d all (value cmd ∷ rs) (converse boost settings (line ∷ lines) s world)
    value-Says stays rest =
        let (t, step, o, locked) = told_next in
        let open_still = o.quits ∙ rw (h.stays, stays) refl in
        let ready : IsReady (next_all all cmd) o.mailbox_after (next d cmd)
            (record t { request = [] }) =
          record {
            at = o.same_state ∙ h.at;
            called = o.same_user ∙ h.called;
            stays = open_still;
            has = o.has;
            same_lock = locked;
            represents = o.represents;
          } in
        rw (stays, final, final_all)
          (Tells-joined _ _ _ _ _ _ _
            (converse-goes_on boost settings world line lines s t world step open_still
              ∙ ap
                  (λ reply.
                    joined reply (converse boost settings lines (record t { request = [] }) world))
                  (o.reply
                    ∙ ap (λ n. told n (contents world.disk emails) d cmd.cmd_type cmd.parameter)
                        h.called))
            (rest o.mailbox_after (record t { request = [] }) ready))

  -- A line that is no command leaves the session ready.
  error-Says :
      (rs : List (Variant Pop3Command ParsingError)) (line : Bytes) (lines : List Bytes)
      (why : ParsingError)
      → parse_pop3_command boost line ≡ ok (error why)
      → (all : Bool) (m : Mailbox) (d : Maildrop) (s : Session) → IsReady all m d s
      → ((s' : Session)
          → IsReady all m d s'
          → Says d all rs (converse boost settings lines s' world))
      → Says d all (error why ∷ rs) (converse boost settings (line ∷ lines) s world)
  unfolding set_error_response
  error-Says rs line lines why parsed all m d s h rest =
      let t = set_error_response boost (with_line s line) (print_parsing_error why) in
      let step = read_impl-error boost settings world line s why parsed in
      Tells-joined _ _ _ _ _ _ _
        (converse-goes_on boost settings world line lines s t world step h.stays
          ∙ ap
              (λ reply.
                joined reply (converse boost settings lines (record t { request = [] }) world))
              (error-text laws (with_line s line) (print_parsing_error why)))
        (rest (record t { request = [] })
          (record {
            at = h.at;
            called = h.called;
            stays = h.stays;
            has = h.has;
            same_lock = h.same_lock;
            represents = h.represents;
          }))

  pub converse-Says :
      (rs : List (Variant Pop3Command ParsingError)) (lines : List Bytes)
      → Reads boost settings lines rs
      → (all : Bool) (m : Mailbox) (d : Maildrop) (s : Session) → IsReady all m d s
      → Says d all rs (converse boost settings lines s world)
  unfolding converse
  converse-Says [] [] e all m d s h = record {
    session = s;
    mailbox_after = m;
    returns = refl;
    has = h.has;
    same_lock = h.same_lock;
    represents = h.represents;
  }
  converse-Says [] (line ∷ lines) e all m d s h = absurd e
  converse-Says (r ∷ rs) [] e all m d s h = absurd e
  converse-Says (error why ∷ rs) (line ∷ lines) e all m d s h =
      error-Says rs line lines why e.0 all m d s h
        (λ s' ready. converse-Says rs lines e.1 all m d s' ready)
  converse-Says (value cmd ∷ rs) (line ∷ lines) e all m d s h =
      elim (Bool-cases (is_quit cmd.cmd_type)) [
        | inl quit ↦ quit-Says rs line lines cmd e.0 all m d s h quit
        | inr stays ↦
            value-Says rs line lines cmd e.0 all m d s h stays (λ m' s' ready.
              converse-Says rs lines e.1 (next_all all cmd) m' (next d cmd) s' ready)
      ]
