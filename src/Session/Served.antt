-- ===== src/Session/Served.antt =====
-- `readImpl` as a whole: from a sound session, every line but a blank one is answered, and the
-- session is sound afterwards.
use simple_pop3serv.Base.{
  NoNul, ◌<◌, ◌≡◌, ◌≢◌, refl, ap, ◌∙◌, subst, true, false, Option, none, some, [], length, size_mod,
  ok, fault, out_of_range, Variant, value, error,
}
use simple_pop3serv.Protocol.Boost.{Boost, BoostLaws}
use simple_pop3serv.Protocol.Parser.{Pop3Command, ParsingError, parse_pop3_command}
use simple_pop3serv.Protocol.Parser.Words.{IsBlank}
use simple_pop3serv.Protocol.Parser.Accepted.{
  IsWellFormed, parse-IsWellFormed, parse-returns, parse-blank_line,
}
use simple_pop3serv.Mail.Mailbox.{Mailbox}
use simple_pop3serv.Service.Connect.{World, Settings}
use simple_pop3serv.Session.{Session, SessionState, authorization, transaction, update}
use simple_pop3serv.Session.Answers.{IsOpen}
use simple_pop3serv.Session.Sound.{Coherent, IsSound, IsServed, error-IsServed, authorized-IsServed}
use simple_pop3serv.Protocol.Parser.Plain.{PlainText, parse-PlainText}
use simple_pop3serv.Session.Logon.{anonymous_case-IsServed}
use simple_pop3serv.Session.Anonymous.{handle_anonymous_command}
use simple_pop3serv.Session.Authorized.{handle_authorized_user_command}
use simple_pop3serv.Session.Read.{is_authorization, read_impl, handle_parsed, handle_command}

module _ {boost : Boost} (laws : BoostLaws boost) (settings : Settings) (world : World)
    (small : length world.disk.files < size_mod) where
  transaction-IsOpen :
      (s : Session) → s.state ≡ transaction → IsSound world.disk s → IsOpen world.disk s.mailbox
  transaction-IsOpen s at h =
      open_mailbox s.mailbox (subst (λ t. Coherent world.disk t s.mailbox) at h.coherent)
    where
      open_mailbox :
          (mailbox : Option Mailbox)
          → Coherent world.disk transaction mailbox
          → IsOpen world.disk mailbox
      open_mailbox none h = absurd h
      open_mailbox (some m) h = h

  anonymous_step :
      (cmd : Pop3Command) (s : Session)
      → is_authorization s.state ≡ true
      → handle_command boost settings cmd s world
        ≡ handle_anonymous_command boost settings cmd s world
  unfolding handle_command
  anonymous_step cmd s at = rw at

  transaction_step :
      (cmd : Pop3Command) (s s' : Session)
      → is_authorization s.state ≡ false
      → handle_authorized_user_command boost world.disk cmd s ≡ ok s'
      → handle_command boost settings cmd s world ≡ ok (s', world)
  unfolding handle_command
  transaction_step cmd s s' at e = rw at (rw e)

  handle_command-IsServed :
      (cmd : Pop3Command) (s : Session) (t : SessionState)
      → IsWellFormed cmd
      → PlainText cmd.parameter
      → s.state ≡ t
      → IsSound world.disk s
      → IsServed world (handle_command boost settings cmd s world)
  unfolding handle_anonymous_command
  handle_command-IsServed cmd s authorization f given at h =
      let (s', world', e, serves) =
        anonymous_case-IsServed laws settings world small cmd.cmd_type cmd.parameter s f given at
          h in
      (s', world', anonymous_step cmd s (ap is_authorization at) ∙ e, serves)
  handle_command-IsServed cmd s transaction f given at h =
      let (s', e, serves) =
        authorized-IsServed laws world cmd s s.mailbox f at refl (transaction-IsOpen s at h)
          h.plain_name in
      (s', world, transaction_step cmd s s' (ap is_authorization at) e, serves)
  handle_command-IsServed cmd s update f given at h =
      absurd (subst (λ t. Coherent world.disk t s.mailbox) at h.coherent)

  handle_parsed-IsServed :
      (r : Variant Pop3Command ParsingError) (s : Session)
      → NoNul s.request
      → parse_pop3_command boost s.request ≡ ok r
      → IsSound world.disk s
      → IsServed world (handle_parsed boost settings r (record s { response = [] }) world)
  unfolding handle_parsed
  handle_parsed-IsServed (error e) s n parsed h =
      error-IsServed laws world (record s { response = [] }) world _
        (record { coherent = h.coherent; plain_name = h.plain_name }) refl
  handle_parsed-IsServed (value cmd) s n parsed h =
      handle_command-IsServed cmd (record s { response = [] }) s.state
        (parse-IsWellFormed laws s.request cmd parsed) (parse-PlainText laws s.request cmd n parsed)
        refl (record { coherent = h.coherent; plain_name = h.plain_name })

  read_step :
      (s : Session) (r : Variant Pop3Command ParsingError)
      → parse_pop3_command boost s.request ≡ ok r
      → read_impl boost settings s world
        ≡ handle_parsed boost settings r (record s { response = [] }) world
  unfolding read_impl
  read_step s r e = rw e

  -- If the disk has fewer than 2 ^ 64 files: from a sound session (no mailbox before the logon, after
  -- it a valid one whose files are on the disk, a user name without NUL), every request that is not
  -- blank and holds no NUL is answered without a
  -- fault, the response begins with "+OK" or "-ERR" and ends with CR LF, the session is sound
  -- again, and the files on the disk are as they were.
  pub read_impl-IsServed :
      (s : Session)
      → ¬ IsBlank s.request
      → NoNul s.request
      → IsSound world.disk s
      → IsServed world (read_impl boost settings s world)
  read_impl-IsServed s line n h =
      let (r, e) = parse-returns laws s.request line in
      let (s', world', q, serves) = handle_parsed-IsServed r s n e h in
      (s', world', read_step s r e ∙ q, serves)

-- A request that is not empty and holds spaces alone, such as an empty line, faults whatever the
-- session.
pub read_impl-IsBlank :
    {boost : Boost} (laws : BoostLaws boost) (settings : Settings) (world : World) (s : Session)
    → s.request ≢ []
    → IsBlank s.request
    → read_impl boost settings s world ≡ fault out_of_range
unfolding read_impl
read_impl-IsBlank laws settings world s h line = rw (parse-blank_line laws s.request h line)
