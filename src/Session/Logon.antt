-- ===== src/Session/Logon.antt =====
-- The commands before the logon are answered, and keep a session sound.
use simple_pop3serv.Base.{
  NoNul, ◌<◌, ◌≡◌, refl, sym, subst, inl, inr, true, none, some, List, [], ◌∷◌, Bytes, length,
  size_mod, All, ok, Bool-cases,
}
use simple_pop3serv.Protocol.Boost.{Boost, BoostLaws}
use simple_pop3serv.Protocol.CommandType.{Pop3CommandType, unknown, user, pass, noop, quit}
use simple_pop3serv.Protocol.Parser.{Parameter, monostate, uint, text}
use simple_pop3serv.Protocol.Parser.Accepted.{Fits}
use simple_pop3serv.Mail.Disk.{Disk, File}
use simple_pop3serv.Mail.Errors.{MailboxOperationError}
use simple_pop3serv.Mail.Storage.{Storage}
use simple_pop3serv.Mail.Storage.Valid
use simple_pop3serv.Mail.Mailbox.{Mailbox}
use simple_pop3serv.Mail.Mailbox.Listing.{AllPresent}
use simple_pop3serv.Service.Factory.Opened.{IsOpened, IsOpened-IsValid}
use simple_pop3serv.Service.Connect.{
  World, Settings, Connection, connected, operation_failed, auth_failed,
}
use simple_pop3serv.Service.Connect.Locking.{Connects, verify_credentials_and_connect-Connects}
use simple_pop3serv.Session.{Session, authorization, transaction, destroy_mailbox}
use simple_pop3serv.Session.Reply.{put_mailbox_info_to_reponse}
use simple_pop3serv.Session.Anonymous.{
  handle_user, handle_connection, is_busy_error, anonymous_case,
}
use simple_pop3serv.Session.Answers.{info-IsAnswered}
use simple_pop3serv.Protocol.Parser.Plain.{PlainText}
use simple_pop3serv.Session.Sound.{
  IsSound, IsServed, simple-IsServed, Coherent-none, anonymous-IsSound, answered-IsSound,
  error-IsServed,
}

module _ {boost : Boost} (laws : BoostLaws boost) (settings : Settings) (world : World)
    (small : length world.disk.files < size_mod) where
  handle_user-IsServed :
      (s : Session) (name : Bytes)
      → NoNul name
      → IsSound world.disk s
      → IsServed world (ok (handle_user boost settings s name, world))
  unfolding handle_user
  handle_user-IsServed s name plain h = elim (Bool-cases (settings.manager.verify_name name)) [
    | inl known ↦ rw known (
        simple-IsServed laws world (record s { user_name = name }) _
          (record { coherent = h.coherent; plain_name = plain }))
    | inr strange ↦ rw strange (error-IsServed laws world s world _ h refl)
  ]

  opened-IsOpen :
      (d : Disk) (ss : List Storage)
      → d.files ≡ world.disk.files
      → All (IsOpened d.files) ss
      → All Valid.IsValid ss × AllPresent d ss
  opened-IsOpen d [] e h = (tt, tt)
  opened-IsOpen d (s ∷ ss) e h =
      let (valid, unmarked, all, flag, there) =
        IsOpened-IsValid d s (subst (λ (fs : List File). length fs < size_mod) (sym e) small) h.0 in
      let (valids, theres) = opened-IsOpen d ss e h.1 in ((valid, valids), (there, theres))

  connected_step :
      (s s' : Session) (world' : World) (m : Mailbox)
      → s.mailbox ≡ none
      → put_mailbox_info_to_reponse boost world'.disk
          (record s { mailbox = some m; state = transaction })
        ≡ ok s'
      → handle_connection boost settings s (world', connected m) ≡ ok (s', world')
  unfolding handle_connection destroy_mailbox
  connected_step s s' world' m e q = rw (e, handle_connection) (rw q)

  failed_step :
      (s : Session) (world' : World) (e : MailboxOperationError)
      → s.state ≡ authorization
      → IsSound world.disk s
      → world'.disk.files ≡ world.disk.files
      → IsServed world (handle_connection boost settings s (world', operation_failed e))
  unfolding handle_connection
  failed_step s world' e at h same =
      let sound = anonymous-IsSound world.disk world'.disk s at h in
      elim (Bool-cases (is_busy_error e)) [
        | inl busy ↦ rw busy (error-IsServed laws world s world' _ sound same)
        | inr other ↦ rw other (error-IsServed laws world s world' _ sound same)
      ]

  handle_connection-IsServed :
      (s : Session) (name : Bytes) (r : World × Connection)
      → s.state ≡ authorization
      → IsSound world.disk s
      → Connects world name r
      → IsServed world (handle_connection boost settings s r)
  handle_connection-IsServed s name (world', connected m) at h c =
      let t : Session = record s { mailbox = some m; state = transaction } in
      let (valid, there) = opened-IsOpen world'.disk m.storages c.2 c.5 in
      let (s', q, a) = info-IsAnswered laws world'.disk t m refl valid there in
      (
        s',
        world',
        connected_step s s' world' m (Coherent-none world.disk s.state s.mailbox at h.coherent) q,
        record {
          sound = answered-IsSound world'.disk t s' refl h.plain_name a;
          reply = a.reply;
          same_files = c.2;
        },
      )
  handle_connection-IsServed s name (world', operation_failed e) at h c =
      failed_step s world' e at h c.1
  handle_connection-IsServed s name (world', auth_failed e) at h c =
      unfold handle_connection in
      error-IsServed laws world s world' _ (anonymous-IsSound world.disk world'.disk s at h) c.1

  pub anonymous_case-IsServed :
      (t : Pop3CommandType) (p : Parameter) (s : Session)
      → Fits t p
      → PlainText p
      → s.state ≡ authorization
      → IsSound world.disk s
      → IsServed world (anonymous_case boost settings t p s world)
  unfolding anonymous_case
  anonymous_case-IsServed unknown p s f given at h = absurd f
  anonymous_case-IsServed user (text name) s f given at h = handle_user-IsServed s name given h
  anonymous_case-IsServed user (uint n) s f given at h = absurd f
  anonymous_case-IsServed user monostate s f given at h = absurd f
  anonymous_case-IsServed pass (text password) s f given at h =
      handle_connection-IsServed s s.user_name _ at h
        (verify_credentials_and_connect-Connects settings world s.user_name password h.plain_name)
  anonymous_case-IsServed pass (uint n) s f given at h = absurd f
  anonymous_case-IsServed pass monostate s f given at h = absurd f
  anonymous_case-IsServed noop p s f given at h = simple-IsServed laws world s [] h
  anonymous_case-IsServed quit p s f given at h =
      simple-IsServed laws world (record s { quit_command_received = true }) []
        (record { coherent = h.coherent; plain_name = h.plain_name })
  anonymous_case-IsServed _ p s f given at h = error-IsServed laws world s world _ h refl
