-- ===== src/Session/Conversation/Logon.antt =====
-- A whole session: USER and PASS, and the conversation after them.
use simple_pop3serv.Base.{
  ◌≡◌, ◌<◌, refl, sym, ap, ◌∙◌, subst, true, false, some, none, List, [], ◌∷◌, ◌++◌, Bytes, bytes,
  NoNul, c_str-NoNul, length, size_mod, arith, All, All-append, append_assoc, ok, ◌>>=◌, value,
}
use simple_pop3serv.Protocol.Boost.{Boost, BoostLaws}
use simple_pop3serv.Protocol.CommandType.{user, pass}
use simple_pop3serv.Protocol.Parser.{text, parse_pop3_command}
use simple_pop3serv.Mail.Storage.{Storage, new_storage}
use simple_pop3serv.Mail.Storage.Listing.{IsPresent}
use simple_pop3serv.Mail.Mailbox.{Mailbox}
use simple_pop3serv.Mail.Mailbox.Maildrop.{Maildrop}
use simple_pop3serv.Service.Factory.Opened.{IsOpened, IsOpened-IsValid}
use simple_pop3serv.Service.Connect.{World, Settings, connected, verify_credentials_and_connect}
use simple_pop3serv.Service.Connect.Locking.{Connects, verify_credentials_and_connect-Connects}
use simple_pop3serv.Session.{Session, authorization, transaction}
use simple_pop3serv.Session.Reply.{set_simple_ok_response}
use simple_pop3serv.Session.Anonymous.{
  handle_anonymous_command, anonymous_case, handle_user, handle_connection,
}
use simple_pop3serv.Session.Read.{is_authorization, read_impl}
use simple_pop3serv.Session.Connected.{connected_step}
use simple_pop3serv.Session.Told.{positive, status}
use simple_pop3serv.Session.Told.Texts.{ok_word-text}
use simple_pop3serv.Session.Told.Obeys.{info-Represents}
use simple_pop3serv.Session.Conversation.{converse, joined}
use simple_pop3serv.Session.Conversation.Rounds.{with_line, converse-goes_on}
use simple_pop3serv.Session.Conversation.Whole.{IsLoggedOn, opened, ready}

-- The replies to USER and PASS.
abbrev pub user_reply : Bytes → Bytes
user_reply name = positive (bytes " user " ++ name ++ bytes " exists")

-- A session that is not logged on, and the two lines with which it gets a mailbox of one storage:
-- USER with a name that the manager knows and that holds no NUL, and PASS with which the service
-- connects it. The disk has fewer than 2 ^ 64 files.
pub record LogsOn (boost : Boost) (settings : Settings) (world world1 : World) (s : Session)
    (user_line pass_line name : Bytes) (m : Mailbox) (st : Storage) : Type 0 where
  pub password : Bytes
  pub user_parsed :
      parse_pop3_command boost user_line
      ≡ ok (value (record { cmd_type = user; parameter = text name }))
  pub pass_parsed :
      parse_pop3_command boost pass_line
      ≡ ok (value (record { cmd_type = pass; parameter = text password }))
  pub at : s.state ≡ authorization
  pub none_yet : s.mailbox ≡ none
  pub stays : s.quit_command_received ≡ false
  pub known : settings.manager.verify_name name ≡ true
  pub plain : NoNul name
  pub small : length world.disk.files < size_mod
  pub connects : verify_credentials_and_connect settings world name password ≡ (world1, connected m)
  pub single : m.storages ≡ st ∷ []

module _ {boost : Boost} (laws : BoostLaws boost) (settings : Settings) (world : World) where
  user_text :
      (name : Bytes) (s : Session)
      → NoNul name
      → (set_simple_ok_response boost s (bytes "user " ++ name ++ bytes " exists")).response
        ≡ user_reply name
  unfolding set_simple_ok_response
  user_text name s plain =
      let whole : NoNul (bytes "user " ++ name ++ bytes " exists") =
        All-append _ (bytes "user " ++ name) (bytes " exists")
          (All-append _ (bytes "user ") name (omega arith) plain) (omega arith) in
      rw (ok_word-text laws, c_str-NoNul _ whole) (simp append_assoc)

  user_round :
      (line name : Bytes) (s : Session)
      → parse_pop3_command boost line
        ≡ ok (value (record { cmd_type = user; parameter = text name }))
      → s.state ≡ authorization
      → settings.manager.verify_name name ≡ true
      → NoNul name
      → read_impl boost settings (record s { request = line }) world
        ≡ ok (record s { request = line; user_name = name; response = user_reply name }, world)
  unfolding read_impl handle_anonymous_command anonymous_case handle_user set_simple_ok_response
  user_round line name s parsed at known plain =
      rw (parsed, ap is_authorization at, known)
        (ap (λ r. ok (record s { request = line; user_name = name; response = r }, world))
          (user_text name s plain))

  pass_round :
      (line password : Bytes) (s : Session)
      → parse_pop3_command boost line
        ≡ ok (value (record { cmd_type = pass; parameter = text password }))
      → s.state ≡ authorization
      → read_impl boost settings (record s { request = line }) world
        ≡ handle_connection boost settings
            (with_line s line)
            (verify_credentials_and_connect settings world s.user_name password)
  unfolding read_impl handle_anonymous_command anonymous_case
  pass_round line password s parsed at = rw (parsed, ap is_authorization at) refl

module _ {boost : Boost} (laws : BoostLaws boost) (settings : Settings) (world world1 : World)
    (s : Session) (user_line pass_line name : Bytes) (m : Mailbox) (st : Storage)
    (h : LogsOn boost settings world world1 s user_line pass_line name m st) where
  -- What the connection has brought.
  pub connected_facts :
      Connects world name (world1, connected m)
      × All (IsPresent world1.disk) st.emails
      × (length st.emails < size_mod)
      × (st ≡ new_storage st.emails)
  connected_facts =
      let c =
        subst (Connects world name) h.connects
          (verify_credentials_and_connect-Connects settings world name h.password h.plain) in
      let made = (subst (All (IsOpened world1.disk.files)) h.single c.5).0 in
      let few = subst (λ n. n < size_mod) (ap length (sym c.2)) h.small in
      let valid = IsOpened-IsValid world1.disk st few made in
      (
        c,
        valid.4,
        valid.0.bounded,
        made.1 ∙ ap new_storage (sym (ap (λ (t : Storage). t.emails) made.1)),
      )

  -- The session after the two rounds, without its response.
  abbrev after_user : Session
  after_user = record s { user_name = name; request = []; response = user_reply name }

  abbrev pub drop : Maildrop
  drop = opened world1.disk st.emails

  abbrev pub logged_on : Session
  logged_on = record s {
    user_name = name;
    mailbox = some m;
    state = transaction;
    request = [];
    response = status name drop;
  }

  pub logged_on-IsLoggedOn : IsLoggedOn world1 st.emails m logged_on
  logged_on-IsLoggedOn =
      let (c, there, bounded, fresh) = connected_facts in
      record {
        at = refl;
        stays = h.stays;
        has = refl;
        single = h.single ∙ ap (λ st. st ∷ []) fresh;
        bounded = bounded;
        there = there;
      }

  pass_answer :
      read_impl boost settings (record after_user { request = pass_line }) world
      ≡ ok (record logged_on { request = pass_line }, world1)
  pass_answer =
      pass_round laws settings world pass_line h.password after_user h.pass_parsed h.at
      ∙ ap (handle_connection boost settings (with_line after_user pass_line)) h.connects
      ∙ connected_step boost settings (with_line after_user pass_line) world1 m h.none_yet
      ∙ ap (λ r. r >>= λ s'. ok (s', world1))
          (info-Represents laws world1.disk st.emails false false m drop
            (ready laws settings world1 st.emails m logged_on logged_on-IsLoggedOn).represents
            (record (with_line after_user pass_line) { mailbox = some m; state = transaction })
            refl)

  pub logon_rounds :
      (lines : List Bytes)
      → converse boost settings (user_line ∷ pass_line ∷ lines) s world
        ≡ joined
            (user_reply name)
            (joined (status name drop) (converse boost settings lines logged_on world1))
  logon_rounds lines =
      converse-goes_on boost settings world user_line (pass_line ∷ lines) s _ world
        (user_round laws settings world user_line name s h.user_parsed h.at h.known h.plain) h.stays
      ∙ ap (joined (user_reply name)) (
          converse-goes_on boost settings world pass_line lines after_user _ world1 pass_answer
            h.stays)
