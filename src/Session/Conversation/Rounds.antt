-- ===== src/Session/Conversation/Rounds.antt =====
-- One round of a conversation.
use simple_pop3serv.Base.{
  ◌≡◌, refl, ap, subst, Option, some, Bool, true, false, List, [], ◌∷◌, Bytes, if◌then◌else◌, ok,
  value, error,
}
use simple_pop3serv.Protocol.Boost.{Boost}
use simple_pop3serv.Protocol.Parser.{
  Pop3Command, ParsingError, print_parsing_error, parse_pop3_command,
}
use simple_pop3serv.Mail.Mailbox.{Mailbox}
use simple_pop3serv.Mail.Mailbox.Follows.{Follows}
use simple_pop3serv.Session.Keeps.{FollowsOption}
use simple_pop3serv.Service.Connect.{World, Settings}
use simple_pop3serv.Session.{Session, transaction}
use simple_pop3serv.Session.Reply.{set_error_response}
use simple_pop3serv.Session.Authorized.{handle_authorized_user_command, authorized_case}
use simple_pop3serv.Session.Read.{is_authorization, read_impl, on_written, update_mailbox}
use simple_pop3serv.Session.Conversation.{after_write, converse, joined}

-- The session with the line in its buffer and no response.
abbrev pub with_line : Session → Bytes → Session
with_line s line = record s { request = line; response = [] }

on_written-quit :
    (s : Session)
    → s.quit_command_received ≡ true
    → on_written s ≡ (record s { mailbox = update_mailbox s.mailbox }, false)
unfolding on_written
on_written-quit s q =
    ap
      (λ (b : Bool).
        if b
        then (record s { mailbox = update_mailbox s.mailbox }, false)
        else (record s { request = [] }, true))
      q

on_written-goes_on :
    (s : Session)
    → s.quit_command_received ≡ false
    → on_written s ≡ (record s { request = [] }, true)
unfolding on_written
on_written-goes_on s q =
    ap
      (λ (b : Bool).
        if b
        then (record s { mailbox = update_mailbox s.mailbox }, false)
        else (record s { request = [] }, true))
      q

module _ (boost : Boost) (settings : Settings) (world : World) where
  module _ (line : Bytes) (lines : List Bytes) (s t : Session) (after : World)
      (e : read_impl boost settings (record s { request = line }) world ≡ ok (t, after)) where
    pub converse-quit :
        t.quit_command_received ≡ true
        → converse boost settings (line ∷ lines) s world
          ≡ ok (t.response ∷ [], record t { mailbox = update_mailbox t.mailbox }, after)
    unfolding converse
    converse-quit q =
        rw e
          (ap (after_write (converse boost settings lines) t.response after) (on_written-quit t q))

    pub converse-goes_on :
        t.quit_command_received ≡ false
        → converse boost settings (line ∷ lines) s world
          ≡ joined t.response (converse boost settings lines (record t { request = [] }) after)
    unfolding converse
    converse-goes_on q =
        rw e (
          ap (after_write (converse boost settings lines) t.response after)
            (on_written-goes_on t q))

  -- A line that is no command.
  pub read_impl-error :
      (line : Bytes) (s : Session) (why : ParsingError)
      → parse_pop3_command boost line ≡ ok (error why)
      → read_impl boost settings (record s { request = line }) world
        ≡ ok (set_error_response boost (with_line s line) (print_parsing_error why), world)
  unfolding read_impl
  read_impl-error line s why e = rw e refl

  -- A command after the logon.
  pub read_impl-transaction :
      (line : Bytes) (s t : Session) (cmd : Pop3Command)
      → parse_pop3_command boost line ≡ ok (value cmd)
      → s.state ≡ transaction
      → authorized_case boost world.disk cmd.cmd_type cmd.parameter (with_line s line) ≡ ok t
      → read_impl boost settings (record s { request = line }) world ≡ ok (t, world)
  unfolding read_impl handle_authorized_user_command
  read_impl-transaction line s t cmd e at q = rw (e, ap is_authorization at, q) refl

-- The mailboxes of a session before and after.
pub followed :
    (a b : Option Mailbox) (m m' : Mailbox)
    → a ≡ some m
    → b ≡ some m'
    → FollowsOption a b
    → Follows m m'
followed a b m m' e f h = subst (FollowsOption (some m)) f (subst (λ o. FollowsOption o b) e h)
