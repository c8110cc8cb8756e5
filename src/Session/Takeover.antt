-- ===== src/Session/Takeover.antt =====
-- A request to a session, from the command to the answer: the set of active mailboxes changes by
-- what the session takes over.
use simple_pop3serv.Base.{
  ok-injective, ok, subst, NoNul, Bytes, ◌<◌, ◌≡◌, refl, inl, inr, true, none, [], length, size_mod,
  Ensures, Ensures-bind, Ensures-ok, Variant, value, error, Bool-cases,
}
use simple_pop3serv.Protocol.Boost.{Boost}
use simple_pop3serv.Protocol.CommandType.{Pop3CommandType, user, pass, noop, quit}
use simple_pop3serv.Protocol.Parser.{Pop3Command, Parameter, ParsingError, parse_pop3_command}
use simple_pop3serv.Service.Connect.{World, Settings}
use simple_pop3serv.Service.Connect.Locking.{verify_credentials_and_connect-Connects}
use simple_pop3serv.Session.{Session}
use simple_pop3serv.Session.Anonymous.{get_text, anonymous_case, handle_anonymous_command}
use simple_pop3serv.Session.Authorized.{handle_authorized_user_command}
use simple_pop3serv.Session.Read.{is_authorization, handle_command, handle_parsed, read_impl}
use simple_pop3serv.Protocol.Boost.{BoostLaws}
use simple_pop3serv.Protocol.Parser.{monostate, uint, text}
use simple_pop3serv.Protocol.Parser.Plain.{PlainText, parse-PlainText}
use simple_pop3serv.Session.Keeps.{Keeps, authorized-Keeping}
use simple_pop3serv.Protocol.Parser.Accepted.{Accepts}
use simple_pop3serv.Session.Owner.{Owns, Balances, Keeps-Balances}
use simple_pop3serv.Session.Connected.{
  none_before, authorization_of, Balances-cleared, error-Balances, simple-Balances,
  handle_user-Balances, handle_connection-Balances,
}

-- The text that USER and PASS take is the parameter.
get_text-NoNul : (p : Parameter) (s : Bytes) → PlainText p → get_text p ≡ ok s → NoNul s
unfolding get_text
get_text-NoNul (text t) s h e = subst NoNul (ok-injective e) h
get_text-NoNul (uint n) s h e = cc
get_text-NoNul monostate s h e = cc

module _ (boost : Boost) (settings : Settings) where
  anonymous_case-Balances :
      (t : Pop3CommandType) (p : Parameter) (s : Session) (world : World)
      → PlainText p
      → s.mailbox ≡ none
      → Owns s
      → length world.disk.files < size_mod
      → Ensures (Balances s world) (anonymous_case boost settings t p s world)
  unfolding anonymous_case
  anonymous_case-Balances user p s world given before h small =
      Ensures-bind (Balances s world) (get_text p) _ (λ name e.
        handle_user-Balances boost settings s world name (get_text-NoNul p name given e) h)
  anonymous_case-Balances pass p s world given before h small =
      Ensures-bind (Balances s world) (get_text p) _ (λ password e.
        handle_connection-Balances boost settings s world _ before h small (
          verify_credentials_and_connect-Connects settings world s.user_name password h.plain_name))
  anonymous_case-Balances noop p s world given before h small =
      simple-Balances boost settings s world [] h
  anonymous_case-Balances quit p s world given before h small =
      let b =
        simple-Balances boost settings (record s { quit_command_received = true }) world []
          (record { owned = h.owned; plain_name = h.plain_name }) in
      record { owns = b.owns; balance = b.balance; same_files = b.same_files }
  anonymous_case-Balances _ p s world given before h small =
      error-Balances boost settings s world world _ h refl refl

  handle_command-Balances :
      (cmd : Pop3Command) (s : Session) (world : World)
      → PlainText cmd.parameter
      → Owns s
      → length world.disk.files < size_mod
      → Ensures (Balances s world) (handle_command boost settings cmd s world)
  unfolding handle_command handle_anonymous_command
  handle_command-Balances cmd s world given h small = elim (Bool-cases (is_authorization s.state)) [
    | inl at ↦ rw at (
        anonymous_case-Balances cmd.cmd_type cmd.parameter s world given
          (none_before s.state s.mailbox (authorization_of s.state at) h.owned) h small)
    | inr at ↦ rw at (
        Ensures-bind (Balances s world) (handle_authorized_user_command boost world.disk cmd s) _
          (λ s' e.
            Keeps-Balances s s' world
              (Ensures-ok (Keeps s) _ s' (authorized-Keeping boost world.disk cmd s) e) h))
  ]

  handle_parsed-Balances :
      (r : Variant Pop3Command ParsingError) (s : Session) (world : World)
      → Accepts r (λ cmd. PlainText cmd.parameter)
      → Owns s
      → length world.disk.files < size_mod
      → Ensures (Balances s world) (handle_parsed boost settings r s world)
  unfolding handle_parsed
  handle_parsed-Balances (error e) s world given h small =
      error-Balances boost settings s world world _ h refl refl
  handle_parsed-Balances (value cmd) s world given h small =
      handle_command-Balances cmd s world given h small

  given_by :
      (laws : BoostLaws boost) (line : Bytes) (r : Variant Pop3Command ParsingError)
      → NoNul line
      → parse_pop3_command boost line ≡ ok r
      → Accepts r (λ cmd. PlainText cmd.parameter)
  given_by laws line (error e) n q = tt
  given_by laws line (value cmd) n q = parse-PlainText laws line cmd n q

  -- A request without NUL, if it is answered: the session still owns its mailbox, and the
  -- set of active mailboxes has grown by the name that the session has taken over, if any.
  pub read_impl-Balances :
      (laws : BoostLaws boost) (s : Session) (world : World)
      → NoNul s.request
      → Owns s
      → length world.disk.files < size_mod
      → Ensures (Balances s world) (read_impl boost settings s world)
  unfolding read_impl
  read_impl-Balances laws s world n h small =
      Ensures-bind (Balances s world) (parse_pop3_command boost s.request) _ (λ r e.
        Balances-cleared s world (handle_parsed boost settings r (record s { response = [] }) world)
          (handle_parsed-Balances r (record s { response = [] }) world
            (given_by laws s.request r n e) (record { owned = h.owned; plain_name = h.plain_name })
            small))
