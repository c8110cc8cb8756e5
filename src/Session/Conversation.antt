-- ===== src/Session/Conversation.antt =====
-- The loop of `POP3Session::read` and `write` without socket errors: a line is read, handled and
-- answered, until the answer to QUIT is written. And what a client is told by such a conversation.
pub mod Rounds
pub mod Refines
pub mod Removal
pub mod Whole
pub mod Logon
pub mod Entire
use simple_pop3serv.Base.{
  ◌≡◌, Bool, true, false, ◌||◌, ◌&&◌, List, [], ◌∷◌, Option, Bytes, bytes_eq, Outcome, ok, ◌>>=◌,
  Variant, value, error,
}
use simple_pop3serv.Protocol.Boost.{Boost}
use simple_pop3serv.Protocol.Parser.{
  Pop3Command, ParsingError, print_parsing_error, parse_pop3_command,
}
use simple_pop3serv.Mail.Disk.{FilePath}
use simple_pop3serv.Mail.Mailbox.Maildrop.{Maildrop, respond, all_after}
use simple_pop3serv.Service.Connect.{World, Settings}
use simple_pop3serv.Session.{Session}
use simple_pop3serv.Session.Read.{read_impl, on_written}
use simple_pop3serv.Session.Told.{request_of, told, negative}
use simple_pop3serv.Session.Told.Obeys.{is_quit}

abbrev pub Conversation : Type 0
Conversation = Outcome (List Bytes × Session × World)

-- The reply, and what follows it.
abbrev pub joined : Bytes → Conversation → Conversation
joined reply rest = rest >>= λ r. ok (reply ∷ r.0, r.1, r.2)

-- Once the reply is written, the session reads on or is given up.
abbrev pub after_write :
    (Session → World → Conversation) → Bytes → World → Session × Bool → Conversation
after_write read reply world (s, true) = joined reply (read s world)
after_write read reply world (s, false) = ok (reply ∷ [], s, world)

module _ (boost : Boost) (settings : Settings) where
  -- The replies to the lines, the session after them, and the world: the lines behind QUIT are
  -- not read.
  unfoldable pub converse : List Bytes → Session → World → Conversation
  unfolding read_impl
  converse [] s world = ok ([], s, world)
  converse (line ∷ lines) s world =
      read_impl boost settings (record s { request = line }) world >>= λ r.
      after_write (converse lines) r.0.response r.1 (on_written r.0)

  -- What the parser makes of each line.
  abbrev pub Reads : List Bytes → List (Variant Pop3Command ParsingError) → Type 0
  Reads [] [] = Unit
  Reads (line ∷ lines) (r ∷ rs) = (parse_pop3_command boost line ≡ ok r) × Reads lines rs
  Reads [] (r ∷ rs) = ⊥
  Reads (line ∷ lines) [] = ⊥

-- The maildrop after the command.
abbrev pub next : Maildrop → Pop3Command → Maildrop
next d cmd = (respond d (request_of cmd.cmd_type cmd.parameter)).0

-- Whether all mails stand deleted at once after the command.
abbrev pub next_all : Bool → Pop3Command → Bool
next_all all cmd = all_after all (request_of cmd.cmd_type cmd.parameter)

module _ (name : Bytes) (contents : List (Option Bytes)) where
  -- The replies of the maildrop, up to the one to QUIT.
  abbrev pub dialogue : Maildrop → List (Variant Pop3Command ParsingError) → List Bytes
  dialogue d [] = []
  dialogue d (error e ∷ rs) = negative (print_parsing_error e) ∷ dialogue d rs
  dialogue d (value cmd ∷ rs) =
      told name contents d cmd.cmd_type cmd.parameter
      ∷ elim (is_quit cmd.cmd_type) [ true ↦ [] | false ↦ dialogue (next d cmd) rs ]

-- The maildrop in the end.
abbrev pub final : Maildrop → List (Variant Pop3Command ParsingError) → Maildrop
final d [] = d
final d (error e ∷ rs) = final d rs
final d (value cmd ∷ rs) = elim (is_quit cmd.cmd_type) [
  | true ↦ next d cmd
  | false ↦ final (next d cmd) rs
]

-- Whether all mails stand deleted at once in the end.
abbrev pub final_all : Bool → List (Variant Pop3Command ParsingError) → Bool
final_all all [] = all
final_all all (error e ∷ rs) = final_all all rs
final_all all (value cmd ∷ rs) = elim (is_quit cmd.cmd_type) [
  | true ↦ next_all all cmd
  | false ↦ final_all (next_all all cmd) rs
]

-- Whether one of the commands is QUIT.
abbrev pub has_quit : List (Variant Pop3Command ParsingError) → Bool
has_quit [] = false
has_quit (error e ∷ rs) = has_quit rs
has_quit (value cmd ∷ rs) = is_quit cmd.cmd_type || has_quit rs

-- Whether the file is that of a marked mail of the maildrop on the files.
abbrev pub is_marked_file : List FilePath → Maildrop → FilePath → Bool
is_marked_file [] d q = false
is_marked_file (p ∷ ps) [] q = false
is_marked_file (p ∷ ps) (x ∷ d) q = (x.marked && bytes_eq p q) || is_marked_file ps d q
