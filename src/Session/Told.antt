-- ===== src/Session/Told.antt =====
-- What a client is told after the logon: the replies to its commands, as texts, from the maildrop
-- alone. The handlers of POP3Session are compared with it in the modules below.
pub mod Texts
pub mod Obeys
pub mod Content
pub mod Unchanged
pub mod Commands
use simple_pop3serv.Base.{
  ℕ, zero, suc, ◌+◌, ◌%◌, ◌==◌, ◌||◌, Bool, true, false, not, Option, none, some, List, [], ◌∷◌,
  ◌++◌, map, if◌then◌else◌, get_elem?, Bytes, bytes, bytes_eq, crlf, size_mod,
}
use simple_pop3serv.Base.Decimal.{decimal}
use simple_pop3serv.Protocol.CommandType.{
  Pop3CommandType, unknown, user, pass, stat, list, retr, dele, noop, rset, quit,
}
use simple_pop3serv.Protocol.Parser.{Parameter, monostate, uint, text}
use simple_pop3serv.Mail.Errors.{MailboxOperationError, email_not_found, email_already_deleted}
use simple_pop3serv.Mail.Mailbox.Maildrop.{
  Maildrop, unmarked, with_mark, Request, count, undo, remove_all, size_of_mail, remove, Reply,
  number, result, done, size_reply, remove_reply, mail_at, after_remove,
}

-- What the command asks of the maildrop.
abbrev pub request_of : Pop3CommandType → Parameter → Request
request_of list (uint n) = size_of_mail n
request_of retr (uint n) = size_of_mail n
request_of dele (uint n) = remove n
request_of dele monostate = remove_all
request_of rset monostate = undo
request_of _ _ = count

abbrev pub positive : Bytes → Bytes
positive line = bytes "+OK" ++ line ++ crlf

abbrev pub negative : Bytes → Bytes
negative line = bytes "-ERR " ++ line ++ crlf

abbrev pub no_such : Bytes
no_such = negative (bytes "no such message")

-- The sizes of the unmarked mails, added in `std::size_t`.
abbrev pub octets : ℕ → Maildrop → ℕ
octets sum [] = sum
octets sum (x ∷ d) = octets (if x.marked then sum else (sum + x.size) % size_mod) d

-- A line for each unmarked mail, with its place in the maildrop, counted from `i`, and its size.
abbrev pub scan_lines : ℕ → Maildrop → Bytes
scan_lines i [] = []
scan_lines i (x ∷ d) =
    let rest = scan_lines (i + 1) d in
    if x.marked then rest else decimal i ++ bytes " " ++ decimal x.size ++ crlf ++ rest

abbrev pub summary : Maildrop → Bytes
summary d = decimal (unmarked d) ++ bytes " messages (" ++ decimal (octets 0 d) ++ bytes " octets)"

abbrev pub scan_listing : Maildrop → Bytes
scan_listing d =
    bytes "+OK "
    ++ summary d
    ++ crlf
    ++ (if unmarked d == 0 then [] else scan_lines 0 d ++ bytes "." ++ crlf)

-- Whether the text ends with CR LF.
abbrev pub closed : Bytes → Bool
closed [] = false
closed (c ∷ cs) = bytes_eq (c ∷ cs) crlf || closed cs

abbrev pub length_line : ℕ → Reply → Bytes
length_line n (number size) = positive (bytes " " ++ decimal n ++ bytes " " ++ decimal size)
length_line n (result e) = no_such
length_line n done = no_such

-- The content of the mail, which is there where the file can be read.
abbrev pub content_text : ℕ → Option Bytes → Bytes
content_text size none = no_such
content_text size (some content) =
    positive (bytes " " ++ decimal size ++ bytes " octets")
    ++ content
    ++ (if closed content then [] else crlf)
    ++ bytes "."
    ++ crlf

-- The content, where the number is that of a file.
abbrev pub content_at : Option (Option Bytes) → Option Bytes
content_at none = none
content_at (some c) = c

abbrev pub retrieval : Reply → Option Bytes → Bytes
retrieval (number size) content = content_text size content
retrieval (result e) content = no_such
retrieval done content = no_such

-- USER after the logon.
abbrev pub user_line : Bytes → Bytes → Bytes
user_line name other =
    if bytes_eq name other
    then positive (bytes " " ++ name)
    else negative (
        bytes
          "you have already logged using other name, please quit from mailbox and then try again")

module _ (name : Bytes) where
  abbrev pub status : Maildrop → Bytes
  status d = positive (bytes " " ++ name ++ bytes "'s maildrop has " ++ summary d)

  abbrev pub removal : Maildrop → Reply → Bytes
  removal d (result email_not_found) = no_such
  removal d (result email_already_deleted) = no_such
  removal d _ = status d

  -- The reply to a command of the user `name`, whose mails have the `contents`.
  abbrev pub told : List (Option Bytes) → Maildrop → Pop3CommandType → Parameter → Bytes
  told contents d stat p = status d
  told contents d list (uint n) = length_line n (size_reply (mail_at d n))
  told contents d list p = scan_listing d
  told contents d retr (uint n) =
      retrieval (size_reply (mail_at d n)) (content_at (get_elem? contents n))
  told contents d dele (uint n) = removal (after_remove d n) (remove_reply (mail_at d n))
  told contents d rset p = status (map (with_mark false) d)
  told contents d user (text other) = user_line name other
  told contents d pass p = negative (bytes "maildrop already locked")
  told contents d quit p = positive (bytes " POP3 server signing off")
  told contents d _ p = positive []
