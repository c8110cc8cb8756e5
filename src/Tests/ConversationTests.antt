-- ===== src/Tests/ConversationTests.antt =====
-- A session of the sample user after the logon, line by line.
use simple_pop3serv.Base.{
  ◌≡◌, refl, arith, List, [], ◌∷◌, ◌++◌, Bytes, bytes, bytes_eq, crlf, false, some, none, ok, value,
  error, Variant, ◌&&◌, if◌then◌else◌,
}
use simple_pop3serv.Base.Stream
use simple_pop3serv.Base.Stream.{read_word}
use simple_pop3serv.Base.Decimal.{decimal}
use simple_pop3serv.Protocol.CommandType.{read_type, user, pass, list, dele, quit}
use simple_pop3serv.Protocol.Parser.{
  Pop3Command, monostate, uint, text, ParsingError, unknown_command, parse_pop3_command,
  parse_words, parse_typed, copy_nonempty, print_parsing_error,
}
use simple_pop3serv.Mail.Disk.{FilePath, find_file, file_size}
use simple_pop3serv.Session.{Session, new_session, transaction, destroy_mailbox}
use simple_pop3serv.Account.Authorization.{single_manager, has_password, storages_of}
use simple_pop3serv.Account.ConsumerStorage.{get_consumer_info, has_mailbox}
use simple_pop3serv.Service.Connect.{World, connected, verify_credentials_and_connect}
use simple_pop3serv.Service.Connect
use simple_pop3serv.Service.Lock
use simple_pop3serv.Service.Factory
use simple_pop3serv.Service.Registry
use simple_pop3serv.Account.Authorization
use simple_pop3serv.Service.Registry.{is_active}
use simple_pop3serv.Mail.Storage.{contains, is_mail_marked_as_deleted}
use simple_pop3serv.Mail.Storage.Valid.{new_storage-IsValid}
use simple_pop3serv.Session.Told.Obeys.{IsTold, contents}
use simple_pop3serv.Session.Told.Commands.{authorized_case-IsTold}
use simple_pop3serv.Session.Authorized.{authorized_case}
use simple_pop3serv.Session.Conversation.{
  converse, Reads, dialogue, final, has_quit, is_marked_file,
}
use simple_pop3serv.Session.Conversation.Whole.{opened}
use simple_pop3serv.Session.Conversation.Logon.{LogsOn}
use simple_pop3serv.Session.Conversation.Entire.{entire, converse-entire, converse-leaves}
use simple_pop3serv.Mail.Mailbox.Maildrop.Calls.{Represents}
use simple_pop3serv.Tests.SampleBoost.{
  sample_boost, sample_boost-laws, sample_split, sample_cast_type, sample_cast_uint,
}
use simple_pop3serv.Tests.SampleDisk.{
  first_path, second_path, mailbox_of, sample_disk, sample_settings, sample_storage, sample_world,
  user_name,
}

abbrev emails : List FilePath
emails = first_path ∷ second_path ∷ []

abbrev lines : List Bytes
lines =
    (bytes "DELE 0" ++ crlf)
    ∷ (bytes "HELO" ++ crlf)
    ∷ (bytes "LIST" ++ crlf)
    ∷ (bytes "QUIT" ++ crlf)
    ∷ []

abbrev commands : List (Variant Pop3Command ParsingError)
commands =
    value (record { cmd_type = dele; parameter = uint 0 })
    ∷ error unknown_command
    ∷ value (record { cmd_type = list; parameter = monostate })
    ∷ value (record { cmd_type = quit; parameter = monostate })
    ∷ []

lines-Reads : Reads sample_boost sample_settings lines commands
unfolding parse_pop3_command parse_words parse_typed copy_nonempty read_type bytes_eq sample_split
    sample_cast_type sample_cast_uint Stream.is_space read_word
lines-Reads = (refl, (refl, (refl, (refl, tt))))

abbrev user_line : Bytes
user_line = bytes "USER user1" ++ crlf

abbrev pass_line : Bytes
pass_line = bytes "PASS user111" ++ crlf

-- The world with the mailbox of the user locked.
abbrev locked : World
locked = record sample_world { active = user_name ∷ [] }

user_parsed :
    parse_pop3_command sample_boost user_line
    ≡ ok (value (record { cmd_type = user; parameter = text user_name }))
unfolding parse_pop3_command parse_words parse_typed copy_nonempty read_type bytes_eq sample_split
    sample_cast_type sample_cast_uint Stream.is_space read_word
user_parsed = refl

pass_parsed :
    parse_pop3_command sample_boost pass_line
    ≡ ok (value (record { cmd_type = pass; parameter = text (bytes "user111") }))
unfolding parse_pop3_command parse_words parse_typed copy_nonempty read_type bytes_eq sample_split
    sample_cast_type sample_cast_uint Stream.is_space read_word
pass_parsed = refl

connects :
    verify_credentials_and_connect sample_settings sample_world user_name (bytes "user111")
    ≡ (locked, connected (mailbox_of (sample_storage ∷ [])))
unfolding single_manager get_consumer_info has_mailbox has_password storages_of
    verify_credentials_and_connect Lock.new_lock Registry.lock_mailbox is_active Authorization.logon
    bytes_eq Connect.open_storages Factory.create Lock.destroy_lock Lock.move_lock
connects = refl

session-LogsOn :
    LogsOn sample_boost sample_settings sample_world locked new_session user_line pass_line
      user_name
      (mailbox_of (sample_storage ∷ []))
      sample_storage
unfolding bytes_eq single_manager has_mailbox
session-LogsOn = record {
  password = bytes "user111";
  user_parsed = user_parsed;
  pass_parsed = pass_parsed;
  at = refl;
  none_yet = refl;
  stays = refl;
  known = refl;
  plain = omega arith;
  small = omega arith;
  connects = connects;
  single = refl;
}

replies :
    dialogue user_name (contents sample_disk emails) (opened sample_disk emails) commands
    ≡ (bytes "+OK user1's maildrop has 1 messages (3 octets)" ++ crlf)
      ∷ (bytes "-ERR " ++ print_parsing_error unknown_command ++ crlf)
      ∷ (bytes "+OK 1 messages (3 octets)" ++ crlf ++ bytes "1 3" ++ crlf ++ bytes "." ++ crlf)
      ∷ (bytes "+OK POP3 server signing off" ++ crlf)
      ∷ []
unfolding file_size find_file bytes_eq decimal
replies = refl

converse-entire_example :
    (s' : Session) × (converse sample_boost sample_settings
        (user_line ∷ pass_line ∷ lines)
        new_session
        sample_world
      ≡ ok (
        entire user_name (contents sample_disk emails) (opened sample_disk emails) commands,
        s',
        locked,
      ))
converse-entire_example =
    converse-entire sample_boost-laws sample_settings sample_world locked new_session user_line
      pass_line user_name (mailbox_of (sample_storage ∷ [])) sample_storage session-LogsOn lines
      commands lines-Reads

converse-leaves_example :
    (s' : Session) × (world' : World) × (converse sample_boost sample_settings
        (user_line ∷ pass_line ∷ lines)
        new_session
        sample_world
      ≡ ok (
        entire user_name (contents sample_disk emails) (opened sample_disk emails) commands,
        s',
        locked,
      ))
    × (destroy_mailbox locked s'.mailbox ≡ ok world')
    × ((q : FilePath)
        → find_file world'.disk.files q ≡ (
            if has_quit commands
              && is_marked_file emails (final (opened sample_disk emails) commands) q
            then none
            else find_file sample_disk.files q))
    × ((other : Bytes) → is_active world'.active other ≡ is_active sample_world.active other)
converse-leaves_example =
    converse-leaves sample_boost-laws sample_settings sample_world locked new_session user_line
      pass_line user_name (mailbox_of (sample_storage ∷ [])) sample_storage session-LogsOn lines
      commands lines-Reads refl (λ q. refl)

-- The first mail is deleted after the logon.
sample-Represents :
    Represents sample_disk emails false false
      (mailbox_of (sample_storage ∷ []))
      (opened sample_disk emails)
unfolding file_size find_file bytes_eq is_mail_marked_as_deleted contains
sample-Represents = record {
  storage = sample_storage;
  single = refl;
  valid = new_storage-IsValid emails (omega arith);
  there = ((5, refl), ((3, refl), tt));
  looks = refl;
  same_emails = refl;
  same_all = refl;
  same_update = refl;
}

abbrev logged_on : Session
logged_on = record new_session {
  state = transaction;
  user_name = user_name;
  mailbox = some (mailbox_of (sample_storage ∷ []));
}

authorized_case-IsTold_example :
    IsTold sample_disk emails false false logged_on
      (opened sample_disk emails)
      dele
      (uint 0)
      (authorized_case sample_boost sample_disk dele (uint 0) logged_on)
authorized_case-IsTold_example =
    authorized_case-IsTold sample_boost-laws sample_disk emails false false
      (mailbox_of (sample_storage ∷ [])) (opened sample_disk emails) sample-Represents logged_on
      refl dele (uint 0) (omega arith)
