-- ===== src/Tests/TalksTests.antt =====
-- A conversation of the first session of the server with the sample account.
use simple_pop3serv.Base.{
  false, ◌≡◌, refl, arith, List, [], ◌∷◌, ◌++◌, Bytes, bytes, bytes_eq, c_str, crlf, some, ok,
}
use simple_pop3serv.Base.Stream
use simple_pop3serv.Base.Stream.{read_word}
use simple_pop3serv.Base.Decimal.{decimal}
use simple_pop3serv.Protocol.CommandType.{type_of_word, read_type}
use simple_pop3serv.Protocol.Parser.{parse_pop3_command, parse_words, parse_typed, copy_nonempty}
use simple_pop3serv.Protocol.Status
use simple_pop3serv.Mail.Disk.{file_size}
use simple_pop3serv.Mail.Mailbox
use simple_pop3serv.Mail.Mailbox.{get_whole_mailbox_size}
use simple_pop3serv.Mail.SizeMap.{sum_values, insert_all}
use simple_pop3serv.Mail.Storage
use simple_pop3serv.Mail.Storage.{get_emails_lengths, is_mail_marked_as_deleted, get_email_length}
use simple_pop3serv.Account.Authorization.{logon}
use simple_pop3serv.Account.Authorization.{single_manager, has_password, storages_of}
use simple_pop3serv.Account.ConsumerStorage.{get_consumer_info, has_mailbox}
use simple_pop3serv.Service.Connect.{World, verify_credentials_and_connect, open_storages}
use simple_pop3serv.Service.Factory.{create}
use simple_pop3serv.Service.Lock.{new_lock, destroy_lock, move_lock}
use simple_pop3serv.Service.Registry.{lock_mailbox, is_active}
use simple_pop3serv.Session.{Session, new_session, transaction, destroy_mailbox}
use simple_pop3serv.Session.Anonymous.{
  handle_user, handle_anonymous_command, anonymous_case, get_text,
}
use simple_pop3serv.Session.Read.{read_impl, on_written, handle_parsed, handle_command}
use simple_pop3serv.Session.Reply
use simple_pop3serv.Session.Conversation.{converse}
use simple_pop3serv.Server.{System, start, accept_session, new_node, started, goes_on, accepted}
use simple_pop3serv.Server.Plain.{PlainReach}
use simple_pop3serv.Server.Reachable.{IsFresh}
use simple_pop3serv.Server.Talks.{Comes, converse-Comes}
use simple_pop3serv.Tests.SampleBoost.{
  sample_boost, sample_boost-laws, sample_split, sample_cast_type, sample_cast_uint,
}
use simple_pop3serv.Tests.SampleDisk.{
  sample_settings, sample_world, user_name, mailbox_of, sample_storage,
}

abbrev accepted_system : System
accepted_system = accept_session 2 (start sample_world)

accepted_system-Reach : PlainReach sample_boost sample_settings sample_world accepted_system
accepted_system-Reach = record {
  reach = goes_on (accepted (start sample_world) false 2 refl (omega arith)) started;
  plain = (tt, tt);
}

sample_world-IsFresh : IsFresh sample_world
unfolding is_active
sample_world-IsFresh = record { free = λ name. refl; small = omega arith }

abbrev lines : List Bytes
lines = (bytes "USER user1" ++ crlf) ∷ (bytes "PASS user111" ++ crlf) ∷ []

abbrev replies : List Bytes
replies =
    (bytes "+OK user user1 exists" ++ crlf)
    ∷ (bytes "+OK user1's maildrop has 2 messages (8 octets)" ++ crlf)
    ∷ []

abbrev locked : World
locked = record sample_world { active = user_name ∷ [] }

abbrev logged_on : Session
logged_on = record new_session {
  state = transaction;
  response = bytes "+OK user1's maildrop has 2 messages (8 octets)" ++ crlf;
  user_name = user_name;
  mailbox = some (mailbox_of (sample_storage ∷ []));
}

talks :
    converse sample_boost sample_settings lines new_session sample_world
    ≡ ok (replies, logged_on, locked)
unfolding single_manager get_consumer_info has_mailbox has_password storages_of converse read_impl
    on_written handle_parsed handle_command handle_anonymous_command anonymous_case get_text
    handle_user parse_pop3_command parse_words parse_typed copy_nonempty read_type type_of_word
    bytes_eq sample_split sample_cast_type sample_cast_uint Stream.is_space read_word
    Reply.set_simple_ok_response Status.print_status c_str verify_credentials_and_connect new_lock
    lock_mailbox is_active logon open_storages create destroy_mailbox
    Reply.put_mailbox_info_to_reponse get_whole_mailbox_size get_emails_lengths
    is_mail_marked_as_deleted get_email_length file_size destroy_lock Reply.mailbox_info move_lock
    decimal Mailbox.get_emails_count Storage.get_emails_count sum_values insert_all
talks = refl

converse-Comes_example :
    Comes sample_boost-laws sample_settings sample_world sample_world-IsFresh [] [] logged_on locked
unfolding accept_session
converse-Comes_example =
    converse-Comes sample_boost-laws sample_settings sample_world sample_world-IsFresh [] [] lines
      replies logged_on locked accepted_system (new_node 0 2) (omega arith, (omega arith, tt))
      accepted_system-Reach refl refl talks
