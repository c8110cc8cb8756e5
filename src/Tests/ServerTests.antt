-- ===== src/Tests/ServerTests.antt =====
-- Runs of the server with the sample account.
use simple_pop3serv.Base.{
  fault, iterator_erased, ◌+◌, ◌≡◌, refl, ◌++◌, arith, bytes, crlf, ◌∷◌, [], Bytes, bytes_eq, c_str,
  false, some, ok, total, one_if,
}
use simple_pop3serv.Base.Stream
use simple_pop3serv.Base.Stream.{read_word}
use simple_pop3serv.Protocol.CommandType.{type_of_word, read_type}
use simple_pop3serv.Protocol.Parser.{parse_pop3_command, parse_words, parse_typed, copy_nonempty}
use simple_pop3serv.Mail.Mailbox.Total.{IsOk}
use simple_pop3serv.Server.Counted.{holds_name}
use simple_pop3serv.Server.Plain.{PlainReach}
use simple_pop3serv.Server.Reachable.{IsFresh}
use simple_pop3serv.Server.Safety.{holders-is_active, handle-returns, destroy_mailbox-releases}
use simple_pop3serv.Server.Particular.{cancel_particular, cancel_particular-faults}
use simple_pop3serv.Server.{
  is_listed, write_failed, System, Shared, Node, new_node, start, accept_session, handle, on_line,
  on_response, line_read, written, reading, writing, started, goes_on, accepted, handled, is_due,
}
use simple_pop3serv.Account.Authorization.{single_manager, has_password, storages_of}
use simple_pop3serv.Account.ConsumerStorage.{get_consumer_info, has_mailbox}
use simple_pop3serv.Service.Connect.{World}
use simple_pop3serv.Session.{Session, new_session, transaction}
use simple_pop3serv.Session.Anonymous.{
  handle_user, handle_anonymous_command, anonymous_case, get_text,
}
use simple_pop3serv.Base.{fault, some, ok}
use simple_pop3serv.Server.Busy.{held-pass_busy}
use simple_pop3serv.Session.{mailbox_is_busy, print_session_error}
use simple_pop3serv.Session.Reply.{set_error_response}
use simple_pop3serv.Protocol.CommandType.{pass}
use simple_pop3serv.Protocol.Parser.{text}
use simple_pop3serv.Session.Reply
use simple_pop3serv.Service.Connect.{verify_credentials_and_connect, open_storages}
use simple_pop3serv.Service.Lock.{new_lock, destroy_lock, move_lock}
use simple_pop3serv.Service.Registry.{lock_mailbox, is_active}
use simple_pop3serv.Account.Authorization.{logon}
use simple_pop3serv.Service.Factory.{create}
use simple_pop3serv.Session.{destroy_mailbox}
use simple_pop3serv.Mail.Mailbox.{get_whole_mailbox_size}
use simple_pop3serv.Mail.Storage.{get_emails_lengths, is_mail_marked_as_deleted, get_email_length}
use simple_pop3serv.Mail.Mailbox
use simple_pop3serv.Mail.Storage
use simple_pop3serv.Mail.SizeMap.{sum_values, insert_all}
use simple_pop3serv.Mail.Disk.{file_size}
use simple_pop3serv.Base.Decimal.{decimal}
use simple_pop3serv.Protocol.Status
use simple_pop3serv.Session.Read.{read_impl, on_written, handle_parsed, handle_command}
use simple_pop3serv.Tests.SampleBoost.{
  sample_boost, sample_boost-laws, sample_split, sample_cast_type, sample_cast_uint,
}
use simple_pop3serv.Tests.SampleDisk.{
  sample_settings, sample_world, user_name, mailbox_of, sample_storage,
}

abbrev accepted_system : System
accepted_system = accept_session 2 (start sample_world)

abbrev fresh_node : Node
fresh_node = new_node 0 2

abbrev user_line : Bytes
user_line = bytes "USER user1" ++ crlf

abbrev user_node : Node
user_node = record fresh_node {
  session = record new_session {
    request = user_line;
    response = bytes "+OK user user1 exists" ++ crlf;
    user_name = user_name;
  };
  io = writing false;
  last_activity_time = 5;
}

user_runs :
    handle sample_boost sample_settings (line_read user_line 5) accepted_system.shared fresh_node
    ≡ ok (accepted_system.shared, user_node)
unfolding single_manager get_consumer_info has_mailbox has_password storages_of handle on_line
    read_impl handle_parsed handle_command handle_anonymous_command anonymous_case get_text
    handle_user parse_pop3_command parse_words parse_typed copy_nonempty read_type type_of_word
    bytes_eq sample_split sample_cast_type sample_cast_uint Stream.is_space read_word accept_session
    Reply.set_simple_ok_response Status.print_status c_str
user_runs = refl

abbrev reading_node : Node
reading_node = record user_node {
  session = record user_node.session { request = [] };
  io = reading false;
}

abbrev pass_line : Bytes
pass_line = bytes "PASS user111" ++ crlf

abbrev locked_shared : Shared
locked_shared = record accepted_system.shared {
  world = record sample_world { active = user_name ∷ [] };
}

abbrev logged_node : Node
logged_node = record reading_node {
  session = record reading_node.session {
    state = transaction;
    request = pass_line;
    response = bytes "+OK user1's maildrop has 2 messages (8 octets)" ++ crlf;
    mailbox = some (mailbox_of (sample_storage ∷ []));
  };
  io = writing false;
  last_activity_time = 7;
}

user_written :
    handle sample_boost sample_settings written accepted_system.shared user_node
    ≡ ok (accepted_system.shared, reading_node)
unfolding handle on_response on_written accept_session
user_written = refl

pass_runs :
    handle sample_boost sample_settings (line_read pass_line 7) accepted_system.shared reading_node
    ≡ ok (locked_shared, logged_node)
unfolding single_manager get_consumer_info has_mailbox has_password storages_of handle on_line
    read_impl handle_parsed handle_command handle_anonymous_command anonymous_case get_text
    parse_pop3_command parse_words parse_typed copy_nonempty read_type type_of_word bytes_eq
    sample_split sample_cast_type sample_cast_uint Stream.is_space read_word accept_session
    verify_credentials_and_connect new_lock lock_mailbox is_active logon open_storages create
    destroy_mailbox Reply.put_mailbox_info_to_reponse get_whole_mailbox_size get_emails_lengths
    is_mail_marked_as_deleted get_email_length file_size destroy_lock Reply.mailbox_info move_lock
    Status.print_status decimal Mailbox.get_emails_count Storage.get_emails_count sum_values
    insert_all
pass_runs = refl

sample_world-IsFresh : IsFresh sample_world
unfolding is_active
sample_world-IsFresh = record { free = λ name. refl; small = omega arith }

-- One client has logged on, and its answer is being written.
abbrev logged_system : System
logged_system = record accepted_system { shared = locked_shared; objects = logged_node ∷ [] }

logged_system-Reach : PlainReach sample_boost sample_settings sample_world logged_system
unfolding accept_session is_due
logged_system-Reach = record {
  reach =
      goes_on
        (handled (record accepted_system { objects = reading_node ∷ [] }) (line_read pass_line 7) []
          [] reading_node logged_node locked_shared refl refl pass_runs)
        (goes_on
          (handled (record accepted_system { objects = user_node ∷ [] }) written [] [] user_node
            reading_node accepted_system.shared refl refl user_written)
          (goes_on
            (handled accepted_system (line_read user_line 5) [] [] fresh_node user_node
              accepted_system.shared refl refl user_runs)
            (goes_on (accepted (start sample_world) false 2 refl (omega arith)) started)));
  plain = (omega arith, (tt, (omega arith, (tt, tt))));
}

holders-is_active_example :
    total (holds_name user_name) logged_system.objects
    ≡ one_if (is_active logged_system.shared.world.active user_name)
holders-is_active_example =
    holders-is_active sample_boost-laws sample_settings sample_world sample_world-IsFresh
      logged_system logged_system-Reach user_name

cancel_particular-faults_example :
    cancel_particular logged_system.shared.sessions logged_system.objects 0 ≡ fault iterator_erased
unfolding is_listed accept_session
cancel_particular-faults_example =
    cancel_particular-faults sample_boost-laws sample_settings sample_world sample_world-IsFresh
      logged_system logged_system-Reach 0

handle-returns_example :
    IsOk (handle sample_boost sample_settings write_failed logged_system.shared logged_node)
handle-returns_example =
    handle-returns sample_boost-laws sample_settings sample_world sample_world-IsFresh logged_system
      [] [] logged_node write_failed logged_system-Reach refl (unfold is_due in refl) refl

destroy_mailbox-releases_example :
    (world' : World) × (destroy_mailbox logged_system.shared.world logged_node.session.mailbox
      ≡ ok world')
    × ((name : Bytes)
        → one_if (is_active world'.active name) + holds_name name logged_node
          ≡ one_if (is_active logged_system.shared.world.active name))
destroy_mailbox-releases_example =
    destroy_mailbox-releases sample_boost-laws sample_settings sample_world sample_world-IsFresh
      logged_system [] [] logged_node logged_system-Reach refl (λ q. refl)

-- A second client that names the same user.
abbrev second_session : Session
second_session = record new_session { user_name = user_name }

held-pass_busy_example :
    handle_command sample_boost sample_settings
      (record { cmd_type = pass; parameter = text (bytes "user111") })
      second_session
      logged_system.shared.world
    ≡ ok (
      set_error_response sample_boost second_session (print_session_error mailbox_is_busy),
      logged_system.shared.world,
    )
unfolding bytes_eq
held-pass_busy_example =
    held-pass_busy sample_boost-laws sample_settings sample_world logged_system [] [] logged_node
      second_session (bytes "user111") sample_world-IsFresh logged_system-Reach refl refl refl
