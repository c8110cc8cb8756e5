-- ===== src/Tests/ProgramTests.antt =====
-- The start of the program, and accounts that are made for tests.
use simple_pop3serv.Base.{
  ℕ, zero, suc, ◌<◌, ◌≡◌, refl, arith, Bool, true, false, Option, none, some, List, [], ◌∷◌, Bytes,
  bytes, bytes_eq, c_str, if◌then◌else◌, ok, fault, null_text, value,
}
use simple_pop3serv.Base.Decimal.{decimal}
use simple_pop3serv.Protocol.Parser.Words.{words}
use simple_pop3serv.Mail.Disk.{Disk, read_file}
use simple_pop3serv.Account.ConsumerInfo
use simple_pop3serv.Account.Json.Deserialize
use simple_pop3serv.Account.ConsumerStorage.{ConsumerSet, get_consumer_info, first_named}
use simple_pop3serv.Account.Authorization.{logon, single_manager, logon_answer}
use simple_pop3serv.Account.Json.{WriterCall, calls}
use simple_pop3serv.Account.Json.Serialize.{consumer_tree}
use simple_pop3serv.Account.Json.Files.{read_files}
use simple_pop3serv.Service.Connect.{Settings}
use simple_pop3serv.Service.Factory.{has_folder, join_path, regular_files}
use simple_pop3serv.Server.Console.{thread_count, any_quit}
use simple_pop3serv.Server.Run.{acceptor_failed, reads_commands, cancels_server}
use simple_pop3serv.Program.{
  generated_name, generated_password, dummy_generate_consumers, account_files, main,
}
use simple_pop3serv.Program.Accounts.{generated_storage, generated-logon}
use simple_pop3serv.Program.Start.{clients_folder, main-logon}
use simple_pop3serv.Tests.SampleBoost.{sample_boost}
use simple_pop3serv.Tests.SampleDisk.{sample_hash, sample_consumer}
use simple_pop3serv.Tests.SampleJson.{sample_json}

abbrev always : ℕ → Bool
always i = true

two_distinct :
    (j : ℕ)
    → j < 2
    → sample_hash (generated_name sample_boost sample_hash j)
      ≡ sample_hash (generated_name sample_boost sample_hash 1)
    → j ≡ 1
unfolding generated_name decimal
two_distinct zero below e = absurd (omega arith)
two_distinct (suc zero) below e = refl
two_distinct (suc (suc j)) below e = absurd (omega arith)

second_account : generated_name sample_boost sample_hash 1 ≡ bytes "user2"
unfolding generated_name decimal
second_account = refl

generated-logon_example :
    (set : ConsumerSet) × (dummy_generate_consumers sample_boost sample_hash always 2 [] ≡ ok set)
    × (logon
          (single_manager sample_hash set)
          (generated_name sample_boost sample_hash 1)
          (generated_password sample_boost sample_hash 1)
        ≡ value (generated_storage sample_boost sample_hash 1 ∷ []))
unfolding get_consumer_info
generated-logon_example =
    generated-logon sample_boost sample_hash always 2 1 [] tt (omega arith) (λ j below. refl)
      two_distinct refl

abbrev home : Bytes
home = bytes "/home"

abbrev accounts_disk : Disk
accounts_disk = record {
  folders = bytes "/home/mailclients" ∷ [];
  files =
      record {
        folder = bytes "/home/mailclients";
        path = bytes "/home/mailclients/1";
        content = bytes "{}";
        regular = true;
        readable = true;
      }
      ∷ [];
  can_create = λ p. false;
  refuses = λ p. false;
}

-- Every file holds the account of the sample user.
abbrev text_of_file : Bytes → List WriterCall
text_of_file content = calls (consumer_tree sample_consumer)

accounts :
    read_files sample_json
      (account_files sample_json text_of_file sample_hash accounts_disk (clients_folder home))
    ≡ ok (some sample_consumer ∷ [])
unfolding read_files regular_files bytes_eq join_path read_file Deserialize.deserialize c_str
    ConsumerInfo.add_option
accounts = refl

folder_there : has_folder accounts_disk.folders (clients_folder home) ≡ true
unfolding has_folder bytes_eq join_path
folder_there = refl

abbrev accept_all : Option Bytes → Bool
accept_all a = true

main-logon_example :
    (main sample_json text_of_file sample_hash some accept_all
        (λ s. s)
        5
        none
        accounts_disk
        1
        (bytes "quit")
      ≡ fault null_text)
    × (settings : Settings) × (main sample_json text_of_file sample_hash some accept_all
          (λ s. s)
          5
          (some home)
          accounts_disk
          1
          (bytes "quit")
        ≡ ok (
          (record { active = []; disk = accounts_disk }, settings),
          if accept_all (some (bytes "127.0.0.1"))
              then (if any_quit (λ s. s) (words (bytes "quit"))
                  then cancels_server (thread_count 0 1)
                  else reads_commands (thread_count 0 1))
              else acceptor_failed,
        ))
    × (logon settings.manager (bytes "user1") (bytes "user111")
        ≡ logon_answer
            (first_named (some sample_consumer ∷ []) (sample_hash (bytes "user1")))
            (sample_hash (bytes "user111")))
main-logon_example =
    main-logon sample_json text_of_file sample_hash some accept_all (λ s. s) 5 home accounts_disk 1
      (bytes "quit") (some sample_consumer ∷ []) (bytes "127.0.0.1") (bytes "user1")
      (bytes "user111") folder_there accounts refl refl (omega arith)
