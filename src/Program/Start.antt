-- ===== src/Program/Start.antt =====
-- The start of the program: which accounts the sessions find, and how `main` goes on.
use simple_pop3serv.Base.{
  ℕ, ◌<◌, ◌≡◌, refl, ap, ◌∙◌, Bool, true, Option, none, some, List, [], if◌then◌else◌, Bytes, bytes,
  length, Outcome, ok, fault, ◌>>=◌, null_text,
}
use simple_pop3serv.Protocol.Parser.Words.{words}
use simple_pop3serv.Mail.Disk.{Disk, FilePath}
use simple_pop3serv.Account.ConsumerInfo.{ConsumerInfo}
use simple_pop3serv.Account.ConsumerStorage.{refresh, first_named, refresh-first_named}
use simple_pop3serv.Account.Authorization.{
  logon, single_manager, logon_answer, logon-single_manager,
}
use simple_pop3serv.Account.Json.{RapidJson}
use simple_pop3serv.Account.Json.Files.{read_files, refresh_from_files}
use simple_pop3serv.Service.Connect.{World, Settings}
use simple_pop3serv.Service.Factory.{join_path, has_folder, exists}
use simple_pop3serv.Server.Console.{thread_count, any_quit}
use simple_pop3serv.Server.Run.{
  Progress, acceptor_failed, reads_commands, cancels_server, run, served, run-cases,
}
use simple_pop3serv.Program.{account_files, create_default_impl, consumer_storage, set_up, main}

-- The folder of the accounts in the home folder.
abbrev pub clients_folder : Bytes → FilePath
clients_folder home = join_path home (bytes "mailclients")

module _ (R : RapidJson) (text_of_file : Bytes → R.Text) (hash : Bytes → ℕ) where
  set_up-accounts :
      (home : Bytes) (disk : Disk) (infos : List (Option ConsumerInfo))
      → has_folder disk.folders (clients_folder home) ≡ true
      → read_files R (account_files R text_of_file hash disk (clients_folder home)) ≡ ok infos
      → set_up R text_of_file hash (some home) disk
        ≡ ok (
          record { active = []; disk = disk },
          record { manager = single_manager hash (refresh [] infos); default_path = [] },
        )
  unfolding set_up create_default_impl consumer_storage exists refresh_from_files
  set_up-accounts home disk infos there read = rw (there, there, read) refl

  module _ {Address : Type 0} (make_address : Bytes → Option Address)
      (accepts : Option Address → Bool) (to_lower : Bytes → Bytes) (rounds : ℕ) where
    abbrev starts : Option Bytes → Disk → ℕ → Bytes → Outcome ((World × Settings) × Progress)
    starts = main R text_of_file hash make_address accepts to_lower rounds

    -- Without HOME in the environment `main` ends by a path made of a null pointer. With it, if the
    -- folder "mailclients" is there, the files in it are read without a fault, Boost makes an
    -- address of "127.0.0.1", the empty text stays empty in lower case, and there are more rounds
    -- than the standard input has characters: `main` opens the sessions to no locked names and to
    -- the disk as it is, and to a manager that answers a logon by the first file with the hash of
    -- the name; and it ends at once if the acceptor cannot be made, and else cancels the server if
    -- a word of the input is "quit" in lower case, and reads on if there is none.
    pub main-logon :
        (home : Bytes) (disk : Disk) (cores : ℕ) (input : Bytes)
        (infos : List (Option ConsumerInfo)) (a : Address) (name password : Bytes)
        → has_folder disk.folders (clients_folder home) ≡ true
        → read_files R (account_files R text_of_file hash disk (clients_folder home)) ≡ ok infos
        → make_address (bytes "127.0.0.1") ≡ some a
        → to_lower [] ≡ []
        → length input < rounds
        → (starts none disk cores input ≡ fault null_text)
          × (settings : Settings) × (starts (some home) disk cores input
              ≡ ok (
                (record { active = []; disk = disk }, settings),
                if accepts (some a)
                    then (if any_quit to_lower (words input)
                        then cancels_server (thread_count 0 cores)
                        else reads_commands (thread_count 0 cores))
                    else acceptor_failed,
              ))
          × (logon settings.manager name password
              ≡ logon_answer (first_named infos (hash name)) (hash password))
    unfolding main set_up create_default_impl
    main-logon home disk cores input infos a name password there read made keeps enough =
        let cases =
          run-cases make_address accepts to_lower rounds [] 49 (bytes "27.0.0.1") 0 cores input
            keeps enough in
        let settings : Settings = record {
          manager = single_manager hash (refresh [] infos);
          default_path = [];
        } in
        let shared = set_up-accounts home disk infos there read in
        (
          refl,
          settings,
          ap
                (λ r. r >>= λ shared.
                  run make_address accepts to_lower rounds (bytes "127.0.0.1") 0 cores input
                  >>= λ progress. ok (shared, progress))
                shared
              ∙ ap
                  (λ r. r >>= λ progress.
                    ok ((record { active = []; disk = disk }, settings), progress))
                  (cases.0
                    ∙ ap
                        (λ found.
                          served make_address accepts to_lower rounds found (thread_count 0 cores)
                            input)
                        made),
          logon-single_manager hash (refresh [] infos) name password
              ∙ ap (λ r. logon_answer r (hash password))
                  (refresh-first_named [] infos (hash name)).1,
        )
