-- ===== src/Program.antt =====
-- main.cpp of POP3Server, and CreateDefaultImpl of ConsumerInfo.cpp with the factory that `main`
-- calls: the composition of the program, and the function that makes accounts for tests.
pub mod Accounts
pub mod Start
use simple_pop3serv.Base.{
  ℕ, zero, suc, ◌+◌, ◌%◌, Bool, Option, none, some, List, [], ◌∷◌, ◌++◌, map, if◌then◌else◌, Bytes,
  bytes, uint_mod, Outcome, ok, fault, ◌>>=◌, name_too_long, null_text, folder_missing,
}
use simple_pop3serv.Base.Decimal.{decimal}
use simple_pop3serv.Protocol.Boost.{Boost}
use simple_pop3serv.Mail.Errors.{file_system_mail_storage}
use simple_pop3serv.Mail.Disk.{Disk, FilePath, read_file}
use simple_pop3serv.Account.CompactString.{CompactString, make}
use simple_pop3serv.Account.ConsumerInfo.{
  ConsumerInfo, StorageOption, textual, get_maximum_option_name, new_consumer, add_storage,
}
use simple_pop3serv.Account.ConsumerStorage.{ConsumerSet, add_consumer_info}
use simple_pop3serv.Account.Authorization.{single_manager}
use simple_pop3serv.Account.Json.{RapidJson}
use simple_pop3serv.Account.Json.Files.{refresh_from_files}
use simple_pop3serv.Service.Connect.{World, Settings}
use simple_pop3serv.Service.Factory.{join_path, has_folder, exists, regular_files}
use simple_pop3serv.Server.Run.{Progress, run}

-- The folder of the mailboxes that are made for tests.
abbrev pub test_folder : FilePath
test_folder = bytes "D:\\mailboxes"

module _ (boost : Boost) (hash : Bytes → ℕ) where
  -- "user" and the number, which is an `unsigned int`.
  unfoldable pub generated_name : ℕ → Bytes
  generated_name i = bytes "user" ++ boost.cast_string (decimal ((i + 1) % uint_mod))

  unfoldable pub generated_password : ℕ → Bytes
  generated_password i = generated_name i ++ bytes "11"

  abbrev pub path_option : Option CompactString → FilePath → Outcome StorageOption
  path_option none path = fault name_too_long
  path_option (some name) path = ok (record { name = name; value = textual path })

  -- The body of the loop up to `addConsumerInfo`.
  unfoldable pub generated_consumer : ℕ → Outcome ConsumerInfo
  unfolding generated_name generated_password add_storage make get_maximum_option_name
  generated_consumer i = do
    option ←
        path_option (make get_maximum_option_name (bytes "path"))
          (join_path test_folder (generated_name i))
    ok (
        add_storage (new_consumer (hash (generated_name i)) (hash (generated_password i)))
          file_system_mail_storage (option ∷ []) [])

  -- The rounds that are left, from the number `i` on; `writes` says in which rounds the file of
  -- the account is written.
  unfoldable pub generate_from : (ℕ → Bool) → ℕ → ℕ → ConsumerSet → Outcome ConsumerSet
  unfolding generated_consumer
  generate_from writes zero i consumers = ok consumers
  generate_from writes (suc rounds) i consumers = generated_consumer i >>= λ info.
      generate_from writes rounds (i + 1) (add_consumer_info consumers info (writes i)).0

  unfoldable pub dummy_generate_consumers : (ℕ → Bool) → ℕ → ConsumerSet → Outcome ConsumerSet
  unfolding generate_from
  dummy_generate_consumers writes count consumers = generate_from writes count 0 consumers

-- `path /= "mailclients"` and `create_directory`.
abbrev pub made_folder : Disk → FilePath → Outcome (Disk × FilePath)
made_folder disk path =
    if exists disk path
    then ok (disk, path)
    else if disk.can_create path
    then ok (record disk { folders = path ∷ disk.folders }, path)
    else fault folder_missing

-- `CreateDefaultImpl`, on what `getenv("HOME")` gives.
unfoldable pub create_default_impl : Option Bytes → Disk → Outcome (Disk × FilePath)
create_default_impl none disk = fault null_text
create_default_impl (some home) disk = made_folder disk (join_path home (bytes "mailclients"))

-- RapidJSON, the text of it that a file holds, and `std::hash`.
module _ (R : RapidJson) (text_of_file : Bytes → R.Text) (hash : Bytes → ℕ) where
  abbrev pub opened_text : Option Bytes → Option R.Text
  opened_text none = none
  opened_text (some content) = some (text_of_file content)

  -- What an `std::ifstream` on each regular file of the folder gives.
  abbrev pub account_files : Disk → FilePath → List (Option R.Text)
  account_files disk path =
      map (λ p. opened_text (read_file disk p)) (regular_files disk.files path)

  -- The constructor of `FileSystemConsumerInfoStorage`, which calls `refresh`.
  unfoldable pub consumer_storage : Disk → FilePath → Outcome ConsumerSet
  consumer_storage disk path =
      if has_folder disk.folders path
      then refresh_from_files R [] (account_files disk path)
      else fault folder_missing

  unfoldable pub create_hashed_file_system_consumer_info_storage :
      Option Bytes → Disk → Outcome (Disk × ConsumerSet)
  unfolding create_default_impl consumer_storage
  create_hashed_file_system_consumer_info_storage home disk =
      create_default_impl home disk >>= λ made.
      consumer_storage made.0 made.1 >>= λ consumers. ok (made.0, consumers)

  -- The static objects once `SetAuthorizationManager` has been called.
  unfoldable pub set_up : Option Bytes → Disk → Outcome (World × Settings)
  unfolding create_hashed_file_system_consumer_info_storage
  set_up home disk = create_hashed_file_system_consumer_info_storage home disk >>= λ made. ok (
    record { active = []; disk = made.0 },
    record { manager = single_manager hash made.1; default_path = [] },
  )

  module _ {Address : Type 0} (make_address : Bytes → Option Address)
      (accepts : Option Address → Bool) (to_lower : Bytes → Bytes) (rounds : ℕ) where
    -- `main`, with the default arguments of `Run`: what the sessions share, and how `Run` goes on.
    unfoldable pub main : Option Bytes → Disk → ℕ → Bytes → Outcome ((World × Settings) × Progress)
    unfolding set_up
    main home disk cores input = set_up home disk >>= λ shared.
        run make_address accepts to_lower rounds (bytes "127.0.0.1") 0 cores input >>= λ progress.
        ok (shared, progress)
