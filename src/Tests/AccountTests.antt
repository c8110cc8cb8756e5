-- ===== src/Tests/AccountTests.antt =====
-- Accounts, locks and connections with the sample user.
use simple_pop3serv.Base.{
  ◌≤◌, ◌≡◌, refl, true, not, ◌&&◌, some, [], ◌∷◌, if◌then◌else◌, arith, bytes_eq, bytes, ◌↔◌, ◌==◌,
}
use simple_pop3serv.Account.CompactString.Order.{
  convert, compare_strings, less, lexicographical_compare, unsigned_char, convert-compare_strings,
}
use simple_pop3serv.Account.CompactString.{CompactString}
use simple_pop3serv.Account.ConsumerInfo.{StorageOption, numeric}
use simple_pop3serv.Account.ConsumerStorage.Comparator.{
  find_equivalent, insert_ordered, find_equivalent-get_consumer_info,
}
use simple_pop3serv.Account.ConsumerStorage.{
  insert_consumer, get_consumer_info, has_mailbox, add_consumer_info, IsSorted,
  add_consumer_info-get,
}
use simple_pop3serv.Account.Authorization.{
  logon, logon_answer, single_manager, logon-single_manager,
}
use simple_pop3serv.Account.Authorization.{single_manager}
use simple_pop3serv.Account.ConsumerStorage.{get_consumer_info, has_mailbox}
use simple_pop3serv.Service.Registry.{is_active}
use simple_pop3serv.Service.Exclusion.{
  Locks, no_locks, make_lock, lock_made, here, next, holders, holders-Reach,
}
use simple_pop3serv.Service.Factory
use simple_pop3serv.Service.Factory.{create}
use simple_pop3serv.Service.Factory.Opened.{IsOpened}
use simple_pop3serv.Service.Connect.{verify_credentials_and_connect}
use simple_pop3serv.Service.Connect.Locking.{Connects, verify_credentials_and_connect-Connects}
use simple_pop3serv.Tests.SampleDisk.{
  sample_hash, sample_consumer, sample_settings, sample_world, sample_disk, sample_storage,
  user_name, folder,
}

convert-compare_strings_example :
    (a : CompactString) × (b : CompactString) × (convert 32 (bytes "ann") ≡ some a)
    × (convert 32 (bytes "anna") ≡ some b)
    × (compare_strings a b ≡ lexicographical_compare unsigned_char (bytes "ann") (bytes "anna"))
convert-compare_strings_example =
    convert-compare_strings 32 (bytes "ann") (bytes "anna") (omega arith) (omega arith)
      (omega arith) (omega arith)

-- The byte 233 comes before the letter a, since a char is signed.
signed_order : less (233 ∷ []) (97 ∷ []) ≡ true
unfolding lexicographical_compare
signed_order = refl

abbrev some_option : StorageOption
some_option = record { name = bytes "a"; value = numeric 1 }

add_consumer_info-get_example :
    IsSorted (add_consumer_info [] sample_consumer true).0
    × ((add_consumer_info [] sample_consumer true).1
        ≡ (true && not (has_mailbox [] sample_consumer.name)))
    × (get_consumer_info (add_consumer_info [] sample_consumer true).0 7 ≡ (
        if (true && not (has_mailbox [] sample_consumer.name)) && (sample_consumer.name == 7)
        then some sample_consumer
        else get_consumer_info [] 7))
add_consumer_info-get_example = add_consumer_info-get [] sample_consumer true 7 tt

logon-single_manager_example :
    logon (single_manager sample_hash (sample_consumer ∷ [])) user_name (bytes "user111")
    ≡ logon_answer
        (get_consumer_info (sample_consumer ∷ []) (sample_hash user_name))
        (sample_hash (bytes "user111"))
logon-single_manager_example =
    logon-single_manager sample_hash (sample_consumer ∷ []) user_name (bytes "user111")

sample_storage-IsOpened : IsOpened sample_disk.files sample_storage
unfolding Factory.regular_files bytes_eq
sample_storage-IsOpened = (folder, refl)

verify_credentials_and_connect-Connects_example :
    Connects sample_world user_name
      (verify_credentials_and_connect sample_settings sample_world user_name (bytes "user111"))
verify_credentials_and_connect-Connects_example =
    verify_credentials_and_connect-Connects sample_settings sample_world user_name (bytes "user111")
      (omega arith)

-- The second lock on the name is not acquired.
abbrev two_locks : Locks
two_locks = make_lock (make_lock no_locks user_name) user_name

holders-Reach_example :
    (holders two_locks.live user_name ≤ 1)
    × ((holders two_locks.live user_name ≡ 1) ↔ (is_active two_locks.active user_name ≡ true))
holders-Reach_example = holders-Reach two_locks user_name (
    next (next here (lock_made no_locks user_name (omega arith)))
      (lock_made (make_lock no_locks user_name) user_name (omega arith)))

find_equivalent-get_consumer_info_example :
    (find_equivalent (sample_consumer ∷ []) 7 ≡ get_consumer_info (sample_consumer ∷ []) 7)
    × (insert_ordered sample_consumer (sample_consumer ∷ [])
        ≡ insert_consumer sample_consumer (sample_consumer ∷ []))
find_equivalent-get_consumer_info_example =
    find_equivalent-get_consumer_info (sample_consumer ∷ []) sample_consumer 7 (omega arith, tt)
