-- ===== src/Account/ConsumerInfo.antt =====
-- ConsumerInfo.h: the options of a storage, the description of a storage, and a consumer. The
-- consumer is `BothNumericConsumerInfo`, whose name and password are hashes: the one that `main`
-- uses.
use simple_pop3serv.Base.{
  ℕ, ◌+◌, ◌≤◌, List, [], ◌∷◌, ◌++◌, ltb, ◌==◌, if◌then◌else◌, arith, Bytes, bytes, length,
  length-append,
}
use simple_pop3serv.Mail.Errors.{StorageType}
use simple_pop3serv.Account.CompactString.{CompactString}

-- The loop of `getMaximumOptionName` over the names of the options.
unfoldable pub longest_name : ℕ → List Bytes → ℕ
longest_name maximum [] = maximum
longest_name maximum (o ∷ os) =
    longest_name (if ltb maximum (length o) then length o + 1 else maximum) os

unfoldable pub get_maximum_option_name : ℕ
unfolding longest_name
get_maximum_option_name = longest_name 0 (bytes "path" ∷ [])

-- std::variant<std::monostate, unsigned int, std::string>
pub data OptionValue : Type 0 where
  no_value : OptionValue
  numeric : ℕ → OptionValue
  textual : Bytes → OptionValue

-- `Option`
pub record StorageOption : Type 0 where
  pub name : CompactString
  pub value : OptionValue

-- MAX_OPTIONS_COUNT
abbrev pub max_options_count : ℕ
max_options_count = 2

-- `count` is the length of the filled part of the array `options`.
pub record MailStorageInfo : Type 0 where
  pub storage_type : StorageType
  pub options : List StorageOption

abbrev pub new_info : StorageType → MailStorageInfo
new_info t = record { storage_type = t; options = [] }

-- `addOption`; at the maximum nothing is added.
unfoldable pub add_option : MailStorageInfo → StorageOption → MailStorageInfo
add_option info o =
    if length info.options == max_options_count
    then info
    else record info { options = info.options ++ o ∷ [] }

pub record ConsumerInfo : Type 0 where
  pub name : ℕ
  pub password : ℕ
  pub storages : List MailStorageInfo

abbrev pub new_consumer : ℕ → ℕ → ConsumerInfo
new_consumer name password = record { name = name; password = password; storages = [] }

-- The calls of `addOption` in `addStorage`, one for each entry of its two maps.
unfoldable pub add_options : MailStorageInfo → List StorageOption → MailStorageInfo
unfolding add_option
add_options info [] = info
add_options info (o ∷ os) = add_options (add_option info o) os

unfoldable pub add_storage :
    ConsumerInfo → StorageType → List StorageOption → List StorageOption → ConsumerInfo
unfolding add_options
add_storage c t string_options numeric_options = record c {
  storages =
      c.storages ++ add_options (add_options (new_info t) string_options) numeric_options ∷ [];
}

-- A description with no more options than its array holds still has no more after any number of
-- options have been added.
pub add_options-le :
    (info : MailStorageInfo) (os : List StorageOption)
    → length info.options ≤ max_options_count
    → length (add_options info os).options ≤ max_options_count
unfolding add_options add_option
add_options-le info [] h = h
add_options-le info (o ∷ os) h =
    add_options-le (add_option info o) os (ground (arith, length-append info.options (o ∷ [])))
