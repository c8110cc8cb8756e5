-- ===== src/Account/Json/Deserialize.antt =====
-- `Deserialize` of ConsumerInfo.h, over the values of RapidJSON.
use simple_pop3serv.Base.{
  ℕ, zero, suc, Option, none, some, List, [], ◌∷◌, if◌then◌else◌, Bytes, bytes, bytes_eq, Outcome,
  ok, fault, ◌>>=◌, name_too_long,
}
use simple_pop3serv.Mail.Errors.{StorageType, undefined, file_system_mail_storage}
use simple_pop3serv.Account.CompactString.{CompactString, make}
use simple_pop3serv.Account.ConsumerInfo.{
  ConsumerInfo, MailStorageInfo, OptionValue, numeric, textual, new_info, add_option,
  get_maximum_option_name,
}
use simple_pop3serv.Account.Json.{RapidJson, JsonType, string_type, number_type, other_type}

-- static_cast<StorageType>: a number that is no enumerator acts as `undefined` where it is tested.
abbrev pub storage_type_of : ℕ → StorageType
storage_type_of zero = undefined
storage_type_of (suc zero) = file_system_mail_storage
storage_type_of (suc (suc n)) = undefined

-- `addOption(name, value)`: the constructor of the name may throw.
abbrev add_made : MailStorageInfo → OptionValue → Option CompactString → Outcome MailStorageInfo
add_made info v none = fault name_too_long
add_made info v (some name) = ok (add_option info (record { name = name; value = v }))

unfoldable pub add_named : MailStorageInfo → Bytes → OptionValue → Outcome MailStorageInfo
unfolding make get_maximum_option_name
add_named info name v = add_made info v (make get_maximum_option_name name)

module _ (R : RapidJson) where
  -- An option from a member, by the type of the value.
  abbrev pub typed_option : JsonType → MailStorageInfo → Bytes → R.Value → Outcome MailStorageInfo
  typed_option string_type info name v = add_named info name (textual (R.get_string v))
  typed_option number_type info name v = add_named info name (numeric (R.get_uint v))
  typed_option other_type info name v = ok info

  -- The body of the loop over the members.
  unfoldable pub read_member : MailStorageInfo → Bytes × R.Value → Outcome MailStorageInfo
  unfolding add_named
  read_member info (name, v) =
      if bytes_eq name (bytes "type")
      then ok (record info { storage_type = storage_type_of (R.get_uint v) })
      else typed_option (R.get_type v) info name v

  unfoldable pub read_members : MailStorageInfo → List (Bytes × R.Value) → Outcome MailStorageInfo
  unfolding read_member
  read_members info [] = ok info
  read_members info (m ∷ ms) = read_member info m >>= λ info'. read_members info' ms

  unfoldable pub deserialize_info : R.Value → Outcome MailStorageInfo
  unfolding read_members
  deserialize_info v = read_members (new_info undefined) (R.members v)

  -- The loop over the storages.
  unfoldable pub read_storages : List R.Value → Outcome (List MailStorageInfo)
  unfolding deserialize_info
  read_storages [] = ok []
  read_storages (v ∷ vs) =
      deserialize_info v >>= λ info. read_storages vs >>= λ rest. ok (info ∷ rest)

  abbrev with_elements : ℕ → ℕ → Option (List R.Value) → Outcome (Option ConsumerInfo)
  with_elements name password none =
      ok (some (record { name = name; password = password; storages = [] }))
  with_elements name password (some vs) = read_storages vs >>= λ infos.
      ok (some (record { name = name; password = password; storages = infos }))

  -- HasMember("storages") and IsArray
  abbrev with_storages : ℕ → ℕ → Option R.Value → Outcome (Option ConsumerInfo)
  with_storages name password none =
      ok (some (record { name = name; password = password; storages = [] }))
  with_storages name password (some v) = with_elements name password (R.elements v)

  -- The numbers of the members "name" and "password", where they are `Uint64`.
  abbrev with_numbers : Option ℕ → Option ℕ → Option R.Value → Outcome (Option ConsumerInfo)
  with_numbers (some name) (some password) storages = with_storages name password storages
  with_numbers none password storages = ok none
  with_numbers (some name) none storages = ok none

  -- HasMember("name") and HasMember("password")
  abbrev with_members :
      Option R.Value → Option R.Value → Option R.Value → Outcome (Option ConsumerInfo)
  with_members (some name) (some password) storages =
      with_numbers (R.get_uint64 name) (R.get_uint64 password) storages
  with_members none password storages = ok none
  with_members (some name) none storages = ok none

  unfoldable pub deserialize_value : R.Value → Outcome (Option ConsumerInfo)
  unfolding read_storages
  deserialize_value obj =
      with_members (R.find_member obj (bytes "name")) (R.find_member obj (bytes "password"))
        (R.find_member obj (bytes "storages"))

  abbrev parsed : Option R.Value → Outcome (Option ConsumerInfo)
  parsed none = ok none
  parsed (some document) = deserialize_value document

  unfoldable pub deserialize : R.Text → Outcome (Option ConsumerInfo)
  unfolding deserialize_value
  deserialize json = parsed (R.parse json)
