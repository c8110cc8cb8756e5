-- ===== src/Account/Json/Serialize.antt =====
-- `Serialize` of ConsumerInfo.h: the calls of the writer, and the tree that they write.
use simple_pop3serv.Base.{
  ℕ, ◌≡◌, refl, ap, sym, ◌∙◌, List, [], ◌∷◌, ◌++◌, append_assoc, append-nil, bytes, c_str, Outcome,
  ok, fault, ◌>>=◌, bad_variant_access, All,
}
use simple_pop3serv.Mail.Errors.{StorageType, undefined, file_system_mail_storage}
use simple_pop3serv.Account.ConsumerInfo.{
  ConsumerInfo, MailStorageInfo, StorageOption, OptionValue, no_value, numeric, textual,
}
use simple_pop3serv.Account.Json.{
  WriterCall, start_object, end_object, start_array, end_array, string, uint, uint64, Json,
  json_text, json_uint, json_uint64, json_object, json_array, Members, no_member, member, Elements,
  no_element, element, calls, member_calls, element_calls,
}

-- static_cast<unsigned int>(storageType)
abbrev pub type_number : StorageType → ℕ
type_number undefined = 0
type_number file_system_mail_storage = 1

-- The value of an option: `std::get<std::string>` of the empty alternative throws.
unfoldable pub value_calls : OptionValue → Outcome (List WriterCall)
value_calls no_value = fault bad_variant_access
value_calls (numeric n) = ok (uint n ∷ [])
value_calls (textual s) = ok (string (c_str s) ∷ [])

-- The loop over the options.
unfoldable pub options_calls : List StorageOption → Outcome (List WriterCall)
unfolding value_calls
options_calls [] = ok []
options_calls (o ∷ os) = value_calls o.value >>= λ written.
    options_calls os >>= λ rest. ok (string (c_str o.name) ∷ (written ++ rest))

unfoldable pub serialize_info : MailStorageInfo → Outcome (List WriterCall)
unfolding options_calls
serialize_info info = do
  options ← options_calls info.options
  ok (
      start_object
      ∷ string (bytes "type")
      ∷ uint (type_number info.storage_type)
      ∷ (options ++ end_object ∷ []))

-- The loop over the storages.
unfoldable pub storages_calls : List MailStorageInfo → Outcome (List WriterCall)
unfolding serialize_info
storages_calls [] = ok []
storages_calls (info ∷ infos) =
    serialize_info info >>= λ written. storages_calls infos >>= λ rest. ok (written ++ rest)

unfoldable pub serialize : ConsumerInfo → Outcome (List WriterCall)
unfolding storages_calls
serialize c = do
  storages ← storages_calls c.storages
  ok (
      start_object
      ∷ string (bytes "name")
      ∷ uint64 c.name
      ∷ string (bytes "password")
      ∷ uint64 c.password
      ∷ string (bytes "storages")
      ∷ start_array
      ∷ (storages ++ end_array ∷ end_object ∷ []))

-- The tree of each.
abbrev pub value_tree : OptionValue → Json
value_tree no_value = json_text []
value_tree (numeric n) = json_uint n
value_tree (textual s) = json_text (c_str s)

abbrev pub options_tree : List StorageOption → Members
options_tree [] = no_member
options_tree (o ∷ os) = member (c_str o.name) (value_tree o.value) (options_tree os)

abbrev pub info_tree : MailStorageInfo → Json
info_tree info =
    json_object (
      member (bytes "type") (json_uint (type_number info.storage_type)) (options_tree info.options))

abbrev pub storages_tree : List MailStorageInfo → Elements
storages_tree [] = no_element
storages_tree (info ∷ infos) = element (info_tree info) (storages_tree infos)

abbrev pub consumer_tree : ConsumerInfo → Json
consumer_tree c = json_object (
    member (bytes "name") (json_uint64 c.name) (
      member (bytes "password") (json_uint64 c.password)
        (member (bytes "storages") (json_array (storages_tree c.storages)) no_member)))

-- An option that holds a value.
abbrev pub HasValue : OptionValue → Type 0
HasValue no_value = ⊥
HasValue (numeric n) = Unit
HasValue (textual s) = Unit

abbrev pub AllHaveValues : List StorageOption → Type 0
AllHaveValues = All (λ (o : StorageOption). HasValue o.value)

value_calls-tree : (v : OptionValue) → HasValue v → value_calls v ≡ ok (calls (value_tree v))
unfolding value_calls
value_calls-tree no_value h = elim h [ ]
value_calls-tree (numeric n) h = refl
value_calls-tree (textual s) h = refl

options_calls-tree :
    (os : List StorageOption)
    → AllHaveValues os
    → options_calls os ≡ ok (member_calls (options_tree os))
unfolding options_calls
options_calls-tree [] h = refl
options_calls-tree (o ∷ os) h = rw (value_calls-tree o.value h.0, options_calls-tree os h.1)

serialize_info-tree :
    (info : MailStorageInfo)
    → AllHaveValues info.options
    → serialize_info info ≡ ok (calls (info_tree info))
unfolding serialize_info
serialize_info-tree info h = rw (options_calls-tree info.options h)

storages_calls-tree :
    (infos : List MailStorageInfo)
    → All (λ (info : MailStorageInfo). AllHaveValues info.options) infos
    → storages_calls infos ≡ ok (element_calls (storages_tree infos))
unfolding storages_calls
storages_calls-tree [] h = refl
storages_calls-tree (info ∷ infos) h =
    rw (serialize_info-tree info h.0, storages_calls-tree infos h.1)

-- A consumer whose options hold values is written as its tree.
pub serialize-tree :
    (c : ConsumerInfo)
    → All (λ (info : MailStorageInfo). AllHaveValues info.options) c.storages
    → serialize c ≡ ok (calls (consumer_tree c))
unfolding serialize
serialize-tree c h =
    let storages = element_calls (storages_tree c.storages) in
    rw (storages_calls-tree c.storages h) (
      ap
        (λ (end : List WriterCall). ok (
          start_object
          ∷ string (bytes "name")
          ∷ uint64 c.name
          ∷ string (bytes "password")
          ∷ uint64 c.password
          ∷ string (bytes "storages")
          ∷ start_array
          ∷ end))
        (sym (
          ap (λ (cs : List WriterCall). cs ++ end_object ∷ [])
            (append-nil (storages ++ end_array ∷ []))
          ∙ append_assoc storages (end_array ∷ []) (end_object ∷ []))))
