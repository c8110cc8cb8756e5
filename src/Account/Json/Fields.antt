-- ===== src/Account/Json/Fields.antt =====
-- What `Deserialize` reads back from the members of a written storage.
use simple_pop3serv.Base.{
  ◌+◌, ◌≤◌, ◌<◌, ◌≡◌, refl, sym, ap, ◌∙◌, subst, false, some, List, [], ◌∷◌, ◌++◌, append_assoc,
  append-nil, arith, length, length-append, Bytes, bytes, bytes_eq, c_str, c_str-NoNul, NoNul,
  uint_mod, All, ok,
}
use simple_pop3serv.Mail.Errors.{StorageType, undefined, file_system_mail_storage}
use simple_pop3serv.Account.CompactString.{CompactString, make, make-c_str}
use simple_pop3serv.Account.ConsumerInfo.{
  MailStorageInfo, StorageOption, OptionValue, no_value, numeric, textual, new_info, add_option,
  get_maximum_option_name, max_options_count,
}
use simple_pop3serv.Account.Json.{
  member, json_uint, RapidJson, RapidJsonLaws, ShowsMembers, ShowsElements,
}
use simple_pop3serv.Account.Json.Serialize.{
  value_tree, options_tree, info_tree, storages_tree, type_number,
}
use simple_pop3serv.Account.Json.Deserialize.{
  storage_type_of, add_named, typed_option, read_member, read_members, deserialize_info,
  read_storages,
}

abbrev pub IsStorableValue : OptionValue → Type 0
IsStorableValue no_value = ⊥
IsStorableValue (numeric n) = n < uint_mod
IsStorableValue (textual s) = NoNul s

-- The name was made from a text without NUL that is not "type", and the value can be written.
pub record IsStorableOption (o : StorageOption) : Type 0 where
  pub text : Bytes
  pub made : make get_maximum_option_name text ≡ some o.name
  pub short : length text < get_maximum_option_name
  pub plain : NoNul text
  pub other : bytes_eq text (bytes "type") ≡ false
  pub storable : IsStorableValue o.value

-- A description whose options fit its array and can be written.
pub record IsStorableInfo (info : MailStorageInfo) : Type 0 where
  pub options : All IsStorableOption info.options
  pub fit : length info.options ≤ max_options_count

some-injective : {a b : CompactString} → some a ≡ some b → a ≡ b
some-injective e = cc

name-c_str : (o : StorageOption) (h : IsStorableOption o) → c_str o.name ≡ h.text
name-c_str o h =
    let (a, e, l, c) = make-c_str get_maximum_option_name h.text h.plain h.short in
    ap c_str (some-injective (sym h.made ∙ e)) ∙ c

storage_type_of-type_number : (t : StorageType) → storage_type_of (type_number t) ≡ t
storage_type_of-type_number undefined = refl
storage_type_of-type_number file_system_mail_storage = refl

type_number-le : (t : StorageType) → type_number t < uint_mod
type_number-le undefined = omega arith
type_number-le file_system_mail_storage = omega arith

added :
    (info : MailStorageInfo) (o : StorageOption) (name : Bytes)
    → make get_maximum_option_name name ≡ some o.name
    → add_named info name o.value ≡ ok (add_option info o)
unfolding add_named
added info o name e = rw e

module _ {R : RapidJson} (laws : RapidJsonLaws R) where
  typed_option-tree :
      (info : MailStorageInfo) (name : Bytes) (value : OptionValue) (v : R.Value)
      → IsStorableValue value
      → laws.Shows (value_tree value) v
      → typed_option R (R.get_type v) info name v ≡ add_named info name value
  typed_option-tree info name no_value v h shown = elim h [ ]
  typed_option-tree info name (numeric n) v h shown =
      let (t, u) = laws.small n v h shown in rw (t, u)
  typed_option-tree info name (textual s) v h shown =
      let same = c_str-NoNul s h in
      let (t, u) = laws.text (c_str s) v (subst NoNul (sym same) h) shown in rw (t, u, same)

  read_member-option :
      (info : MailStorageInfo) (o : StorageOption) (m : Bytes × R.Value)
      → IsStorableOption o
      → m.0 ≡ c_str o.name
      → laws.Shows (value_tree o.value) m.1
      → read_member R info m ≡ ok (add_option info o)
  unfolding read_member
  read_member-option info o m h named shown =
      let is_text : m.0 ≡ h.text = named ∙ name-c_str o h in
      rw (is_text, h.other)
        (typed_option-tree info h.text o.value m.1 h.storable shown ∙ added info o h.text h.made)

  read_members-options :
      (info : MailStorageInfo) (os : List StorageOption) (ms : List (Bytes × R.Value))
      → All IsStorableOption os
      → length info.options + length os ≤ max_options_count
      → ShowsMembers laws.Shows (options_tree os) ms
      → read_members R info ms ≡ ok (record info { options = info.options ++ os })
  unfolding read_members
  read_members-options info [] [] h fit shown =
      ap (λ (os : List StorageOption). ok (record info { options = os }))
        (sym (append-nil info.options))
  read_members-options info [] (m ∷ ms) h fit shown = elim shown [ ]
  read_members-options info (o ∷ os) [] h fit shown = elim shown [ ]
  read_members-options info (o ∷ os) (m ∷ ms) h fit shown =
      let room : add_option info o ≡ record info { options = info.options ++ o ∷ [] } =
        unfold add_option in ground arith in
      rw (read_member-option info o m h.0 shown.0 shown.1, room)
        (read_members-options (record info { options = info.options ++ o ∷ [] }) os ms h.1
            (omega (arith, length-append info.options (o ∷ []))) shown.2
          ∙ ap (λ (os : List StorageOption). ok (record info { options = os }))
              (append_assoc info.options (o ∷ []) os))

  members-info :
      (info : MailStorageInfo) (ms : List (Bytes × R.Value))
      → IsStorableInfo info
      → ShowsMembers laws.Shows
          (member
            (bytes "type")
            (json_uint (type_number info.storage_type))
            (options_tree info.options))
          ms
      → read_members R (new_info undefined) ms ≡ ok info
  unfolding read_members read_member bytes_eq
  members-info info [] h shown = elim shown [ ]
  members-info info (m ∷ ms) h shown =
      let (t, u) =
        laws.small (type_number info.storage_type) m.1 (type_number-le info.storage_type) shown.1 in
      rw (shown.0, u, storage_type_of-type_number info.storage_type)
        (read_members-options (new_info info.storage_type) info.options ms h.options
          (omega (arith, h.fit)) shown.2)

  deserialize_info-tree :
      (info : MailStorageInfo) (v : R.Value)
      → IsStorableInfo info
      → laws.Shows (info_tree info) v
      → deserialize_info R v ≡ ok info
  unfolding deserialize_info
  deserialize_info-tree info v h shown = members-info info (R.members v) h (laws.object _ v shown).0

  pub read_storages-tree :
      (infos : List MailStorageInfo) (vs : List R.Value)
      → All IsStorableInfo infos
      → ShowsElements laws.Shows (storages_tree infos) vs
      → read_storages R vs ≡ ok infos
  unfolding read_storages
  read_storages-tree [] [] h shown = refl
  read_storages-tree [] (v ∷ vs) h shown = elim shown [ ]
  read_storages-tree (info ∷ infos) [] h shown = elim shown [ ]
  read_storages-tree (info ∷ infos) (v ∷ vs) h shown =
      rw (deserialize_info-tree info v h.0 shown.0, read_storages-tree infos vs h.1 shown.1)
