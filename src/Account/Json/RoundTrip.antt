-- ===== src/Account/Json/RoundTrip.antt =====
-- A consumer that is written and read again.
use simple_pop3serv.Base.{
  ◌<◌, ◌≡◌, ◌∙◌, some, List, [], ◌∷◌, Bytes, bytes, bytes_eq, size_mod, All, ok,
}
use simple_pop3serv.Account.ConsumerInfo.{
  ConsumerInfo, MailStorageInfo, StorageOption, OptionValue, no_value, numeric, textual,
}
use simple_pop3serv.Account.Json.{
  WriterCall, RapidJson, RapidJsonLaws, ShowsMembers, first_member, no_member, member, json_uint64,
  json_array, calls,
}
use simple_pop3serv.Account.Json.Serialize.{
  serialize, serialize-tree, consumer_tree, storages_tree, HasValue, AllHaveValues,
}
use simple_pop3serv.Account.Json.Deserialize.{deserialize, deserialize_value}
use simple_pop3serv.Account.Json.Fields.{
  IsStorableValue, IsStorableOption, IsStorableInfo, read_storages-tree,
}

-- A consumer with numbers of 64 bits whose descriptions can be written.
pub record IsStorable (c : ConsumerInfo) : Type 0 where
  pub name : c.name < size_mod
  pub password : c.password < size_mod
  pub storages : All IsStorableInfo c.storages

storable-HasValue : (v : OptionValue) → IsStorableValue v → HasValue v
storable-HasValue no_value h = h
storable-HasValue (numeric n) h = tt
storable-HasValue (textual s) h = tt

storable-AllHaveValues : (os : List StorageOption) → All IsStorableOption os → AllHaveValues os
storable-AllHaveValues [] h = tt
storable-AllHaveValues (o ∷ os) h =
    (storable-HasValue o.value h.0.storable, storable-AllHaveValues os h.1)

storages-AllHaveValues :
    (infos : List MailStorageInfo)
    → All IsStorableInfo infos
    → All (λ (info : MailStorageInfo). AllHaveValues info.options) infos
storages-AllHaveValues [] h = tt
storages-AllHaveValues (info ∷ infos) h =
    (storable-AllHaveValues info.options h.0.options, storages-AllHaveValues infos h.1)

module _ {R : RapidJson} (laws : RapidJsonLaws R) where
  -- The members of a written consumer, found by their names.
  record Found (c : ConsumerInfo) (v : R.Value) : Type 0 where
    name : R.Value
    password : R.Value
    storages : R.Value
    name_found : R.find_member v (bytes "name") ≡ some name
    password_found : R.find_member v (bytes "password") ≡ some password
    storages_found : R.find_member v (bytes "storages") ≡ some storages
    name_shown : laws.Shows (json_uint64 c.name) name
    password_shown : laws.Shows (json_uint64 c.password) password
    storages_shown : laws.Shows (json_array (storages_tree c.storages)) storages

  found_in :
      (c : ConsumerInfo) (v : R.Value) (ms : List (Bytes × R.Value))
      → ((name : Bytes) → R.find_member v name ≡ first_member ms name)
      → ShowsMembers laws.Shows
          (member (bytes "name") (json_uint64 c.name) (
            member
              (bytes "password")
              (json_uint64 c.password)
              (member (bytes "storages") (json_array (storages_tree c.storages)) no_member)))
          ms
      → Found c v
  unfolding bytes_eq
  found_in c v [] finds shown = elim shown [ ]
  found_in c v (a ∷ []) finds shown = elim shown.2 [ ]
  found_in c v (a ∷ b ∷ []) finds shown = elim shown.2.2 [ ]
  found_in c v (a ∷ b ∷ s ∷ []) finds shown = record {
    name = a.1;
    password = b.1;
    storages = s.1;
    name_found = finds (bytes "name") ∙ rw shown.0;
    password_found = finds (bytes "password") ∙ rw (shown.0, shown.2.0);
    storages_found = finds (bytes "storages") ∙ rw (shown.0, shown.2.0, shown.2.2.0);
    name_shown = shown.1;
    password_shown = shown.2.1;
    storages_shown = shown.2.2.1;
  }
  found_in c v (a ∷ b ∷ s ∷ m ∷ ms) finds shown = elim shown.2.2.2 [ ]

  deserialize_value-found :
      (c : ConsumerInfo) (v : R.Value)
      → IsStorable c
      → Found c v
      → deserialize_value R v ≡ ok (some c)
  unfolding deserialize_value
  deserialize_value-found c v h f =
      let (vs, elements, shown) =
        laws.array (storages_tree c.storages) f.storages f.storages_shown in
      rw (
        f.name_found,
        f.password_found,
        f.storages_found,
        laws.large c.name f.name h.name f.name_shown,
        laws.large c.password f.password h.password f.password_shown,
        elements,
        read_storages-tree laws c.storages vs h.storages shown,
      )

  pub serialize-storable :
      (c : ConsumerInfo) → IsStorable c → serialize c ≡ ok (calls (consumer_tree c))
  serialize-storable c h = serialize-tree c (storages-AllHaveValues c.storages h.storages)

  pub deserialize-storable :
      (c : ConsumerInfo)
      → IsStorable c
      → deserialize R (R.text_of (calls (consumer_tree c))) ≡ ok (some c)
  unfolding deserialize
  deserialize-storable c h =
      let (v, e, shown) = laws.parse-written (consumer_tree c) in
      let (listed, finds) = laws.object _ v shown in
      rw e (deserialize_value-found c v h (found_in c v (R.members v) finds listed))

  -- If RapidJSON parses what its writer wrote to values that show it: a consumer whose name and
  -- password are numbers of 64 bits, and whose storages have at most two options each, with names
  -- that fit their array and are not "type", and with values that are numbers of 32 bits or texts
  -- without NUL, is serialized without a fault, and deserialized from that text as it was.
  pub deserialize-serialize :
      (c : ConsumerInfo)
      → IsStorable c
      → (cs : List WriterCall) × (serialize c ≡ ok cs)
        × (deserialize R (R.text_of cs) ≡ ok (some c))
  deserialize-serialize c h =
      (calls (consumer_tree c), serialize-storable c h, deserialize-storable c h)
