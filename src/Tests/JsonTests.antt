-- ===== src/Tests/JsonTests.antt =====
-- A consumer that is written and read with the functions of SampleJson.
use simple_pop3serv.Base.{
  [], ◌∷◌, ℕ, Bool, true, false, Option, map, ◌≡◌, refl, arith, some, List, bytes, ok, bytes_eq,
  fault, name_too_long,
}
use simple_pop3serv.Account.CompactString.{make, zeros}
use simple_pop3serv.Account.ConsumerInfo.{get_maximum_option_name}
use simple_pop3serv.Account.Json.{Json, WriterCall, json_object, json_text, member, no_member}
use simple_pop3serv.Account.Json.Serialize.{serialize}
use simple_pop3serv.Account.Json.Deserialize.{
  deserialize, deserialize_info, read_members, read_member, add_named,
}
use simple_pop3serv.Account.Json.Fields.{IsStorableInfo}
use simple_pop3serv.Account.Json.RoundTrip.{IsStorable, deserialize-serialize}
use simple_pop3serv.Account.ConsumerStorage.{ConsumerSet, get_consumer_info, first_named}
use simple_pop3serv.Account.Json.{calls, json_uint, json_uint64, json_array}
use simple_pop3serv.Account.Json.Files.{write_files, refresh_from_files, refresh-write_files}
use simple_pop3serv.Tests.SampleDisk.{sample_consumer, sample_info}
use simple_pop3serv.Tests.SampleJson.{sample_json, sample_json-laws}

sample_info-IsStorableInfo : IsStorableInfo sample_info
unfolding make get_maximum_option_name zeros bytes_eq
sample_info-IsStorableInfo = record {
  options = (
    record {
      text = bytes "path";
      made = refl;
      short = omega arith;
      plain = omega arith;
      other = refl;
      storable = omega arith;
    },
    tt,
  );
  fit = omega arith;
}

sample_consumer-IsStorable : IsStorable sample_consumer
sample_consumer-IsStorable = record {
  name = omega arith;
  password = omega arith;
  storages = (sample_info-IsStorableInfo, tt);
}

deserialize-serialize_example :
    (cs : List WriterCall) × (serialize sample_consumer ≡ ok cs)
    × (deserialize sample_json (sample_json.text_of cs) ≡ ok (some sample_consumer))
deserialize-serialize_example =
    deserialize-serialize sample_json-laws sample_consumer sample_consumer-IsStorable

-- An option whose name does not fit the array makes the reading throw.
long_name :
    deserialize_info sample_json
      (json_object (member (bytes "folder") (json_text (bytes "/m")) no_member))
    ≡ fault name_too_long
unfolding deserialize_info read_members read_member add_named make get_maximum_option_name bytes_eq
long_name = refl

abbrev is_empty : List WriterCall → Bool
is_empty [] = true
is_empty (c ∷ cs) = false

calls-nonempty : (j : Json) → is_empty (calls j) ≡ false
calls-nonempty (json_text s) = refl
calls-nonempty (json_uint n) = refl
calls-nonempty (json_uint64 n) = refl
calls-nonempty (json_object ms) = refl
calls-nonempty (json_array es) = refl

refresh-write_files_example :
    (files : List (Option (List WriterCall))) × (set : ConsumerSet) × (write_files sample_json
        is_empty
        (sample_consumer ∷ [])
      ≡ ok files)
    × (refresh_from_files sample_json [] files ≡ ok set)
    × ((n : ℕ) → get_consumer_info set n ≡ first_named (map some (sample_consumer ∷ [])) n)
refresh-write_files_example =
    refresh-write_files sample_json-laws is_empty calls-nonempty (sample_consumer ∷ []) []
      (sample_consumer-IsStorable, tt)
