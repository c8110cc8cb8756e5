-- ===== src/Account/Json.antt =====
-- RapidJSON as ConsumerInfo.h calls it: an interface, and what its documentation says of it. A
-- `rapidjson::Value` is seen through the accessors that the program calls.
pub mod Serialize
pub mod Deserialize
pub mod Fields
pub mod RoundTrip
pub mod Files
use simple_pop3serv.Base.{
  ℕ, ◌<◌, ◌≡◌, Bool, true, false, Option, none, some, List, [], ◌∷◌, ◌++◌, if◌then◌else◌, Bytes,
  bytes_eq, NoNul, uint_mod, size_mod,
}

-- The calls of a `rapidjson::Writer`.
pub data WriterCall : Type 0 where
  start_object end_object start_array end_array : WriterCall
  string : Bytes → WriterCall
  uint uint64 : ℕ → WriterCall

-- `Value::GetType`, as far as it is told apart.
pub data JsonType : Type 0 where
  string_type number_type other_type : JsonType

-- A JSON tree.
mutual
  pub data Json : Type 0 where
    json_text : Bytes → Json
    json_uint json_uint64 : ℕ → Json
    json_object : Members → Json
    json_array : Elements → Json

  pub data Members : Type 0 where
    no_member : Members
    member : Bytes → Json → Members → Members

  pub data Elements : Type 0 where
    no_element : Elements
    element : Json → Elements → Elements

-- How a tree is written.
abbrev mutual
  pub calls : Json → List WriterCall
  calls (json_text s) = string s ∷ []
  calls (json_uint n) = uint n ∷ []
  calls (json_uint64 n) = uint64 n ∷ []
  calls (json_object ms) = start_object ∷ (member_calls ms ++ end_object ∷ [])
  calls (json_array es) = start_array ∷ (element_calls es ++ end_array ∷ [])

  pub member_calls : Members → List WriterCall
  member_calls no_member = []
  member_calls (member name j ms) = string name ∷ (calls j ++ member_calls ms)

  pub element_calls : Elements → List WriterCall
  element_calls no_element = []
  element_calls (element j es) = calls j ++ element_calls es

-- The texts of the buffer, the values, and the calls on them: `ParseInsitu` with its error, the
-- members in their order, `HasMember` with `operator[]`, `IsArray` with `GetArray`, `IsUint64` with
-- `GetUint64`.
pub record RapidJson : Type 1 where
  pub Text : Type 0
  pub Value : Type 0
  pub text_of : List WriterCall → Text
  pub parse : Text → Option Value
  pub members : Value → List (Bytes × Value)
  pub find_member : Value → Bytes → Option Value
  pub elements : Value → Option (List Value)
  pub get_type : Value → JsonType
  pub get_uint64 : Value → Option ℕ
  pub get_uint : Value → ℕ
  pub get_string : Value → Bytes

-- The first member of a name.
abbrev pub first_member {ℓ} : {A : Type ℓ} → List (Bytes × A) → Bytes → Option A
first_member [] name = none
first_member (m ∷ ms) name =
    let rest = first_member ms name in if bytes_eq m.0 name then some m.1 else rest

module _ {V : Type 0} (Shows : Json → V → Type 0) where
  abbrev pub ShowsMembers : Members → List (Bytes × V) → Type 0
  ShowsMembers no_member [] = Unit
  ShowsMembers (member name j ms) (v ∷ vs) = (v.0 ≡ name) × Shows j v.1 × ShowsMembers ms vs
  ShowsMembers no_member (v ∷ vs) = ⊥
  ShowsMembers (member name j ms) [] = ⊥

  abbrev pub ShowsElements : Elements → List V → Type 0
  ShowsElements no_element [] = Unit
  ShowsElements (element j es) (v ∷ vs) = Shows j v × ShowsElements es vs
  ShowsElements no_element (v ∷ vs) = ⊥
  ShowsElements (element j es) [] = ⊥

-- What a tree was written as is parsed to a value that shows it.
pub record RapidJsonLaws (R : RapidJson) : Type 1 where
  pub Shows : Json → R.Value → Type 0
  pub parse-written :
      (j : Json) → (v : R.Value) × (R.parse (R.text_of (calls j)) ≡ some v) × Shows j v
  pub text :
      (s : Bytes) (v : R.Value)
      → NoNul s
      → Shows (json_text s) v
      → (R.get_type v ≡ string_type) × (R.get_string v ≡ s)
  pub small :
      (n : ℕ) (v : R.Value)
      → n < uint_mod
      → Shows (json_uint n) v
      → (R.get_type v ≡ number_type) × (R.get_uint v ≡ n)
  pub large :
      (n : ℕ) (v : R.Value) → n < size_mod → Shows (json_uint64 n) v → R.get_uint64 v ≡ some n
  pub object :
      (ms : Members) (v : R.Value)
      → Shows (json_object ms) v
      → ShowsMembers Shows ms (R.members v)
        × ((name : Bytes) → R.find_member v name ≡ first_member (R.members v) name)
  pub array :
      (es : Elements) (v : R.Value)
      → Shows (json_array es) v
      → (vs : List R.Value) × (R.elements v ≡ some vs) × ShowsElements Shows es vs
