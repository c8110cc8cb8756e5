-- ===== src/Tests/SampleJson.antt =====
-- Functions in the place of RapidJSON's: a text is the calls that wrote it, and parsing builds the
-- tree again on a stack of open objects and arrays.
use simple_pop3serv.Base.{
  ℕ, ◌≡◌, refl, sym, ap, ◌∙◌, subst, Option, none, some, List, [], ◌∷◌, ◌++◌, append_assoc,
  append-nil, Bytes,
}
use simple_pop3serv.Account.Json.{
  WriterCall, start_object, end_object, start_array, end_array, string, uint, uint64, Json,
  json_text, json_uint, json_uint64, json_object, json_array, Members, no_member, member, Elements,
  no_element, element, calls, member_calls, element_calls, JsonType, string_type, number_type,
  other_type, RapidJson, RapidJsonLaws, ShowsMembers, ShowsElements, first_member,
}

abbrev append_members : Members → Members → Members
append_members no_member ms = ms
append_members (member k j acc) ms = member k j (append_members acc ms)

abbrev append_elements : Elements → Elements → Elements
append_elements no_element es = es
append_elements (element j acc) es = element j (append_elements acc es)

append_members-nil : (ms : Members) → append_members ms no_member ≡ ms
append_members-nil no_member = refl
append_members-nil (member k j ms) = ap (member k j) (append_members-nil ms)

append_elements-nil : (es : Elements) → append_elements es no_element ≡ es
append_elements-nil no_element = refl
append_elements-nil (element j es) = ap (element j) (append_elements-nil es)

append_members-snoc :
    (acc : Members) (k : Bytes) (j : Json) (ms : Members)
    → append_members (append_members acc (member k j no_member)) ms
      ≡ append_members acc (member k j ms)
append_members-snoc no_member k j ms = refl
append_members-snoc (member k' j' acc) k j ms = ap (member k' j') (append_members-snoc acc k j ms)

append_elements-snoc :
    (acc : Elements) (j : Json) (es : Elements)
    → append_elements (append_elements acc (element j no_element)) es
      ≡ append_elements acc (element j es)
append_elements-snoc no_element j es = refl
append_elements-snoc (element j' acc) j es = ap (element j') (append_elements-snoc acc j es)

-- An object that is open, with the name that waits for its value, and an array that is open.
pub data Frame : Type 0 where
  open_object : Members → Frame
  named : Members → Bytes → Frame
  open_array : Elements → Frame

-- The open frames, and the document once it is there.
abbrev Stack : Type 0
Stack = List Frame × Option Json

abbrev put : Json → Stack → Stack
put j ([], r) = ([], some j)
put j (open_object ms ∷ st, r) = (open_object ms ∷ st, r)
put j (named ms k ∷ st, r) = (open_object (append_members ms (member k j no_member)) ∷ st, r)
put j (open_array es ∷ st, r) = (open_array (append_elements es (element j no_element)) ∷ st, r)

abbrev step : WriterCall → Stack → Stack
step (string s) (open_object ms ∷ st, r) = (named ms s ∷ st, r)
step (string s) (named ms k ∷ st, r) = put (json_text s) (named ms k ∷ st, r)
step (string s) (open_array es ∷ st, r) = put (json_text s) (open_array es ∷ st, r)
step (string s) ([], r) = put (json_text s) ([], r)
step (uint n) s = put (json_uint n) s
step (uint64 n) s = put (json_uint64 n) s
step start_object s = (open_object no_member ∷ s.0, s.1)
step start_array s = (open_array no_element ∷ s.0, s.1)
step end_object (open_object ms ∷ st, r) = put (json_object ms) (st, r)
step end_object s = s
step end_array (open_array es ∷ st, r) = put (json_array es) (st, r)
step end_array s = s

abbrev run : List WriterCall → Stack → Stack
run [] s = s
run (c ∷ cs) s = run cs (step c s)

-- A value may come.
abbrev IsReady : List Frame → Type 0
IsReady [] = Unit
IsReady (open_object ms ∷ st) = ⊥
IsReady (named ms k ∷ st) = Unit
IsReady (open_array es ∷ st) = Unit

step-string :
    (s : Bytes) (st : List Frame) (r : Option Json)
    → IsReady st
    → step (string s) (st, r) ≡ put (json_text s) (st, r)
step-string s [] r h = refl
step-string s (open_object ms ∷ st) r h = elim h [ ]
step-string s (named ms k ∷ st) r h = refl
step-string s (open_array es ∷ st) r h = refl

mutual
  run-calls :
      (j : Json) (rest : List WriterCall) (st : List Frame) (r : Option Json)
      → IsReady st
      → run (calls j ++ rest) (st, r) ≡ run rest (put j (st, r))
  run-calls (json_text s) rest st r h = ap (run rest) (step-string s st r h)
  run-calls (json_uint n) rest st r h = refl
  run-calls (json_uint64 n) rest st r h = refl
  run-calls (json_object ms) rest st r h =
      ap (λ (cs : List WriterCall). run cs (open_object no_member ∷ st, r))
        (append_assoc (member_calls ms) (end_object ∷ []) rest)
      ∙ run-members ms (end_object ∷ rest) no_member st r
  run-calls (json_array es) rest st r h =
      ap (λ (cs : List WriterCall). run cs (open_array no_element ∷ st, r))
        (append_assoc (element_calls es) (end_array ∷ []) rest)
      ∙ run-elements es (end_array ∷ rest) no_element st r

  run-members :
      (ms : Members) (rest : List WriterCall) (acc : Members) (st : List Frame) (r : Option Json)
      → run (member_calls ms ++ rest) (open_object acc ∷ st, r)
        ≡ run rest (open_object (append_members acc ms) ∷ st, r)
  run-members no_member rest acc st r =
      ap (λ (ms : Members). run rest (open_object ms ∷ st, r)) (sym (append_members-nil acc))
  run-members (member k j ms) rest acc st r =
      ap (λ (cs : List WriterCall). run cs (named acc k ∷ st, r))
        (append_assoc (calls j) (member_calls ms) rest)
      ∙ run-calls j (member_calls ms ++ rest) (named acc k ∷ st) r tt
      ∙ run-members ms rest (append_members acc (member k j no_member)) st r
      ∙ ap (λ (all : Members). run rest (open_object all ∷ st, r)) (append_members-snoc acc k j ms)

  run-elements :
      (es : Elements) (rest : List WriterCall) (acc : Elements) (st : List Frame) (r : Option Json)
      → run (element_calls es ++ rest) (open_array acc ∷ st, r)
        ≡ run rest (open_array (append_elements acc es) ∷ st, r)
  run-elements no_element rest acc st r =
      ap (λ (es : Elements). run rest (open_array es ∷ st, r)) (sym (append_elements-nil acc))
  run-elements (element j es) rest acc st r =
      ap (λ (cs : List WriterCall). run cs (open_array acc ∷ st, r))
        (append_assoc (calls j) (element_calls es) rest)
      ∙ run-calls j (element_calls es ++ rest) (open_array acc ∷ st) r tt
      ∙ run-elements es rest (append_elements acc (element j no_element)) st r
      ∙ ap (λ (all : Elements). run rest (open_array all ∷ st, r)) (append_elements-snoc acc j es)

-- The accessors of a tree.
abbrev members_list : Members → List (Bytes × Json)
members_list no_member = []
members_list (member k j ms) = (k, j) ∷ members_list ms

abbrev elements_list : Elements → List Json
elements_list no_element = []
elements_list (element j es) = j ∷ elements_list es

abbrev members_of : Json → List (Bytes × Json)
members_of (json_object ms) = members_list ms
members_of _ = []

abbrev elements_of : Json → Option (List Json)
elements_of (json_array es) = some (elements_list es)
elements_of _ = none

abbrev type_of : Json → JsonType
type_of (json_text s) = string_type
type_of (json_uint n) = number_type
type_of (json_uint64 n) = number_type
type_of _ = other_type

abbrev uint64_of : Json → Option ℕ
uint64_of (json_uint n) = some n
uint64_of (json_uint64 n) = some n
uint64_of _ = none

abbrev uint_of : Json → ℕ
uint_of (json_uint n) = n
uint_of _ = 0

abbrev string_of : Json → Bytes
string_of (json_text s) = s
string_of _ = []

abbrev pub sample_json : RapidJson
sample_json = record {
  Text = List WriterCall;
  Value = Json;
  text_of = λ cs. cs;
  parse = λ cs. (run cs ([], none)).1;
  members = members_of;
  find_member = λ v name. first_member (members_of v) name;
  elements = elements_of;
  get_type = type_of;
  get_uint64 = uint64_of;
  get_uint = uint_of;
  get_string = string_of;
}

-- A value shows the tree that it is.
abbrev Is : Json → Json → Type 0
Is j v = v ≡ j

Is-members : (ms : Members) → ShowsMembers Is ms (members_list ms)
Is-members no_member = tt
Is-members (member k j ms) = (refl, refl, Is-members ms)

Is-elements : (es : Elements) → ShowsElements Is es (elements_list es)
Is-elements no_element = tt
Is-elements (element j es) = (refl, Is-elements es)

pub sample_json-laws : RapidJsonLaws sample_json
sample_json-laws = record {
  Shows = Is;
  parse-written = λ j. (
    j,
    ap (λ (cs : List WriterCall). (run cs ([], none)).1) (sym (append-nil (calls j)))
        ∙ ap (λ (s : Stack). s.1) (run-calls j [] [] none tt),
    refl,
  );
  text = λ s v plain e. (ap type_of e, ap string_of e);
  small = λ n v bound e. (ap type_of e, ap uint_of e);
  large = λ n v bound e. ap uint64_of e;
  object = λ ms v e. (
    subst (λ (ps : List (Bytes × Json)). ShowsMembers Is ms ps) (sym (ap members_of e))
        (Is-members ms),
    λ name. refl,
  );
  array = λ es v e. (elements_list es, ap elements_of e, Is-elements es);
}
