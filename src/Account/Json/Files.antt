-- ===== src/Account/Json/Files.antt =====
-- The files of the accounts: `SerializeToFile`, `DeserializeFromFile`, and the refresh of the cache
-- from them. Whether a file opens, and what it holds, come as arguments.
use simple_pop3serv.Base.{
  ℕ, ◌≡◌, refl, Bool, true, false, Option, none, some, List, [], ◌∷◌, map, if◌then◌else◌, All,
  Outcome, ok, ◌>>=◌,
}
use simple_pop3serv.Account.ConsumerInfo.{ConsumerInfo}
use simple_pop3serv.Account.ConsumerStorage.{
  ConsumerSet, get_consumer_info, refresh, first_named, refresh-first_named,
}
use simple_pop3serv.Account.Json.{Json, calls, RapidJson, RapidJsonLaws}
use simple_pop3serv.Account.Json.Serialize.{serialize, consumer_tree}
use simple_pop3serv.Account.Json.Deserialize.{deserialize}
use simple_pop3serv.Account.Json.RoundTrip.{IsStorable, serialize-storable, deserialize-storable}

module _ (R : RapidJson) where
  -- `DeserializeFromFile`; `none` is a file that does not open.
  unfoldable pub deserialize_from_file : Option R.Text → Outcome (Option ConsumerInfo)
  deserialize_from_file none = ok none
  deserialize_from_file (some content) = deserialize R content

  -- The loop of `refresh` over the files, up to what it inserts.
  unfoldable pub read_files : List (Option R.Text) → Outcome (List (Option ConsumerInfo))
  unfolding deserialize_from_file
  read_files [] = ok []
  read_files (file ∷ files) =
      deserialize_from_file file >>= λ info. read_files files >>= λ infos. ok (info ∷ infos)

  unfoldable pub refresh_from_files : ConsumerSet → List (Option R.Text) → Outcome ConsumerSet
  unfolding read_files
  refresh_from_files cached files = do infos ← read_files files; ok (refresh cached infos)

  module _ (is_empty : R.Text → Bool) where
    -- `SerializeToFile` with whether the file opens: what is written to it, and `none` where it
    -- returns false.
    unfoldable pub serialize_to_file : Bool → ConsumerInfo → Outcome (Option R.Text)
    serialize_to_file false c = ok none
    serialize_to_file true c =
        serialize c >>= λ cs. ok (if is_empty (R.text_of cs) then none else some (R.text_of cs))

    -- Every consumer written to a file of its own.
    unfoldable pub write_files : List ConsumerInfo → Outcome (List (Option R.Text))
    unfolding serialize_to_file
    write_files [] = ok []
    write_files (c ∷ cs) =
        serialize_to_file true c >>= λ file. write_files cs >>= λ files. ok (file ∷ files)

module _ {R : RapidJson} (laws : RapidJsonLaws R) (is_empty : R.Text → Bool)
    (written : (j : Json) → is_empty (R.text_of (calls j)) ≡ false) where
  file_of_consumer :
      (c : ConsumerInfo)
      → IsStorable c
      → (file : R.Text) × (serialize_to_file R is_empty true c ≡ ok (some file))
        × (deserialize R file ≡ ok (some c))
  unfolding serialize_to_file
  file_of_consumer c h =
      let tree = consumer_tree c in
      (
        R.text_of (calls tree),
        rw (serialize-storable laws c h, written tree) refl,
        deserialize-storable laws c h,
      )

  files_of_consumers :
      (cs : List ConsumerInfo)
      → All IsStorable cs
      → (files : List (Option R.Text)) × (write_files R is_empty cs ≡ ok files)
        × (read_files R files ≡ ok (map some cs))
  unfolding write_files read_files deserialize_from_file
  files_of_consumers [] h = ([], refl, refl)
  files_of_consumers (c ∷ cs) h =
      let (file, e, back) = file_of_consumer c h.0 in
      let (files, es, backs) = files_of_consumers cs h.1 in
      (some file ∷ files, rw (e, es) refl, rw (back, backs) refl)

  -- If RapidJSON parses what its writer wrote to values that show it, and the text of a written
  -- value is not empty: consumers that can be stored (numbers in their range, texts and names
  -- without NUL, names that fit and are not "type", at most two options for each storage) are all
  -- written to files without a fault, and a refresh from these files makes a cache, whatever it
  -- held before, in which every name is looked up as among these consumers.
  pub refresh-write_files :
      (cs : List ConsumerInfo) (cached : ConsumerSet)
      → All IsStorable cs
      → (files : List (Option R.Text)) × (set : ConsumerSet) × (write_files R is_empty cs
          ≡ ok files)
        × (refresh_from_files R cached files ≡ ok set)
        × ((n : ℕ) → get_consumer_info set n ≡ first_named (map some cs) n)
  unfolding refresh_from_files
  refresh-write_files cs cached h =
      let (files, e, back) = files_of_consumers cs h in
      (
        files,
        refresh cached (map some cs),
        e,
        rw back refl,
        λ n. (refresh-first_named cached (map some cs) n).1,
      )
