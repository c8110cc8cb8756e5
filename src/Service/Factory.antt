-- ===== src/Service/Factory.antt =====
-- `FileSystemStorageFactory::create`: a storage over the regular files of a folder.
pub mod Opened
use simple_pop3serv.Base.{
  ℕ, zero, suc, ◌+◌, ◌≤◌, ◌<◌, ◌≡◌, refl, sym, ap, ◌∙◌, inl, inr, Bool, true, false, not, ◌||◌,
  ◌&&◌, Option, none, some, List, [], ◌∷◌, ◌++◌, ◌==◌, if◌then◌else◌, arith, length, Bytes, bytes,
  bytes_eq, Bool-cases, size_mod, All,
}
use simple_pop3serv.Mail.Disk.{Disk, File, FilePath, find_file}
use simple_pop3serv.Mail.Storage.{Storage, new_storage}
use simple_pop3serv.Account.CompactString.{make, compact_eq}
use simple_pop3serv.Account.ConsumerInfo.{
  MailStorageInfo, StorageOption, OptionValue, no_value, numeric, textual, get_maximum_option_name,
}

-- `Option::name_type("path")`
unfoldable pub path_name : Option Bytes
unfolding make get_maximum_option_name
path_name = make get_maximum_option_name (bytes "path")

abbrev pub names_path : Option Bytes → Bytes → Bool
names_path none name = false
names_path (some p) name = compact_eq name p

-- The loop over the options; `none` is the `std::bad_variant_access` of a "path" that is no text.
unfoldable pub read_path : FilePath → List StorageOption → Option FilePath
unfolding path_name
read_path path [] = some path
read_path path (o ∷ os) =
    if names_path path_name o.name
    then elim o.value [ textual p ↦ read_path p os | _ ↦ none ]
    else read_path path os

-- `operator/` of `std::filesystem::path` on POSIX paths.
abbrev is_rooted : Bytes → Bool
is_rooted [] = false
is_rooted (c ∷ cs) = c == 47

abbrev ends_in_separator : Bytes → Bool
ends_in_separator [] = false
ends_in_separator (c ∷ []) = c == 47
ends_in_separator (c ∷ d ∷ cs) = ends_in_separator (d ∷ cs)

abbrev pub is_empty_path : FilePath → Bool
is_empty_path [] = true
is_empty_path (c ∷ cs) = false

unfoldable pub join_path : FilePath → Bytes → FilePath
join_path p q =
    if is_rooted q || is_empty_path p
    then q
    else if ends_in_separator p
    then p ++ q
    else p ++ 47 ∷ q

unfoldable pub has_folder : List FilePath → FilePath → Bool
has_folder [] p = false
has_folder (f ∷ fs) p = bytes_eq f p || has_folder fs p

abbrev pub is_there : Option File → Bool
is_there none = false
is_there (some f) = true

-- std::filesystem::exists
unfoldable pub exists : Disk → FilePath → Bool
unfolding has_folder
exists d p = has_folder d.folders p || is_there (find_file d.files p)

-- std::copy_if over a directory_iterator, with `is_regular_file`.
unfoldable pub regular_files : List File → FilePath → List FilePath
regular_files [] p = []
regular_files (f ∷ fs) p =
    let rest = regular_files fs p in
    if bytes_eq f.folder p && f.regular then f.path ∷ rest else rest

-- The iterator throws on what is no folder.
unfoldable pub list_folder : Disk → FilePath → Option Storage
unfolding has_folder regular_files
list_folder d p =
    if has_folder d.folders p then some (new_storage (regular_files d.files p)) else none

-- From the path on; `none` is an exception.
unfoldable pub open_folder : Disk → FilePath → Disk × Option Storage
unfolding exists list_folder
open_folder d p =
    if exists d p
    then (d, list_folder d p)
    else if d.can_create p
    then (let d' = record d { folders = p ∷ d.folders } in (d', list_folder d' p))
    else (d, none)

unfoldable pub choose_path : FilePath → Bytes → FilePath → FilePath
unfolding join_path
choose_path default_path name path =
    if is_empty_path path then join_path default_path name else path

unfoldable pub create_at : FilePath → Bytes → Disk → Option FilePath → Disk × Option Storage
unfolding open_folder choose_path
create_at default_path name d none = (d, none)
create_at default_path name d (some path) = open_folder d (choose_path default_path name path)

unfoldable pub create : FilePath → Disk → MailStorageInfo → Bytes → Disk × Option Storage
unfolding read_path create_at
create default_path d info name = create_at default_path name d (read_path [] info.options)
