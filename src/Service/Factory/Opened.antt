-- ===== src/Service/Factory/Opened.antt =====
-- What the factory returns: a new storage over the regular files of one folder of the disk.
use simple_pop3serv.Base.{
  ℕ, ◌≤◌, ◌<◌, ◌≡◌, refl, inl, inr, false, ◌&&◌, Option, none, some, List, [], ◌∷◌, arith, length,
  Bytes, bytes_eq, bytes_eq_refl, Bool-cases, size_mod, All,
}
use simple_pop3serv.Mail.Disk.{Disk, File, FilePath, find_file, content_size, file_size}
use simple_pop3serv.Mail.Storage.{Storage, new_storage}
use simple_pop3serv.Mail.Storage.Valid.{IsValid, new_storage-IsValid}
use simple_pop3serv.Mail.Storage.Listing.{IsPresent}
use simple_pop3serv.Account.ConsumerInfo.{MailStorageInfo}
use simple_pop3serv.Service.Factory.{
  regular_files, list_folder, exists, has_folder, open_folder, create_at, create,
}

-- The storage was opened on these files.
abbrev pub IsOpened : List File → Storage → Type 0
IsOpened files s = (p : FilePath) × (s ≡ new_storage (regular_files files p))

abbrev pub IsMade : List File → Option Storage → Type 0
IsMade files none = Unit
IsMade files (some s) = IsOpened files s

-- The disk has the same files, and what was made was opened on them.
abbrev pub Creates : List File → Disk × Option Storage → Type 0
Creates files r = (r.0.files ≡ files) × IsMade files r.1

list_folder-IsMade : (d : Disk) (p : FilePath) → IsMade d.files (list_folder d p)
unfolding list_folder
list_folder-IsMade d p = elim (Bool-cases (has_folder d.folders p)) [
  | inl e ↦ rw e (p, refl)
  | inr e ↦ rw e tt
]

open_folder-Creates : (d : Disk) (p : FilePath) → Creates d.files (open_folder d p)
unfolding open_folder
open_folder-Creates d p = elim (Bool-cases (exists d p)) [
  | inl e ↦ rw e (refl, list_folder-IsMade d p)
  | inr e ↦ rw e (elim (Bool-cases (d.can_create p)) [
    | inl can ↦ rw can (refl, list_folder-IsMade (record d { folders = p ∷ d.folders }) p)
    | inr cannot ↦ rw cannot (refl, tt)
  ])
]

create_at-Creates :
    (default_path : FilePath) (name : Bytes) (d : Disk) (path : Option FilePath)
    → Creates d.files (create_at default_path name d path)
unfolding create_at
create_at-Creates default_path name d none = (refl, tt)
create_at-Creates default_path name d (some path) = open_folder-Creates d _

-- Creating a storage leaves the files as they are, and the storage that comes out, if none of the
-- exceptions is thrown, is new and holds the regular files of one folder.
pub create-Creates :
    (default_path : FilePath) (d : Disk) (info : MailStorageInfo) (name : Bytes)
    → Creates d.files (create default_path d info name)
unfolding create
create-Creates default_path d info name = create_at-Creates default_path name d _

-- A file of the disk is found under its path.
abbrev pub Finds : List File → FilePath → Type 0
Finds files p = (n : ℕ) × (content_size (find_file files p) ≡ some n)

Finds-cons : (f : File) (files : List File) (p : FilePath) → Finds files p → Finds (f ∷ files) p
unfolding find_file
Finds-cons f files p (n, e) = elim (Bool-cases (bytes_eq f.path p)) [
  | inl same ↦ rw same (length f.content, refl)
  | inr other ↦ rw other (n, e)
]

Finds-head : (f : File) (files : List File) → Finds (f ∷ files) f.path
unfolding find_file
Finds-head f files = rw (bytes_eq_refl f.path) (length f.content, refl)

All-Finds-cons :
    (f : File) (files : List File) (ps : List FilePath)
    → All (Finds files) ps
    → All (Finds (f ∷ files)) ps
All-Finds-cons f files [] h = tt
All-Finds-cons f files (p ∷ ps) h = (Finds-cons f files p h.0, All-Finds-cons f files ps h.1)

regular_files-Finds :
    (files : List File) (p : FilePath)
    → All (Finds files) (regular_files files p) × (length (regular_files files p) ≤ length files)
unfolding regular_files
regular_files-Finds [] p = (tt, omega arith)
regular_files-Finds (f ∷ fs) p =
    let (found, short) = regular_files-Finds fs p in
    let later = All-Finds-cons f fs (regular_files fs p) found in
    elim (Bool-cases (bytes_eq f.folder p && f.regular)) [
      | inl e ↦ rw e ((Finds-head f fs, later), omega arith)
      | inr e ↦ rw e (later, omega arith)
    ]

-- A storage that was opened on the files of the disk is valid, has nothing marked and no update
-- flag, and its files are there.
pub IsOpened-IsValid :
    (d : Disk) (s : Storage)
    → length d.files < size_mod
    → IsOpened d.files s
    → IsValid s
      × (s.emails_to_be_deleted ≡ [])
      × (s.delete_all ≡ false)
      × (s.update_at_close ≡ false)
      × All (IsPresent d) s.emails
unfolding file_size
IsOpened-IsValid d s h (p, e) =
    let (found, short) = regular_files-Finds d.files p in
    rw e (new_storage-IsValid (regular_files d.files p) (omega arith), refl, refl, refl, found)
