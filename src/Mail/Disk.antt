-- ===== src/Mail/Disk.antt =====
-- The file system as the program uses it through `std::filesystem` and `std::ifstream`: folders,
-- and files with their contents. `readable` says whether an `std::ifstream` on the file opens.
use simple_pop3serv.Base.{
  ℕ, ◌≡◌, ◌≤◌, Bool, Option, none, some, List, [], ◌∷◌, if◌then◌else◌, arith, Bytes, bytes_eq,
  bytes_eq_iff, length, Outcome, ok, fault, removal_failed,
}

abbrev pub FilePath : Type 0
FilePath = Bytes

pub record File : Type 0 where
  pub folder : FilePath
  pub path : FilePath
  pub content : Bytes
  pub regular : Bool
  pub readable : Bool

pub record Disk : Type 0 where
  pub folders : List FilePath
  pub files : List File
  -- Whether `create_directory` makes this folder; where it does not, it throws or returns false.
  pub can_create : FilePath → Bool
  -- Whether `remove` of this path meets an error of the operating system, and throws.
  pub refuses : FilePath → Bool

unfoldable pub find_file : List File → FilePath → Option File
find_file [] p = none
find_file (f ∷ fs) p = if bytes_eq f.path p then some f else find_file fs p

abbrev pub content_size : Option File → Option ℕ
content_size none = none
content_size (some f) = some (length f.content)

-- std::filesystem::file_size; `none` is the exception for a file that is not there.
unfoldable pub file_size : Disk → FilePath → Option ℕ
unfolding find_file
file_size d p = content_size (find_file d.files p)

abbrev pub read_content : Option File → Option Bytes
read_content none = none
read_content (some f) = if f.readable then some f.content else none

-- An `std::ifstream` on the path, read to its end; `none` if it does not open.
unfoldable pub read_file : Disk → FilePath → Option Bytes
unfolding find_file
read_file d p = read_content (find_file d.files p)

unfoldable pub without_file : FilePath → List File → List File
without_file p [] = []
without_file p (f ∷ fs) =
    let rest = without_file p fs in if bytes_eq f.path p then rest else f ∷ rest

-- The disk without the file.
abbrev pub removed : Disk → FilePath → Disk
removed d p = record d { files = without_file p d.files }

-- std::filesystem::remove; a file that is not there is no error.
unfoldable pub remove : Disk → FilePath → Outcome Disk
remove d p = if d.refuses p then fault removal_failed else ok (removed d p)

-- Removing a file hides that path and no other.
pub find_file-without_file :
    (p q : FilePath) (fs : List File)
    → find_file (without_file p fs) q ≡ (if bytes_eq p q then none else find_file fs q)
unfolding find_file without_file
find_file-without_file p q [] = ground arith
find_file-without_file p q (f ∷ fs) = ground (
  arith,
  bytes_eq_iff f.path p,
  bytes_eq_iff f.path q,
  bytes_eq_iff p q,
  find_file-without_file p q fs,
)

pub without_file-le : (p : FilePath) (fs : List File) → length (without_file p fs) ≤ length fs
unfolding without_file
without_file-le p [] = omega arith
without_file-le p (f ∷ fs) = ground (arith, without_file-le p fs)
