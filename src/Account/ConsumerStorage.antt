-- ===== src/Account/ConsumerStorage.antt =====
-- ConsumerInfoStorage and FileSystemConsumerInfoStorage: the cached set of consumers. The JSON files
-- behind it are read and written by RapidJSON, so what a file holds and whether a write succeeds
-- come as arguments.
pub mod Comparator
use simple_pop3serv.Base.{
  or_else, is_some, ℕ, ◌+◌, ◌≤◌, ◌<◌, ◌≡◌, refl, ◌∙◌, Bool, true, false, not, ◌&&◌, Option, none,
  some, List, [], ◌∷◌, ltb, ◌==◌, if◌then◌else◌, arith,
}
use simple_pop3serv.Account.ConsumerInfo.{ConsumerInfo}

-- std::set in the order of the names.
abbrev pub ConsumerSet : Type 0
ConsumerSet = List ConsumerInfo

-- `find(name)`
unfoldable pub get_consumer_info : ConsumerSet → ℕ → Option ConsumerInfo
get_consumer_info [] name = none
get_consumer_info (c ∷ cs) name = if c.name == name then some c else get_consumer_info cs name

unfoldable pub has_mailbox : ConsumerSet → ℕ → Bool
unfolding get_consumer_info
has_mailbox cs name = is_some (get_consumer_info cs name)

-- `insert`: a consumer whose name is there changes nothing.
unfoldable pub insert_consumer : ConsumerInfo → ConsumerSet → ConsumerSet
insert_consumer x [] = x ∷ []
insert_consumer x (c ∷ cs) =
    let rest = insert_consumer x cs in
    if ltb x.name c.name then x ∷ c ∷ cs else if x.name == c.name then c ∷ cs else c ∷ rest

-- `addConsumerInfo`; `written` says whether `SerializeToFile` succeeds.
unfoldable pub add_consumer_info : ConsumerSet → ConsumerInfo → Bool → ConsumerSet × Bool
unfolding get_consumer_info insert_consumer
add_consumer_info cs info written =
    if is_some (get_consumer_info cs info.name)
    then (cs, false)
    else if written
    then (insert_consumer info cs, true)
    else (cs, false)

-- The loop of `refresh`, on what `DeserializeFromFile` gives for each file.
unfoldable pub insert_read : ConsumerSet → List (Option ConsumerInfo) → ConsumerSet
unfolding insert_consumer
insert_read cs [] = cs
insert_read cs (none ∷ files) = insert_read cs files
insert_read cs (some info ∷ files) = insert_read (insert_consumer info cs) files

unfoldable pub refresh : ConsumerSet → List (Option ConsumerInfo) → ConsumerSet
unfolding insert_read
refresh cs files = insert_read [] files

-- The names rise strictly, from `lo` on.
abbrev pub From : ℕ → ConsumerSet → Type 0
From lo [] = Unit
From lo (c ∷ cs) = (lo ≤ c.name) × From (c.name + 1) cs

abbrev pub IsSorted : ConsumerSet → Type 0
IsSorted = From 0

pub get-From : (lo n : ℕ) (cs : ConsumerSet) → From lo cs → n < lo → get_consumer_info cs n ≡ none
unfolding get_consumer_info
get-From lo n [] f h = refl
get-From lo n (c ∷ cs) f h = ground (arith, get-From (c.name + 1) n cs f.1 (omega arith))

insert-From :
    (lo : ℕ) (x : ConsumerInfo) (cs : ConsumerSet)
    → lo ≤ x.name
    → From lo cs
    → From lo (insert_consumer x cs)
unfolding insert_consumer
insert-From lo x [] h f = (h, tt)
insert-From lo x (c ∷ cs) h f = ground (arith, insert-From (c.name + 1) x cs)

get-insert :
    (lo n : ℕ) (x : ConsumerInfo) (cs : ConsumerSet)
    → From lo cs
    → get_consumer_info (insert_consumer x cs) n
      ≡ (if x.name == n then or_else (get_consumer_info cs n) (some x) else get_consumer_info cs n)
unfolding get_consumer_info insert_consumer
get-insert lo n x [] f = ground arith
get-insert lo n x (c ∷ cs) f =
    ground (arith, get-insert (c.name + 1) n x cs f.1, get-From (c.name + 1) n cs f.1)

-- The first file that was read and holds a consumer of that name.
abbrev pub first_named : List (Option ConsumerInfo) → ℕ → Option ConsumerInfo
first_named [] n = none
first_named (none ∷ files) n = first_named files n
first_named (some info ∷ files) n = if info.name == n then some info else first_named files n

insert_read-first_named :
    (files : List (Option ConsumerInfo)) (cs : ConsumerSet) (n : ℕ)
    → IsSorted cs
    → IsSorted (insert_read cs files)
      × (get_consumer_info (insert_read cs files) n
          ≡ or_else (get_consumer_info cs n) (first_named files n))
unfolding insert_read
insert_read-first_named [] cs n f = (f, ground arith)
insert_read-first_named (none ∷ files) cs n f = insert_read-first_named files cs n f
insert_read-first_named (some info ∷ files) cs n f =
    let (sorted, found) =
      insert_read-first_named files (insert_consumer info cs) n
        (insert-From 0 info cs (omega arith) f) in
    (sorted, found ∙ ground (arith, get-insert 0 n info cs f))

-- After a refresh the set is in order, and a name is looked up in the files: the first file with
-- that name counts, files that cannot be read are passed over, and what was cached is forgotten.
pub refresh-first_named :
    (cs : ConsumerSet) (files : List (Option ConsumerInfo)) (n : ℕ)
    → IsSorted (refresh cs files) × (get_consumer_info (refresh cs files) n ≡ first_named files n)
unfolding refresh get_consumer_info
refresh-first_named cs files n = insert_read-first_named files [] n tt

-- Adding a consumer keeps the order. It succeeds exactly for a new name whose file is written; then
-- the consumer is found under its name, and all other names are looked up as before.
pub add_consumer_info-get :
    (cs : ConsumerSet) (info : ConsumerInfo) (written : Bool) (n : ℕ)
    → IsSorted cs
    → IsSorted (add_consumer_info cs info written).0
      × ((add_consumer_info cs info written).1 ≡ (written && not (has_mailbox cs info.name)))
      × (get_consumer_info (add_consumer_info cs info written).0 n ≡ (
          if (written && not (has_mailbox cs info.name)) && (info.name == n)
          then some info
          else get_consumer_info cs n))
unfolding add_consumer_info has_mailbox
add_consumer_info-get cs info written n f = (
  ground (arith, insert-From 0 info cs (omega arith) f),
  ground arith,
  ground (arith, get-insert 0 n info cs f),
)
