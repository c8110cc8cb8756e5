-- ===== src/Account/ConsumerStorage/Comparator.antt =====
-- The comparisons of consumers in ConsumerInfo.h, and the set of consumers ordered by
-- `ConsumerInfoComparator`.
use simple_pop3serv.Base.{
  ℕ, ◌+◌, ◌≡◌, refl, Bool, Option, none, some, [], ◌∷◌, ltb, if◌then◌else◌, arith,
}
use simple_pop3serv.Account.ConsumerInfo.{ConsumerInfo}
use simple_pop3serv.Account.ConsumerStorage.{
  ConsumerSet, get_consumer_info, insert_consumer, IsSorted, From, get-From,
}

-- `operator<` with a consumer and with a name, and `operator>` with a name
abbrev pub less_consumer : ConsumerInfo → ConsumerInfo → Bool
less_consumer left right = ltb left.name right.name

abbrev pub less_name : ConsumerInfo → ℕ → Bool
less_name left right = ltb left.name right

abbrev pub greater_name : ConsumerInfo → ℕ → Bool
greater_name left right = ltb right left.name

-- The three operators of the comparator.
abbrev pub compare_consumers : ConsumerInfo → ConsumerInfo → Bool
compare_consumers left right = less_consumer left right

abbrev pub compare_with_name : ConsumerInfo → ℕ → Bool
compare_with_name left right = less_name left right

abbrev pub compare_name : ℕ → ConsumerInfo → Bool
compare_name left right = greater_name right left

-- `std::set::find` and `insert` by the comparator: elements that neither precede the other are
-- equivalent.
abbrev pub find_equivalent : ConsumerSet → ℕ → Option ConsumerInfo
find_equivalent [] name = none
find_equivalent (c ∷ cs) name =
    let rest = find_equivalent cs name in
    if compare_with_name c name then rest else if compare_name name c then none else some c

abbrev pub insert_ordered : ConsumerInfo → ConsumerSet → ConsumerSet
insert_ordered x [] = x ∷ []
insert_ordered x (c ∷ cs) =
    let rest = insert_ordered x cs in
    if compare_consumers c x then c ∷ rest else if compare_consumers x c then x ∷ c ∷ cs else c ∷ cs

find_equivalent-From :
    (lo : ℕ) (cs : ConsumerSet) (name : ℕ)
    → From lo cs
    → find_equivalent cs name ≡ get_consumer_info cs name
unfolding get_consumer_info
find_equivalent-From lo [] name f = refl
find_equivalent-From lo (c ∷ cs) name f =
    ground (arith, find_equivalent-From (c.name + 1) cs name f.1, get-From (c.name + 1) name cs f.1)

insert_ordered-insert_consumer :
    (x : ConsumerInfo) (cs : ConsumerSet) → insert_ordered x cs ≡ insert_consumer x cs
unfolding insert_consumer
insert_ordered-insert_consumer x [] = refl
insert_ordered-insert_consumer x (c ∷ cs) = ground (arith, insert_ordered-insert_consumer x cs)

-- In a set in order, the search by the comparator finds the consumer whose name equals the one that
-- is asked for, and the insertion by the comparator is that by the order of the names.
pub find_equivalent-get_consumer_info :
    (cs : ConsumerSet) (x : ConsumerInfo) (name : ℕ)
    → IsSorted cs
    → (find_equivalent cs name ≡ get_consumer_info cs name)
      × (insert_ordered x cs ≡ insert_consumer x cs)
find_equivalent-get_consumer_info cs x name sorted =
    (find_equivalent-From 0 cs name sorted, insert_ordered-insert_consumer x cs)
