-- ===== src/Mail/SizeMap.antt =====
-- `std::map<std::size_t, std::size_t>` as the list of its pairs in the order of the keys.
use simple_pop3serv.Base.{
  ℕ, ◌≤◌, ◌<◌, ◌≡◌, refl, ap, Option, none, some, sym, ◌∙◌, append-nil, append_assoc, All-append,
  List, [], ◌∷◌, ◌++◌, ltb, ◌==◌, ◌+◌, ◌%◌, if◌then◌else◌, arith, All, size_mod,
}

abbrev pub SizeMap : Type 0
SizeMap = List (ℕ × ℕ)

-- `emplace` and `insert`: a key that is there keeps its value.
unfoldable pub emplace : ℕ → ℕ → SizeMap → SizeMap
emplace k v [] = (k, v) ∷ []
emplace k v ((j, w) ∷ m) =
    let rest = emplace k v m in
    if ltb k j then (k, v) ∷ (j, w) ∷ m else if k == j then (j, w) ∷ m else (j, w) ∷ rest

-- std::copy into an inserter of the map.
unfoldable pub insert_all : SizeMap → SizeMap → SizeMap
unfolding emplace
insert_all [] m = m
insert_all ((k, v) ∷ r) m = insert_all r (emplace k v m)

-- std::accumulate over the values, in `std::size_t`.
unfoldable pub sum_values : ℕ → SizeMap → ℕ
sum_values sum [] = sum
sum_values sum ((k, v) ∷ m) = sum_values ((sum + v) % size_mod) m

abbrev pub KeysBelow : ℕ → SizeMap → Type 0
KeysBelow b = All (λ p. p.0 < b)

-- A key above all others goes to the end.
pub emplace-KeysBelow : (k v : ℕ) (m : SizeMap) → KeysBelow k m → emplace k v m ≡ m ++ (k, v) ∷ []
unfolding emplace
emplace-KeysBelow k v [] h = refl
emplace-KeysBelow k v ((j, w) ∷ m) h = ground (arith, emplace-KeysBelow k v m h.1)

pub KeysBelow-mono : {a b : ℕ} (m : SizeMap) → a ≤ b → KeysBelow a m → KeysBelow b m
KeysBelow-mono [] h k = tt
KeysBelow-mono (p ∷ m) h k = (omega arith, KeysBelow-mono m h k.1)

-- The keys rise strictly, from `lo` on.
abbrev pub Ascending : ℕ → SizeMap → Type 0
Ascending lo [] = Unit
Ascending lo ((k, v) ∷ m) = (lo ≤ k) × Ascending (k + 1) m

pub Ascending-mono : (a b : ℕ) (m : SizeMap) → a ≤ b → Ascending b m → Ascending a m
Ascending-mono a b [] h k = tt
Ascending-mono a b ((j, w) ∷ m) h k = (omega arith, k.1)

-- Rising pairs above all keys of a map go to its end, in their order.
pub insert_all-Ascending :
    (lo : ℕ) (r m : SizeMap) → KeysBelow lo m → Ascending lo r → insert_all r m ≡ m ++ r
unfolding insert_all
insert_all-Ascending lo [] m below up = sym (append-nil m)
insert_all-Ascending lo ((k, v) ∷ r) m below up =
    ap (insert_all r) (emplace-KeysBelow k v m (KeysBelow-mono m up.0 below))
    ∙ insert_all-Ascending (k + 1) r (m ++ (k, v) ∷ [])
        (All-append (λ p. p.0 < k + 1) m ((k, v) ∷ []) (KeysBelow-mono m (omega arith) below)
          (omega arith, tt))
        up.1
    ∙ append_assoc m ((k, v) ∷ []) r

-- `find` in the map.
unfoldable pub lookup_key : SizeMap → ℕ → Option ℕ
lookup_key [] n = none
lookup_key ((k, v) ∷ m) n = if k == n then some v else lookup_key m n

pub lookup_key-Ascending :
    (lo n : ℕ) (m : SizeMap) → n < lo → Ascending lo m → lookup_key m n ≡ none
unfolding lookup_key
lookup_key-Ascending lo n [] h up = refl
lookup_key-Ascending lo n ((k, v) ∷ m) h up =
    ground (arith, lookup_key-Ascending (k + 1) n m (omega arith) up.1)
