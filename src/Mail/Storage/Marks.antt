-- ===== src/Mail/Storage/Marks.antt =====
-- The vector of numbers marked for deletion: distinct numbers in range, and what their number
-- says about the numbers that are not marked.
use simple_pop3serv.Base.{
  ℕ, zero, suc, ◌+◌, ◌≤◌, ◌<◌, ◌≡◌, ◌≢◌, refl, ap, sym, ◌∙◌, subst, inl, inr, true, false, ◌||◌,
  List, [], ◌∷◌, ◌++◌, ◌==◌, if◌then◌else◌, arith, length, All, Bool-cases, ==_iff,
}
use simple_pop3serv.Mail.Storage.{contains}

-- No number stands twice.
abbrev pub Distinct : List ℕ → Type 0
Distinct [] = Unit
Distinct (x ∷ xs) = (contains xs x ≡ false) × Distinct xs

abbrev pub Within : ℕ → ℕ → List ℕ → Type 0
Within lo hi = All (λ x. (lo ≤ x) × (x < hi))

pub contains-append :
    (xs : List ℕ) (n m : ℕ) → contains (xs ++ n ∷ []) m ≡ (contains xs m || n == m)
unfolding contains
contains-append [] n m = ground arith
contains-append (x ∷ xs) n m = ground (arith, contains-append xs n m)

pub Distinct-append :
    (xs : List ℕ) (n : ℕ) → Distinct xs → contains xs n ≡ false → Distinct (xs ++ n ∷ [])
unfolding contains
Distinct-append [] n d h = (refl, tt)
Distinct-append (x ∷ xs) n d h =
    (ground (arith, contains-append xs n x), Distinct-append xs n d.1 (ground arith))

-- Of the numbers `i`, `i + 1`, … with `n` of them, those that do not stand in the vector.
abbrev pub count_free : List ℕ → ℕ → ℕ → ℕ
count_free xs i zero = 0
count_free xs i (suc n) =
    let rest = count_free xs (i + 1) n in if contains xs i then rest else suc rest

take_out : ℕ → List ℕ → List ℕ
take_out i [] = []
take_out i (x ∷ xs) = if x == i then xs else x ∷ take_out i xs

length-take_out :
    (i : ℕ) (xs : List ℕ) → contains xs i ≡ true → suc (length (take_out i xs)) ≡ length xs
unfolding contains take_out
length-take_out i [] h = cc
length-take_out i (x ∷ xs) h = ground (arith, length-take_out i xs)

contains-take_out : (i j : ℕ) (xs : List ℕ) → i ≢ j → contains (take_out i xs) j ≡ contains xs j
unfolding contains take_out
contains-take_out i j [] h = refl
contains-take_out i j (x ∷ xs) h = ground (arith, contains-take_out i j xs)

Within-contains :
    (i hi : ℕ) (xs : List ℕ) → Within i hi xs → contains xs i ≡ false → Within (i + 1) hi xs
unfolding contains
Within-contains i hi [] w h = tt
Within-contains i hi (x ∷ xs) w h = (ground arith, Within-contains i hi xs w.1 (ground arith))

Distinct-take_out : (i : ℕ) (xs : List ℕ) → Distinct xs → Distinct (take_out i xs)
unfolding take_out
Distinct-take_out i [] d = tt
Distinct-take_out i (x ∷ xs) d = elim (Bool-cases (x == i)) [
  | inl e ↦ rw e d.1
  | inr e ↦
      rw e (
        contains-take_out i x xs (λ p. ground (arith, ==_iff x i)) ∙ d.0,
        Distinct-take_out i xs d.1,
      )
]

Within-take_out :
    (i hi : ℕ) (xs : List ℕ) → Distinct xs → Within i hi xs → Within (i + 1) hi (take_out i xs)
unfolding take_out
Within-take_out i hi [] d w = tt
Within-take_out i hi (x ∷ xs) d w = elim (Bool-cases (x == i)) [
  | inl e ↦ rw e (Within-contains i hi xs w.1 (ap (contains xs) (sym ((==_iff x i).0 e)) ∙ d.0))
  | inr e ↦ rw e (ground (arith, ==_iff x i), Within-take_out i hi xs d.1 w.1)
]

count_free-same :
    (xs ys : List ℕ) (i n : ℕ)
    → ((j : ℕ) → i ≤ j → contains xs j ≡ contains ys j)
    → count_free xs i n ≡ count_free ys i n
count_free-same xs ys i zero h = refl
count_free-same xs ys i (suc n) h =
    ground (arith, h i, count_free-same xs ys (i + 1) n (λ j k. h j (omega arith)))

-- Distinct numbers in a range leave the rest of the range free.
pub count_free-length :
    (n : ℕ) (xs : List ℕ) (i : ℕ)
    → Distinct xs
    → Within i (i + n) xs
    → count_free xs i n + length xs ≡ n
count_free-length zero [] i d w = omega arith
count_free-length zero (x ∷ xs) i d w = absurd (omega arith)
count_free-length (suc n) xs i d w = elim (Bool-cases (contains xs i)) [
  | inl e ↦ rw e (
      omega (
        arith,
        count_free-same xs (take_out i xs) (i + 1) n
            (λ j k. sym (contains-take_out i j xs (omega arith))),
        count_free-length n (take_out i xs) (i + 1) (Distinct-take_out i xs d)
            (Within-take_out i (i + 1 + n) xs d w'),
        length-take_out i xs e,
      ))
  | inr e ↦
      rw e (omega (arith, count_free-length n xs (i + 1) d (Within-contains i (i + 1 + n) xs w' e)))
]
  where
    w' : Within i (i + 1 + n) xs
    w' = subst (λ hi. Within i hi xs) (omega arith) w

-- Distinct numbers below a bound are at most so many.
pub length-Distinct : (xs : List ℕ) (n : ℕ) → Distinct xs → Within 0 n xs → length xs ≤ n
length-Distinct xs n d w = omega (arith, count_free-length n xs 0 d w')
  where
    w' : Within 0 (0 + n) xs
    w' = subst (λ hi. Within 0 hi xs) (omega arith) w
