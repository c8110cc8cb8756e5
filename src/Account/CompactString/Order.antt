-- ===== src/Account/CompactString/Order.antt =====
-- The comparisons, assignments and converters of compact_string.h. The comparisons with a
-- `std::string_view` are behind a macro that nothing defines.
use simple_pop3serv.Base.{
  ℕ, zero, suc, ◌+◌, ◌-◌, ◌%◌, ◌<◌, ◌≡◌, refl, Bool, true, false, not, Option, some, [], ◌∷◌, ◌++◌,
  ltb, if◌then◌else◌, arith, Bytes, bytes_eq, length, All,
}
use simple_pop3serv.Account.CompactString.{CompactString, zeros, make}

-- std::lexicographical_compare, by what each `char` counts for.
unfoldable pub lexicographical_compare : (ℕ → ℕ) → Bytes → Bytes → Bool
lexicographical_compare key [] [] = false
lexicographical_compare key [] (y ∷ ys) = true
lexicographical_compare key (x ∷ xs) [] = false
lexicographical_compare key (x ∷ xs) (y ∷ ys) =
    let rest = lexicographical_compare key xs ys in
    if ltb (key x) (key y) then true else if ltb (key y) (key x) then false else rest

-- A `char` is signed: the bytes from 128 on are negative. Both sides are moved up by 128.
abbrev pub signed_char : ℕ → ℕ
signed_char c = (c + 128) % 256

-- std::char_traits compares bytes as unsigned.
abbrev pub unsigned_char : ℕ → ℕ
unsigned_char c = c

-- `charArray < right.charArray`
abbrev pub less : CompactString → CompactString → Bool
less = lexicographical_compare signed_char

-- `charArray > right.charArray`
abbrev pub greater : CompactString → CompactString → Bool
greater a b = less b a

-- `charArray != right.charArray`
abbrev pub not_equal : CompactString → CompactString → Bool
not_equal a b = not (bytes_eq a b)

-- `string_comparator` of two strings.
abbrev pub compare_strings : CompactString → CompactString → Bool
compare_strings a b = less a b

-- `operator=` from a string of another size: the array is cleared and the other copied over it.
abbrev pub assign : ℕ → CompactString → CompactString
assign size other = other ++ zeros (size - length other)

-- `compact_string_converter`: `operator=` from a text, which throws if the text is too long.
abbrev pub convert : ℕ → Bytes → Option CompactString
convert n orig = make n orig

-- Texts of seven-bit characters without NUL.
abbrev pub IsAscii : Bytes → Type 0
IsAscii = All (λ c. (0 < c) × (c < 128))

zeros-same : (n m : ℕ) → n ≡ m → less (zeros n) (zeros m) ≡ false
unfolding lexicographical_compare zeros
zeros-same zero zero e = refl
zeros-same zero (suc m) e = absurd (omega arith)
zeros-same (suc n) zero e = absurd (omega arith)
zeros-same (suc n) (suc m) e = zeros-same n m (omega arith)

-- The zeros behind a text keep the order of the texts.
less-padded :
    (s t : Bytes) (n m : ℕ)
    → IsAscii s
    → IsAscii t
    → length s + n ≡ length t + m
    → less (s ++ zeros n) (t ++ zeros m) ≡ lexicographical_compare unsigned_char s t
unfolding lexicographical_compare zeros
less-padded [] [] n m hs ht e = zeros-same n m (omega arith)
less-padded [] (y ∷ ys) zero m hs ht e = absurd (omega arith)
less-padded [] (y ∷ ys) (suc n) m hs ht e = ground (arith, ht.0)
less-padded (x ∷ xs) [] n zero hs ht e = absurd (omega arith)
less-padded (x ∷ xs) [] n (suc m) hs ht e = ground (arith, hs.0)
less-padded (x ∷ xs) (y ∷ ys) n m hs ht e =
    ground (arith, less-padded xs ys n m hs.1 ht.1 (omega arith), hs.0, ht.0)

-- Two texts of seven-bit characters without NUL, each shorter than the array, are both converted,
-- and the comparator orders the arrays as the dictionary orders the texts: the zeros behind the
-- shorter text come before every character.
pub convert-compare_strings :
    (size : ℕ) (s t : Bytes)
    → IsAscii s
    → IsAscii t
    → length s < size
    → length t < size
    → (a : CompactString) × (b : CompactString) × (convert size s ≡ some a)
      × (convert size t ≡ some b)
      × (compare_strings a b ≡ lexicographical_compare unsigned_char s t)
unfolding make
convert-compare_strings size s t hs ht shorter_s shorter_t = (
  s ++ zeros (size - length s),
  t ++ zeros (size - length t),
  ground arith,
  ground arith,
  less-padded s t (size - length s) (size - length t) hs ht (omega arith),
)
