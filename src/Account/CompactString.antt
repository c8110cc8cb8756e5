-- ===== src/Account/CompactString.antt =====
-- compact_string.h: `compact_string::string<Size>`, a text in an array of `Size` bytes.
pub mod Order
use simple_pop3serv.Base.{
  ℕ, zero, suc, ◌-◌, ◌<◌, ◌≡◌, refl, ap, Bool, Option, none, some, [], ◌∷◌, ◌++◌, ltb,
  if◌then◌else◌, arith, Bytes, bytes_eq, c_str, NoNul, length, length-append,
}

-- The array `charArray`.
abbrev pub CompactString : Type 0
CompactString = Bytes

-- charArray.fill('\0')
unfoldable pub zeros : ℕ → CompactString
zeros zero = []
zeros (suc n) = 0 ∷ zeros n

-- The constructor from a `std::string_view`; `none` is the `std::out_of_range` that it throws.
unfoldable pub make : ℕ → Bytes → Option CompactString
unfolding zeros
make size sv = if ltb (size - 1) (length sv) then none else some (sv ++ zeros (size - length sv))

-- `operator==` compares the arrays.
abbrev pub compact_eq : CompactString → CompactString → Bool
compact_eq = bytes_eq

pub length-zeros : (n : ℕ) → length (zeros n) ≡ n
unfolding zeros
length-zeros zero = refl
length-zeros (suc n) = ap suc (length-zeros n)

pub c_str-zeros : (s : Bytes) (n : ℕ) → NoNul s → c_str (s ++ zeros n) ≡ s
unfolding c_str zeros
c_str-zeros [] zero h = refl
c_str-zeros [] (suc n) h = refl
c_str-zeros (x ∷ xs) n h = ground (arith, c_str-zeros xs n h.1)

-- A text without NUL that is shorter than the array is held by an array of the full size with a
-- final NUL, and `c_str` gives it back.
pub make-c_str :
    (size : ℕ) (s : Bytes)
    → NoNul s
    → length s < size
    → (a : CompactString) × (make size s ≡ some a) × (length a ≡ size) × (c_str a ≡ s)
unfolding make
make-c_str size s h small = (
  s ++ zeros (size - length s),
  ground arith,
  omega (arith, length-append s (zeros (size - length s)), length-zeros (size - length s)),
  c_str-zeros s (size - length s) h,
)
