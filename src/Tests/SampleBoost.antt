-- ===== src/Tests/SampleBoost.antt =====
-- Functions in the place of Boost's, and that they behave as the program relies on.
use simple_pop3serv.Base.{
  ℕ, ◌<◌, ◌≡◌, ◌≢◌, refl, ap, inl, inr, Bool, true, false, ◌&&◌, ◌||◌, Option, none, some, List, [],
  ◌∷◌, ◌++◌, ltb, leb, if◌then◌else◌, arith, Bytes, bytes_eq, bytes_eq_iff, All, uint_mod,
  Bool-cases,
}
use simple_pop3serv.Base.Decimal.{
  decimal, digits_value, digits_value-decimal, IsDigit, decimal-IsDigit,
}
use simple_pop3serv.Base.Stream.{NoSpace}
use simple_pop3serv.Base.Stream
use simple_pop3serv.Protocol.CommandType.{Pop3CommandType}
use simple_pop3serv.Protocol.Parser.{is_empty}
use simple_pop3serv.Protocol.Boost.{Boost, BoostLaws}

abbrev put_first : ℕ → List Bytes → List Bytes
put_first c [] = (c ∷ []) ∷ []
put_first c (w ∷ ws) = (c ∷ w) ∷ ws

unfoldable pub sample_split : (ℕ → Bool) → Bytes → List Bytes
sample_split p [] = [] ∷ []
sample_split p (c ∷ cs) =
    let rest = sample_split p cs in if p c then [] ∷ rest else put_first c rest

abbrev all_digits : Bytes → Bool
all_digits [] = true
all_digits (c ∷ cs) = (leb 48 c && leb c 57) && all_digits cs

unfoldable pub sample_cast_uint : Bytes → Option ℕ
sample_cast_uint s =
    if all_digits s && ltb (digits_value 0 s) uint_mod then some (digits_value 0 s) else none

unfoldable pub sample_cast_type : (Bytes → Pop3CommandType × Bytes) → Bytes → Option Pop3CommandType
sample_cast_type read s = if is_empty (read s).1 then some (read s).0 else none

unfoldable pub sample_ends_with : Bytes → Bytes → Bool
sample_ends_with [] t = bytes_eq [] t
sample_ends_with (c ∷ cs) t = bytes_eq (c ∷ cs) t || sample_ends_with cs t

abbrev pub sample_boost : Boost
sample_boost = record {
  is_space = Stream.is_space;
  split = sample_split;
  cast_uint = sample_cast_uint;
  cast_type = sample_cast_type;
  cast_string = λ s. s;
  ends_with = sample_ends_with;
}

split-last : (p : ℕ → Bool) (w : Bytes) → All (λ c. p c ≡ false) w → sample_split p w ≡ w ∷ []
unfolding sample_split
split-last p [] h = refl
split-last p (c ∷ cs) h = rw (h.0, split-last p cs h.1) refl

split-more :
    (p : ℕ → Bool) (w : Bytes) (c : ℕ) (rest : Bytes)
    → All (λ c. p c ≡ false) w
    → p c ≡ true
    → sample_split p (w ++ c ∷ rest) ≡ w ∷ sample_split p rest
unfolding sample_split
split-more p [] c rest h cut = rw cut
split-more p (x ∷ xs) c rest h cut = rw (h.0, split-more p xs c rest h.1 cut) refl

all_digits-IsDigit : (s : Bytes) → All IsDigit s → all_digits s ≡ true
all_digits-IsDigit [] h = refl
all_digits-IsDigit (c ∷ cs) h = ground (arith, all_digits-IsDigit cs h.1)

cast_uint-decimal : (n : ℕ) → n < uint_mod → sample_cast_uint (decimal n) ≡ some n
unfolding sample_cast_uint
cast_uint-decimal n h =
    rw (all_digits-IsDigit (decimal n) (decimal-IsDigit n), digits_value-decimal n) (ground arith)

cast_uint-lt : (s : Bytes) (n : ℕ) → sample_cast_uint s ≡ some n → n < uint_mod
unfolding sample_cast_uint
cast_uint-lt s n e = ground arith

cast_type-word :
    (read : Bytes → Pop3CommandType × Bytes) (s : Bytes)
    → s ≢ []
    → NoSpace s
    → (read s).1 ≡ []
    → sample_cast_type read s ≡ some (read s).0
unfolding sample_cast_type
cast_type-word read s h n e = rw e

suffix_of : (s t : Bytes) → sample_ends_with s t ≡ true → (front : Bytes) × (s ≡ front ++ t)
unfolding sample_ends_with
suffix_of [] t h = ([], (bytes_eq_iff [] t).0 h)
suffix_of (c ∷ cs) t h = elim (Bool-cases (bytes_eq (c ∷ cs) t)) [
  | inl same ↦ ([], (bytes_eq_iff (c ∷ cs) t).0 same)
  | inr other ↦ let (front, e) = suffix_of cs t (ground arith) in (c ∷ front, ap (◌∷◌ c) e)
]

ends_with_append : (front t : Bytes) → sample_ends_with (front ++ t) t ≡ true
unfolding sample_ends_with
ends_with_append [] [] = ground (arith, bytes_eq_iff [] [])
ends_with_append [] (x ∷ xs) = ground (arith, bytes_eq_iff (x ∷ xs) (x ∷ xs))
ends_with_append (c ∷ cs) t = ground (arith, ends_with_append cs t)

pub sample_boost-laws : BoostLaws sample_boost
sample_boost-laws = record {
  is_space-classic = λ c. refl;
  split-last = split-last;
  split-more = split-more;
  cast_uint-decimal = cast_uint-decimal;
  cast_uint-lt = cast_uint-lt;
  cast_type-word = cast_type-word;
  cast_string-written = λ s. refl;
  ends_with-iff = λ s t. (suffix_of s t, λ (front, e). rw e (ends_with_append front t));
}
