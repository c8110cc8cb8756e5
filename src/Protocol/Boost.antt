-- ===== src/Protocol/Boost.antt =====
-- The Boost functions that the program calls, which are not part of the repository: an interface
-- of operations, and the documented behaviour that the program relies on.
use simple_pop3serv.Base.{
  ℕ, ◌<◌, ◌≡◌, ◌≢◌, ◌↔◌, Bool, true, false, List, [], ◌∷◌, ◌++◌, Option, some, Bytes, All, uint_mod,
}
use simple_pop3serv.Base.Decimal.{decimal}
use simple_pop3serv.Base.Stream.{NoSpace}
use simple_pop3serv.Base.Stream
use simple_pop3serv.Protocol.CommandType.{Pop3CommandType}

pub record Boost : Type 0 where
  -- boost::is_space()
  pub is_space : ℕ → Bool
  -- boost::split(result, text, predicate), with the pieces as the result
  pub split : (ℕ → Bool) → Bytes → List Bytes
  -- boost::lexical_cast<unsigned int>(text); `none` is bad_lexical_cast
  pub cast_uint : Bytes → Option ℕ
  -- boost::lexical_cast<POP3CommandType>(text), through the program's `operator>>`
  pub cast_type : (Bytes → Pop3CommandType × Bytes) → Bytes → Option Pop3CommandType
  -- boost::lexical_cast<std::string>(value), from the text that the value's `operator<<` writes
  pub cast_string : Bytes → Bytes
  -- boost::ends_with(text, suffix)
  pub ends_with : Bytes → Bytes → Bool

pub record BoostLaws (b : Boost) : Type 0 where
  -- is_space() classifies by `std::isspace` of the classic locale.
  pub is_space-classic : (c : ℕ) → b.is_space c ≡ Stream.is_space c
  -- split cuts at each separator, and keeps empty pieces.
  pub split-last : (p : ℕ → Bool) (w : Bytes) → All (λ c. p c ≡ false) w → b.split p w ≡ w ∷ []
  pub split-more :
      (p : ℕ → Bool) (w : Bytes) (c : ℕ) (rest : Bytes)
      → All (λ c. p c ≡ false) w
      → p c ≡ true
      → b.split p (w ++ c ∷ rest) ≡ w ∷ b.split p rest
  -- The digits of an `unsigned int` are converted to it, and a result is an `unsigned int`.
  pub cast_uint-decimal : (n : ℕ) → n < uint_mod → b.cast_uint (decimal n) ≡ some n
  pub cast_uint-lt : (s : Bytes) (n : ℕ) → b.cast_uint s ≡ some n → n < uint_mod
  -- A text that the stream operator reads to its end, and that is neither empty nor holds
  -- spaces, is converted to what the operator reads.
  pub cast_type-word :
      (read : Bytes → Pop3CommandType × Bytes) (s : Bytes)
      → s ≢ []
      → NoSpace s
      → (read s).1 ≡ []
      → b.cast_type read s ≡ some (read s).0
  pub cast_string-written : (s : Bytes) → b.cast_string s ≡ s
  pub ends_with-iff :
      (s t : Bytes) → (b.ends_with s t ≡ true) ↔ ((front : Bytes) × (s ≡ front ++ t))
