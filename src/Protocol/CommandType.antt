-- ===== src/Protocol/CommandType.antt =====
-- POP3Common/POP3CommandType.h: the commands, and their stream operators.
use simple_pop3serv.Base.{
  ℕ, ◌≡◌, ◌≢◌, refl, sym, ap, ◌∙◌, ◌↔◌, Bool, [], ◌==◌, if◌then◌else◌, arith, Bytes, bytes,
  bytes_eq, bytes_eq_iff,
}
use simple_pop3serv.Base.Stream.{read_word, read_word-NoSpace, NoSpace, is_space}

pub data Pop3CommandType : Type 0 where
  unknown user pass stat list retr dele noop rset quit : Pop3CommandType

-- The enumerator's value.
unfoldable pub type_index : Pop3CommandType → ℕ
type_index unknown = 0
type_index user = 1
type_index pass = 2
type_index stat = 3
type_index list = 4
type_index retr = 5
type_index dele = 6
type_index noop = 7
type_index rset = 8
type_index quit = 9

-- `==` of two enumerators
unfoldable pub type_eq : Pop3CommandType → Pop3CommandType → Bool
unfolding type_index
type_eq a b = type_index a == type_index b

-- `operator<<`; the default case writes nothing.
unfoldable pub print_type : Pop3CommandType → Bytes
print_type user = bytes "USER"
print_type pass = bytes "PASS"
print_type stat = bytes "STAT"
print_type list = bytes "LIST"
print_type retr = bytes "RETR"
print_type dele = bytes "DELE"
print_type rset = bytes "RSET"
print_type noop = bytes "NOOP"
print_type quit = bytes "QUIT"
print_type unknown = []

-- The chain of comparisons in `operator>>`.
unfoldable pub type_of_word : Bytes → Pop3CommandType
type_of_word w =
    if bytes_eq w (bytes "USER")
    then user
    else if bytes_eq w (bytes "PASS")
    then pass
    else if bytes_eq w (bytes "STAT")
    then stat
    else if bytes_eq w (bytes "LIST")
    then list
    else if bytes_eq w (bytes "RETR")
    then retr
    else if bytes_eq w (bytes "DELE")
    then dele
    else if bytes_eq w (bytes "RSET")
    then rset
    else if bytes_eq w (bytes "NOOP")
    then noop
    else if bytes_eq w (bytes "QUIT")
    then quit
    else unknown

-- `operator>>`: the value, and what is left in the stream.
unfoldable pub read_type : Bytes → Pop3CommandType × Bytes
unfolding type_of_word
read_type s = let (w, rest) = read_word s in (type_of_word w, rest)

type_of_word-print_type : (t : Pop3CommandType) → type_of_word (print_type t) ≡ t
unfolding type_of_word print_type bytes_eq
type_of_word-print_type unknown = refl
type_of_word-print_type user = refl
type_of_word-print_type pass = refl
type_of_word-print_type stat = refl
type_of_word-print_type list = refl
type_of_word-print_type retr = refl
type_of_word-print_type dele = refl
type_of_word-print_type noop = refl
type_of_word-print_type rset = refl
type_of_word-print_type quit = refl

print_type-type_of_word : (w : Bytes) → type_of_word w ≢ unknown → print_type (type_of_word w) ≡ w
unfolding type_of_word print_type
print_type-type_of_word w h = ground (
  arith,
  bytes_eq_iff w (bytes "USER"),
  bytes_eq_iff w (bytes "PASS"),
  bytes_eq_iff w (bytes "STAT"),
  bytes_eq_iff w (bytes "LIST"),
  bytes_eq_iff w (bytes "RETR"),
  bytes_eq_iff w (bytes "DELE"),
  bytes_eq_iff w (bytes "RSET"),
  bytes_eq_iff w (bytes "NOOP"),
  bytes_eq_iff w (bytes "QUIT"),
)

pub print_type-NoSpace : (t : Pop3CommandType) → NoSpace (print_type t)
unfolding print_type is_space
print_type-NoSpace unknown = tt
print_type-NoSpace user = ground arith
print_type-NoSpace pass = ground arith
print_type-NoSpace stat = ground arith
print_type-NoSpace list = ground arith
print_type-NoSpace retr = ground arith
print_type-NoSpace dele = ground arith
print_type-NoSpace noop = ground arith
print_type-NoSpace rset = ground arith
print_type-NoSpace quit = ground arith

pub print_type-ne-nil : (t : Pop3CommandType) → t ≢ unknown → print_type t ≢ []
unfolding print_type
print_type-ne-nil unknown h e = h refl
print_type-ne-nil user h e = cc
print_type-ne-nil pass h e = cc
print_type-ne-nil stat h e = cc
print_type-ne-nil list h e = cc
print_type-ne-nil retr h e = cc
print_type-ne-nil dele h e = cc
print_type-ne-nil noop h e = cc
print_type-ne-nil rset h e = cc
print_type-ne-nil quit h e = cc

pub read_type-NoSpace : (w : Bytes) → NoSpace w → read_type w ≡ (type_of_word w, [])
unfolding read_type
read_type-NoSpace w h = rw (read_word-NoSpace w h) refl

-- A word without spaces is read as a known command exactly when it is what `operator<<` writes
-- for that command, letter case included, and nothing is left in the stream.
pub read_type-print_type :
    (w : Bytes) (t : Pop3CommandType)
    → NoSpace w
    → t ≢ unknown
    → (read_type w ≡ (t, [])) ↔ (w ≡ print_type t)
read_type-print_type w t h k = (
  λ e.
      let same : type_of_word w ≡ t =
        ap (λ (r : Pop3CommandType × Bytes). r.0) (sym (read_type-NoSpace w h) ∙ e) in
      sym (print_type-type_of_word w (λ u. k (sym same ∙ u))) ∙ ap print_type same,
  λ e.
      read_type-NoSpace w h
      ∙ ap (λ (u : Pop3CommandType). (u, [])) (ap type_of_word e ∙ type_of_word-print_type t),
)
