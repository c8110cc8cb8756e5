-- ===== src/Base/Stream.antt =====
-- `in >> word` on a `std::istream`, as a function of the characters that are left in it.
use simple_pop3serv.Base.{
  ℕ, ◌≡◌, refl, ap, Bool, false, ◌||◌, ◌&&◌, [], ◌∷◌, ◌==◌, leb, if◌then◌else◌, Bytes, All,
}

-- `std::isspace` in the classic locale: tab, newline, vertical tab, form feed, return and space.
unfoldable pub is_space : ℕ → Bool
is_space c = c == 32 || (leb 9 c && leb c 13)

abbrev pub NoSpace : Bytes → Type 0
NoSpace = All (λ c. is_space c ≡ false)

unfoldable pub skip_spaces : Bytes → Bytes
skip_spaces [] = []
skip_spaces (c ∷ cs) = let rest = skip_spaces cs in if is_space c then rest else c ∷ cs

unfoldable pub word : Bytes → Bytes
word [] = []
word (c ∷ cs) = let rest = word cs in if is_space c then [] else c ∷ rest

unfoldable pub after_word : Bytes → Bytes
after_word [] = []
after_word (c ∷ cs) = let rest = after_word cs in if is_space c then c ∷ cs else rest

-- `in >> s`: the word, and what is left in the stream.
unfoldable pub read_word : Bytes → Bytes × Bytes
unfolding skip_spaces word after_word is_space
read_word s = (word (skip_spaces s), after_word (skip_spaces s))

skip_spaces-NoSpace : (w : Bytes) → NoSpace w → skip_spaces w ≡ w
unfolding skip_spaces
skip_spaces-NoSpace [] h = refl
skip_spaces-NoSpace (c ∷ cs) h = rw h.0

word-NoSpace : (w : Bytes) → NoSpace w → word w ≡ w
unfolding word
word-NoSpace [] h = refl
word-NoSpace (c ∷ cs) h = rw h.0 (ap (◌∷◌ c) (word-NoSpace cs h.1))

after_word-NoSpace : (w : Bytes) → NoSpace w → after_word w ≡ []
unfolding after_word
after_word-NoSpace [] h = refl
after_word-NoSpace (c ∷ cs) h = rw h.0 (after_word-NoSpace cs h.1)

-- A text without spaces is read whole.
pub read_word-NoSpace : (w : Bytes) → NoSpace w → read_word w ≡ (w, [])
unfolding read_word
read_word-NoSpace w h = rw (skip_spaces-NoSpace w h, word-NoSpace w h, after_word-NoSpace w h) refl
