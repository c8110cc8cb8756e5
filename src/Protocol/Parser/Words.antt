-- ===== src/Protocol/Parser/Words.antt =====
-- The tokenizer of `parsePOP3Command`: what is left of Boost's pieces when the empty ones are
-- dropped, against a reference that walks the line once.
use mathlib.Core.Path.{fun_ext}
use simple_pop3serv.Base.{
  ℕ, ◌≡◌, ◌≢◌, refl, sym, ap, ◌∙◌, subst, inl, inr, Bool, true, false, List, [], ◌∷◌, ◌++◌,
  append_assoc, append-nil, Bytes, All, All-append, Bool-cases,
}
use simple_pop3serv.Base.Stream.{NoSpace}
use simple_pop3serv.Base.Stream
use simple_pop3serv.Protocol.Boost.{Boost, BoostLaws}
use simple_pop3serv.Protocol.Parser.{copy_nonempty}

-- The word read so far, unless it is empty.
abbrev pub flush : Bytes → List Bytes
flush [] = []
flush (c ∷ cs) = (c ∷ cs) ∷ []

module _ (space : ℕ → Bool) where
  unfoldable pub words_from : Bytes → Bytes → List Bytes
  words_from current [] = flush current
  words_from current (c ∷ cs) = elim (space c) [
    | true ↦ flush current ++ words_from [] cs
    | false ↦ words_from (current ++ c ∷ []) cs
  ]

  pub words_from-space :
      (c : ℕ) (cs current : Bytes)
      → space c ≡ true
      → words_from current (c ∷ cs) ≡ flush current ++ words_from [] cs
  unfolding words_from
  words_from-space c cs current e = rw (e, words_from)

  pub words_from-char :
      (c : ℕ) (cs current : Bytes)
      → space c ≡ false
      → words_from current (c ∷ cs) ≡ words_from (current ++ c ∷ []) cs
  unfolding words_from
  words_from-char c cs current e = rw (e, words_from)

-- The words of a line: its longest runs of bytes that are not spaces.
unfoldable pub words : Bytes → List Bytes
unfolding words_from
words = words_from Stream.is_space []

copy_nonempty-flush :
    (w : Bytes) (vv : List Bytes) → copy_nonempty (w ∷ vv) ≡ flush w ++ copy_nonempty vv
unfolding copy_nonempty
copy_nonempty-flush [] vv = refl
copy_nonempty-flush (c ∷ cs) vv = refl

module _ {boost : Boost} (laws : BoostLaws boost) (space : ℕ → Bool) where
  copy_nonempty-split :
      (s current : Bytes)
      → All (λ c. space c ≡ false) current
      → copy_nonempty (boost.split space (current ++ s)) ≡ words_from space current s
  unfolding words_from
  copy_nonempty-split [] current h =
      rw (append-nil, laws.split-last space current h)
        (copy_nonempty-flush current [] ∙ unfold copy_nonempty in append-nil (flush current))
  copy_nonempty-split (c ∷ cs) current h = elim (Bool-cases (space c)) [
    | inl cut ↦
        rw (words_from-space space c cs current cut, laws.split-more space current c cs h cut)
          (copy_nonempty-flush current (boost.split space cs)
            ∙ ap (◌++◌ (flush current)) (copy_nonempty-split cs [] tt))
    | inr more ↦ rw (words_from-char space c cs current more) (
        ap (λ (s : Bytes). copy_nonempty (boost.split space s))
          (sym (append_assoc current (c ∷ []) cs))
        ∙ copy_nonempty-split cs (current ++ c ∷ [])
            (All-append (λ c. space c ≡ false) current (c ∷ []) h (more, tt)))
  ]

-- For a line of any bytes, the nonempty pieces of Boost's split are the line's words.
pub copy_nonempty-words :
    {boost : Boost} (laws : BoostLaws boost) (line : Bytes)
    → copy_nonempty (boost.split boost.is_space line) ≡ words line
unfolding words
copy_nonempty-words {boost} laws line =
    ap (λ (p : ℕ → Bool). copy_nonempty (boost.split p line)) (fun_ext laws.is_space-classic)
    ∙ copy_nonempty-split laws Stream.is_space line [] tt

-- A word as the tokenizer gives it.
abbrev pub IsWord : Bytes → Type 0
IsWord w = (w ≢ []) × NoSpace w

flush-IsWord : (w : Bytes) → NoSpace w → All IsWord (flush w)
flush-IsWord [] h = tt
flush-IsWord (c ∷ cs) h = (((λ e. cc), h), tt)

words_from-IsWord :
    (s current : Bytes) → NoSpace current → All IsWord (words_from Stream.is_space current s)
unfolding words_from
words_from-IsWord [] current h = flush-IsWord current h
words_from-IsWord (c ∷ cs) current h = elim (Bool-cases (Stream.is_space c)) [
  | inl cut ↦
      rw (words_from-space Stream.is_space c cs current cut)
        (All-append IsWord (flush current) _ (flush-IsWord current h) (words_from-IsWord cs [] tt))
  | inr more ↦ rw (words_from-char Stream.is_space c cs current more) (
      words_from-IsWord cs (current ++ c ∷ [])
        (All-append (λ b. Stream.is_space b ≡ false) current (c ∷ []) h (more, tt)))
]

pub words-IsWord : (line : Bytes) → All IsWord (words line)
unfolding words
words-IsWord line = words_from-IsWord line [] tt

abbrev pub IsBlank : Bytes → Type 0
IsBlank = All (λ c. Stream.is_space c ≡ true)

pub words-IsBlank : (line : Bytes) → IsBlank line → words line ≡ []
unfolding words
words-IsBlank [] h = refl
words-IsBlank (c ∷ cs) h = rw (words_from-space Stream.is_space c cs [] h.0) (words-IsBlank cs h.1)

flush-ne-nil : (c : ℕ) (current : Bytes) (vv : List Bytes) → flush (current ++ c ∷ []) ++ vv ≢ []
flush-ne-nil c [] vv e = cc
flush-ne-nil c (x ∷ xs) vv e = cc

-- A word that has begun comes out.
words_from-ne-nil :
    (s current : Bytes) (c : ℕ) → words_from Stream.is_space (current ++ c ∷ []) s ≢ []
unfolding words_from
words_from-ne-nil [] current c =
    subst (λ (vv : List Bytes). vv ≢ []) (append-nil (flush (current ++ c ∷ [])))
      (flush-ne-nil c current [])
words_from-ne-nil (d ∷ ds) current c = elim (Bool-cases (Stream.is_space d)) [
  | inl cut ↦
      rw (words_from-space Stream.is_space d ds (current ++ c ∷ []) cut) (flush-ne-nil c current _)
  | inr more ↦
      rw (words_from-char Stream.is_space d ds (current ++ c ∷ []) more)
        (words_from-ne-nil ds (current ++ c ∷ []) d)
]

-- A line without words is blank.
pub IsBlank-words : (line : Bytes) → words line ≡ [] → IsBlank line
unfolding words
IsBlank-words [] h = tt
IsBlank-words (c ∷ cs) h = elim (Bool-cases (Stream.is_space c)) [
  | inl cut ↦ (cut, IsBlank-words cs (sym (words_from-space Stream.is_space c cs [] cut) ∙ h))
  | inr more ↦
      absurd (words_from-ne-nil cs [] c (sym (words_from-char Stream.is_space c cs [] more) ∙ h))
]

words_from-word :
    (w rest current : Bytes)
    → NoSpace w
    → words_from Stream.is_space current (w ++ rest)
      ≡ words_from Stream.is_space (current ++ w) rest
unfolding words_from
words_from-word [] rest current h =
    ap (λ (s : Bytes). words_from Stream.is_space s rest) (sym (append-nil current))
words_from-word (c ∷ cs) rest current h =
    words_from-char Stream.is_space c (cs ++ rest) current h.0
    ∙ (words_from-word cs rest (current ++ c ∷ []) h.1
        ∙ ap (λ (s : Bytes). words_from Stream.is_space s rest) (append_assoc current (c ∷ []) cs))

-- A word before a space is the first word.
pub words-word :
    (w : Bytes) (c : ℕ) (rest : Bytes)
    → IsWord w
    → Stream.is_space c ≡ true
    → words (w ++ c ∷ rest) ≡ w ∷ words rest
unfolding words
words-word [] c rest h cut = absurd (h.0 refl)
words-word (x ∷ xs) c rest h cut =
    words_from-word (x ∷ xs) (c ∷ rest) [] h.1
    ∙ words_from-space Stream.is_space c rest (x ∷ xs) cut
