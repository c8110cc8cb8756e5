-- ===== src/Server/Console.antt =====
-- ConsoleServerController::Run of Common/Server.h: the number of threads, and the loop that reads
-- commands from the standard input.
use simple_pop3serv.Base.{
  is_some, ℕ, zero, suc, ◌+◌, ◌*◌, ◌%◌, ◌<◌, ◌≤◌, ◌≡◌, refl, sym, ap, ◌∙◌, inl, inr, Bool, false,
  ◌||◌, Option, none, some, List, [], ◌∷◌, ◌++◌, append_assoc, append-nil, ltb, ◌==◌, if◌then◌else◌,
  arith, Bytes, bytes, bytes_eq, length, uint_mod, Bool-cases,
}
use simple_pop3serv.Base.Stream
use simple_pop3serv.Base.Stream.{read_word}
use simple_pop3serv.Protocol.Parser.Words.{
  words, words_from, words_from-space, words_from-char, flush,
}

-- The number of threads, from the argument and `hardware_concurrency()`.
unfoldable pub thread_count : ℕ → ℕ → ℕ
thread_count asked cores =
    let twice = cores * 2 % uint_mod in
    if asked == 0 then (if ltb 2 twice then twice else 2) else asked

-- The words of the stream that `std::cin >> command` gives, as the loop takes them: whether "quit"
-- has been read within the rounds, and what is left of the input then.
unfoldable pub command_loop : (Bytes → Bytes) → ℕ → Bytes → Option Bytes
command_loop to_lower zero input = none
command_loop to_lower (suc rounds) input =
    let (command, left) = read_word input in
    let later = command_loop to_lower rounds left in
    if bytes_eq (to_lower command) (bytes "quit") then some left else later

-- The words that are "quit" in lower case.
abbrev pub any_quit : (Bytes → Bytes) → List Bytes → Bool
any_quit to_lower [] = false
any_quit to_lower (w ∷ ws) = bytes_eq (to_lower w) (bytes "quit") || any_quit to_lower ws

-- A word read off the stream is the first of its words.
words_from-word :
    (current s : Bytes)
    → words_from Stream.is_space current s
      ≡ flush (current ++ Stream.word s) ++ words (Stream.after_word s)
unfolding words_from Stream.word Stream.after_word words
words_from-word current [] =
    sym (append-nil (flush (current ++ [])) ∙ ap flush (append-nil current))
words_from-word current (c ∷ cs) = elim (Bool-cases (Stream.is_space c)) [
  | inl space ↦ rw space (
      words_from-space Stream.is_space c cs current space
      ∙ sym (
          ap (λ w. flush w ++ words (c ∷ cs)) (append-nil current)
          ∙ ap (◌++◌ (flush current)) (words_from-space Stream.is_space c cs [] space)))
  | inr char ↦ rw char (
      words_from-char Stream.is_space c cs current char
      ∙ words_from-word (current ++ c ∷ []) cs
      ∙ ap (λ w. flush w ++ words (Stream.after_word cs))
          (append_assoc current (c ∷ []) (Stream.word cs)))
]

words-skip_spaces : (s : Bytes) → words s ≡ words (Stream.skip_spaces s)
unfolding words_from Stream.skip_spaces words
words-skip_spaces [] = refl
words-skip_spaces (c ∷ cs) = elim (Bool-cases (Stream.is_space c)) [
  | inl space ↦ rw space (words_from-space Stream.is_space c cs [] space ∙ words-skip_spaces cs)
  | inr char ↦ rw char
]

words-read_word : (s : Bytes) → words s ≡ flush (read_word s).0 ++ words (read_word s).1
unfolding read_word words
words-read_word s = words-skip_spaces s ∙ words_from-word [] (Stream.skip_spaces s)

skip_spaces-le : (s : Bytes) → length (Stream.skip_spaces s) ≤ length s
unfolding Stream.skip_spaces
skip_spaces-le [] = omega arith
skip_spaces-le (c ∷ cs) = ground (arith, skip_spaces-le cs)

word-length : (s : Bytes) → length (Stream.word s) + length (Stream.after_word s) ≡ length s
unfolding Stream.word Stream.after_word
word-length [] = refl
word-length (c ∷ cs) = ground (arith, word-length cs)

-- What has been read and what is left are no more than there was.
read_word-le : (s : Bytes) → length (read_word s).0 + length (read_word s).1 ≤ length s
unfolding read_word
read_word-le s = omega (arith, word-length (Stream.skip_spaces s), skip_spaces-le s)

-- Without a word, the stream is at its end.
read_word-end : (s : Bytes) → (read_word s).0 ≡ [] → (read_word s).1 ≡ []
unfolding read_word Stream.skip_spaces Stream.word Stream.after_word
read_word-end [] e = refl
read_word-end (c ∷ cs) e = elim (Bool-cases (Stream.is_space c)) [
  | inl space ↦ rw space (read_word-end cs (rw space at e))
  | inr char ↦ cc
]

module _ (to_lower : Bytes → Bytes) (keeps_empty : to_lower [] ≡ []) where
  not_quit : bytes_eq (to_lower []) (bytes "quit") ≡ false
  unfolding bytes_eq
  not_quit = rw keeps_empty

  command_loop-end : (rounds : ℕ) → command_loop to_lower rounds [] ≡ none
  unfolding command_loop read_word Stream.skip_spaces Stream.word Stream.after_word
  command_loop-end zero = refl
  command_loop-end (suc rounds) = rw not_quit (command_loop-end rounds)

  loop_after :
      (rounds : ℕ) (input command left : Bytes)
      → (read_word input) ≡ (command, left)
      → command_loop to_lower (suc rounds) input ≡ (
          if bytes_eq (to_lower command) (bytes "quit")
          then some left
          else command_loop to_lower rounds left)
  unfolding command_loop
  loop_after rounds input command left e = rw e

  quits :
      (rounds : ℕ) (input command left : Bytes)
      → (read_word input) ≡ (command, left)
      → length input < suc rounds
      → ((s : Bytes)
          → length s < rounds
          → is_some (command_loop to_lower rounds s) ≡ any_quit to_lower (words s))
      → is_some (command_loop to_lower (suc rounds) input)
        ≡ any_quit to_lower (flush command ++ words left)
  quits rounds input [] left e enough later =
      let ended : left ≡ [] =
        sym (ap (λ (r : Bytes × Bytes). r.1) e)
        ∙ read_word-end input (ap (λ (r : Bytes × Bytes). r.0) e) in
      rw (loop_after rounds input [] left e, not_quit, ended, command_loop-end rounds)
        (unfold words words_from in refl)
  quits rounds input (c ∷ cs) left e enough later =
      let shorter = ap (λ (r : Bytes × Bytes). length r.0 + length r.1) e in
      rw (loop_after rounds input (c ∷ cs) left e)
        (elim (Bool-cases (bytes_eq (to_lower (c ∷ cs)) (bytes "quit"))) [
          | inl yes' ↦ rw yes'
          | inr no' ↦ rw no' (later left (omega (arith, read_word-le input)))
        ])

  -- If the empty text stays empty in lower case: with more rounds than the standard input has
  -- characters, the loop of commands has ended if a word of the input is "quit" in lower case, and
  -- goes on if there is none.
  pub command_loop-quits :
      (rounds : ℕ) (input : Bytes)
      → length input < rounds
      → is_some (command_loop to_lower rounds input) ≡ any_quit to_lower (words input)
  command_loop-quits zero input enough = absurd (omega arith)
  command_loop-quits (suc rounds) input enough =
      quits rounds input (read_word input).0 (read_word input).1 refl enough
        (λ s h. command_loop-quits rounds s h)
      ∙ ap (any_quit to_lower) (sym (words-read_word input))
