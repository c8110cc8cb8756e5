-- ===== src/Protocol/Parser/Accepted.antt =====
-- Which commands `parsePOP3Command` accepts, and which lines it cannot parse.
use simple_pop3serv.Base.{
  ◌<◌, ◌≡◌, ◌≢◌, refl, sym, ap, ◌∙◌, subst, inl, inr, List, [], ◌∷◌, Bytes, All, Option-cases,
  uint_mod, ok, fault, out_of_range, Variant, value, error, ok-injective,
}
use simple_pop3serv.Protocol.CommandType.{
  Pop3CommandType, unknown, user, pass, stat, list, retr, dele, noop, rset, quit, read_type,
}
use simple_pop3serv.Protocol.Boost.{Boost, BoostLaws}
use simple_pop3serv.Protocol.Parser.{
  Pop3Command, Parameter, monostate, uint, text, ParsingError, unknown_command, parse_typed,
  parse_words, parse_pop3_command,
}
use simple_pop3serv.Protocol.Parser.Words.{
  words, IsWord, IsBlank, copy_nonempty-words, words-IsWord, words-IsBlank, IsBlank-words,
}

-- The parameter that a command carries when it is handed to the session.
abbrev pub Fits : Pop3CommandType → Parameter → Type 0
Fits unknown p = ⊥
Fits user (text s) = IsWord s
Fits user p = ⊥
Fits pass (text s) = IsWord s
Fits pass p = ⊥
Fits list (text s) = ⊥
Fits list (uint n) = n < uint_mod
Fits list monostate = Unit
Fits dele (text s) = ⊥
Fits dele (uint n) = n < uint_mod
Fits dele monostate = Unit
Fits retr (uint n) = n < uint_mod
Fits retr p = ⊥
Fits stat monostate = Unit
Fits stat p = ⊥
Fits noop monostate = Unit
Fits noop p = ⊥
Fits rset monostate = Unit
Fits rset p = ⊥
Fits quit monostate = Unit
Fits quit p = ⊥

abbrev pub IsWellFormed : Pop3Command → Type 0
IsWellFormed cmd = Fits cmd.cmd_type cmd.parameter

-- A parsing error, or a command with `P`.
abbrev pub Accepts : Variant Pop3Command ParsingError → (Pop3Command → Type 0) → Type 0
Accepts (value cmd) P = P cmd
Accepts (error e) P = Unit

module _ {boost : Boost} (laws : BoostLaws boost) where
  parse_typed-IsWellFormed :
      (t : Pop3CommandType) (ps : List Bytes)
      → All IsWord ps
      → Accepts (parse_typed boost t ps) IsWellFormed
  unfolding parse_typed
  parse_typed-IsWellFormed unknown ps h = tt
  parse_typed-IsWellFormed user [] h = tt
  parse_typed-IsWellFormed user (p ∷ ps) h = h.0
  parse_typed-IsWellFormed pass [] h = tt
  parse_typed-IsWellFormed pass (p ∷ ps) h = h.0
  parse_typed-IsWellFormed stat [] h = tt
  parse_typed-IsWellFormed stat (p ∷ ps) h = tt
  parse_typed-IsWellFormed list [] h = tt
  parse_typed-IsWellFormed list (p ∷ ps) h = elim (Option-cases (boost.cast_uint p)) [
    | inl e ↦ rw (e, parse_typed) tt
    | inr (n, e) ↦ rw (e, parse_typed) (laws.cast_uint-lt p n e)
  ]
  parse_typed-IsWellFormed retr [] h = tt
  parse_typed-IsWellFormed retr (p ∷ ps) h = elim (Option-cases (boost.cast_uint p)) [
    | inl e ↦ rw (e, parse_typed) tt
    | inr (n, e) ↦ rw (e, parse_typed) (laws.cast_uint-lt p n e)
  ]
  parse_typed-IsWellFormed dele [] h = tt
  parse_typed-IsWellFormed dele (p ∷ ps) h = elim (Option-cases (boost.cast_uint p)) [
    | inl e ↦ rw (e, parse_typed) tt
    | inr (n, e) ↦ rw (e, parse_typed) (laws.cast_uint-lt p n e)
  ]
  parse_typed-IsWellFormed noop [] h = tt
  parse_typed-IsWellFormed noop (p ∷ ps) h = tt
  parse_typed-IsWellFormed rset [] h = tt
  parse_typed-IsWellFormed rset (p ∷ ps) h = tt
  parse_typed-IsWellFormed quit [] h = tt
  parse_typed-IsWellFormed quit (p ∷ ps) h = tt

  parse_words-IsWellFormed :
      (v : List Bytes) (r : Variant Pop3Command ParsingError)
      → All IsWord v
      → parse_words boost v ≡ ok r
      → Accepts r IsWellFormed
  unfolding parse_words
  parse_words-IsWellFormed [] r h e = cc
  parse_words-IsWellFormed (w ∷ ps) r h e = elim (Option-cases (boost.cast_type read_type w)) [
    | inl failed ↦
        subst (λ r. Accepts r IsWellFormed) (ok-injective (rw (failed, parse_words) at e)) tt
    | inr (t, read) ↦
        subst (λ r. Accepts r IsWellFormed) (ok-injective (rw (read, parse_words) at e))
          (parse_typed-IsWellFormed t ps h.1)
  ]

  -- A line that is not empty is parsed by its words.
  pub parse-words :
      (line : Bytes) → line ≢ [] → parse_pop3_command boost line ≡ parse_words boost (words line)
  unfolding parse_pop3_command
  parse-words [] h = absurd (h refl)
  parse-words (c ∷ cs) h = ap (parse_words boost) (copy_nonempty-words laws (c ∷ cs))

  -- Whatever the line, a command that is parsed carries the parameter that its type calls for:
  -- USER and PASS a word, RETR an `unsigned int`, LIST and DELE that or nothing, the others nothing.
  pub parse-IsWellFormed :
      (line : Bytes) (cmd : Pop3Command)
      → parse_pop3_command boost line ≡ ok (value cmd)
      → IsWellFormed cmd
  unfolding parse_pop3_command
  parse-IsWellFormed [] cmd e = cc
  parse-IsWellFormed (c ∷ cs) cmd e =
      parse_words-IsWellFormed (words (c ∷ cs)) (value cmd) (words-IsWord (c ∷ cs))
        (sym (parse-words (c ∷ cs) (λ n. cc)) ∙ e)

  parse_words-returns :
      (w : Bytes) (ps : List Bytes)
      → (r : Variant Pop3Command ParsingError) × (parse_words boost (w ∷ ps) ≡ ok r)
  unfolding parse_words
  parse_words-returns w ps = elim (Option-cases (boost.cast_type read_type w)) [
    | inl failed ↦ (error unknown_command, rw (failed, parse_words))
    | inr (t, read) ↦ (parse_typed boost t ps, rw (read, parse_words))
  ]

  parse-returns_of_words :
      (line : Bytes) (v : List Bytes)
      → words line ≡ v
      → line ≢ []
      → ¬ IsBlank line
      → (r : Variant Pop3Command ParsingError) × (parse_pop3_command boost line ≡ ok r)
  parse-returns_of_words line [] e h b = absurd (b (IsBlank-words line e))
  parse-returns_of_words line (w ∷ ps) e h b =
      let (r, q) = parse_words-returns w ps in
      (r, parse-words line h ∙ ap (parse_words boost) e ∙ q)

  -- A line with a byte that is no space is parsed, to a command or to an error.
  pub parse-returns :
      (line : Bytes)
      → ¬ IsBlank line
      → (r : Variant Pop3Command ParsingError) × (parse_pop3_command boost line ≡ ok r)
  parse-returns line b =
      parse-returns_of_words line (words line) refl (λ n. b (subst IsBlank (sym n) tt)) b

  -- A line of spaces alone that is not empty, such as the empty command line "\r\n", reads `v[0]`
  -- of an empty vector.
  pub parse-blank_line :
      (line : Bytes) → line ≢ [] → IsBlank line → parse_pop3_command boost line ≡ fault out_of_range
  parse-blank_line line h b =
      parse-words line h
      ∙ ap (parse_words boost) (words-IsBlank line b)
      ∙ unfold parse_words in refl
