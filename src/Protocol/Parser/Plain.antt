-- ===== src/Protocol/Parser/Plain.antt =====
-- Lines without NUL, and the texts that the parser takes out of them.
use simple_pop3serv.Base.{
  ◌≡◌, ◌≢◌, sym, ◌∙◌, subst, inl, inr, List, [], ◌∷◌, ◌++◌, Bytes, NoNul, All, All-append,
  Bool-cases, Option-cases, ok, Variant, value, ok-injective,
}
use simple_pop3serv.Base.Stream
use simple_pop3serv.Protocol.CommandType.{
  Pop3CommandType, unknown, user, pass, stat, list, retr, dele, noop, rset, quit, read_type,
}
use simple_pop3serv.Protocol.Boost.{Boost, BoostLaws}
use simple_pop3serv.Protocol.Parser.{
  Pop3Command, Parameter, monostate, uint, text, ParsingError, parse_typed, parse_words,
  parse_pop3_command,
}
use simple_pop3serv.Protocol.Parser.Words.{
  words, flush, words_from, words_from-space, words_from-char,
}
use simple_pop3serv.Protocol.Parser.Accepted.{Accepts, parse-words}

-- A text, if the parameter is one, holds no NUL.
abbrev pub PlainText : Parameter → Type 0
PlainText monostate = Unit
PlainText (uint n) = Unit
PlainText (text s) = NoNul s

abbrev HasPlainText : Pop3Command → Type 0
HasPlainText cmd = PlainText cmd.parameter

flush-NoNul : (w : Bytes) → NoNul w → All NoNul (flush w)
flush-NoNul [] h = tt
flush-NoNul (c ∷ cs) h = (h, tt)

words_from-NoNul :
    (s current : Bytes) → NoNul s → NoNul current → All NoNul (words_from Stream.is_space current s)
unfolding words_from
words_from-NoNul [] current n h = flush-NoNul current h
words_from-NoNul (c ∷ cs) current n h = elim (Bool-cases (Stream.is_space c)) [
  | inl cut ↦
      rw (words_from-space Stream.is_space c cs current cut)
        (All-append NoNul (flush current) _ (flush-NoNul current h) (words_from-NoNul cs [] n.1 tt))
  | inr more ↦ rw (words_from-char Stream.is_space c cs current more) (
      words_from-NoNul cs (current ++ c ∷ []) n.1
        (All-append (λ b. b ≢ 0) current (c ∷ []) h (n.0, tt)))
]

words-NoNul : (line : Bytes) → NoNul line → All NoNul (words line)
unfolding words
words-NoNul line n = words_from-NoNul line [] n tt

module _ {boost : Boost} (laws : BoostLaws boost) where
  parse_typed-PlainText :
      (t : Pop3CommandType) (ps : List Bytes)
      → All NoNul ps
      → Accepts (parse_typed boost t ps) HasPlainText
  unfolding parse_typed
  parse_typed-PlainText unknown ps h = tt
  parse_typed-PlainText user [] h = tt
  parse_typed-PlainText user (p ∷ ps) h = h.0
  parse_typed-PlainText pass [] h = tt
  parse_typed-PlainText pass (p ∷ ps) h = h.0
  parse_typed-PlainText stat [] h = tt
  parse_typed-PlainText stat (p ∷ ps) h = tt
  parse_typed-PlainText list [] h = tt
  parse_typed-PlainText list (p ∷ ps) h = elim (Option-cases (boost.cast_uint p)) [
    | inl e ↦ rw (e, parse_typed) tt
    | inr (n, e) ↦ rw (e, parse_typed) tt
  ]
  parse_typed-PlainText retr [] h = tt
  parse_typed-PlainText retr (p ∷ ps) h = elim (Option-cases (boost.cast_uint p)) [
    | inl e ↦ rw (e, parse_typed) tt
    | inr (n, e) ↦ rw (e, parse_typed) tt
  ]
  parse_typed-PlainText dele [] h = tt
  parse_typed-PlainText dele (p ∷ ps) h = elim (Option-cases (boost.cast_uint p)) [
    | inl e ↦ rw (e, parse_typed) tt
    | inr (n, e) ↦ rw (e, parse_typed) tt
  ]
  parse_typed-PlainText noop [] h = tt
  parse_typed-PlainText noop (p ∷ ps) h = tt
  parse_typed-PlainText rset [] h = tt
  parse_typed-PlainText rset (p ∷ ps) h = tt
  parse_typed-PlainText quit [] h = tt
  parse_typed-PlainText quit (p ∷ ps) h = tt

  parse_words-PlainText :
      (v : List Bytes) (r : Variant Pop3Command ParsingError)
      → All NoNul v
      → parse_words boost v ≡ ok r
      → Accepts r HasPlainText
  unfolding parse_words
  parse_words-PlainText [] r h e = cc
  parse_words-PlainText (w ∷ ps) r h e = elim (Option-cases (boost.cast_type read_type w)) [
    | inl failed ↦
        subst (λ r. Accepts r HasPlainText) (ok-injective (rw (failed, parse_words) at e)) tt
    | inr (t, read) ↦
        subst (λ r. Accepts r HasPlainText) (ok-injective (rw (read, parse_words) at e))
          (parse_typed-PlainText t ps h.1)
  ]

  -- A line without NUL gives a command whose text holds none.
  pub parse-PlainText :
      (line : Bytes) (cmd : Pop3Command)
      → NoNul line
      → parse_pop3_command boost line ≡ ok (value cmd)
      → PlainText cmd.parameter
  unfolding parse_pop3_command
  parse-PlainText [] cmd n e = cc
  parse-PlainText (c ∷ cs) cmd n e =
      parse_words-PlainText (words (c ∷ cs)) (value cmd) (words-NoNul (c ∷ cs) n)
        (sym (parse-words laws (c ∷ cs) (λ n. cc)) ∙ e)
