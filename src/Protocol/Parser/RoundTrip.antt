-- ===== src/Protocol/Parser/RoundTrip.antt =====
-- The line that a client sends for a command is parsed to that command.
use simple_pop3serv.Base.{
  ℕ, ◌≡◌, ◌≢◌, refl, ap, ◌∙◌, subst, false, some, List, [], ◌∷◌, ◌++◌, arith, Bytes, crlf, All, ok,
  Variant, value,
}
use simple_pop3serv.Base.Stream.{NoSpace}
use simple_pop3serv.Base.Stream
use simple_pop3serv.Base.Decimal.{decimal, IsDigit, decimal-IsDigit, decimal-ne-nil}
use simple_pop3serv.Protocol.CommandType.{
  Pop3CommandType, unknown, user, pass, stat, list, retr, dele, noop, rset, quit, read_type,
  print_type, print_type-NoSpace, print_type-ne-nil, read_type-print_type,
}
use simple_pop3serv.Protocol.Boost.{Boost, BoostLaws}
use simple_pop3serv.Protocol.Parser.{
  Pop3Command, Parameter, monostate, uint, text, ParsingError, parse_typed, parse_words,
  parse_pop3_command,
}
use simple_pop3serv.Protocol.Parser.Words.{words, IsWord, words-IsBlank, words-word}
use simple_pop3serv.Protocol.Parser.Accepted.{Fits, IsWellFormed, parse-words}

-- The words behind the command word that stand for a parameter.
abbrev pub print_parameter : Parameter → List Bytes
print_parameter monostate = []
print_parameter (uint n) = decimal n ∷ []
print_parameter (text s) = s ∷ []

abbrev pub print_words : List Bytes → Bytes
print_words [] = crlf
print_words (w ∷ ws) = (32 ∷ w) ++ print_words ws

-- A client's line for a command: its word, its parameter after a space, and CR LF.
unfoldable pub print_command : Pop3Command → Bytes
print_command cmd = print_type cmd.cmd_type ++ print_words (print_parameter cmd.parameter)

words-print_words :
    (w : Bytes) (ws : List Bytes) → IsWord w → All IsWord ws → words (w ++ print_words ws) ≡ w ∷ ws
unfolding Stream.is_space
words-print_words w [] h hs =
    words-word w 13 (10 ∷ []) h refl ∙ ap (◌∷◌ w) (words-IsBlank (10 ∷ []) (refl, tt))
words-print_words w (x ∷ ws) h hs =
    words-word w 32 (x ++ print_words ws) h refl ∙ ap (◌∷◌ w) (words-print_words x ws hs.0 hs.1)

digit-not-space : (c : ℕ) → IsDigit c → Stream.is_space c ≡ false
unfolding Stream.is_space
digit-not-space c h = ground arith

digits-NoSpace : (s : Bytes) → All IsDigit s → NoSpace s
digits-NoSpace [] h = tt
digits-NoSpace (c ∷ cs) h = (digit-not-space c h.0, digits-NoSpace cs h.1)

decimal-IsWord : (n : ℕ) → IsWord (decimal n)
decimal-IsWord n = (decimal-ne-nil n, digits-NoSpace (decimal n) (decimal-IsDigit n))

print_parameter-IsWord :
    (t : Pop3CommandType) (p : Parameter) → Fits t p → All IsWord (print_parameter p)
print_parameter-IsWord t monostate h = tt
print_parameter-IsWord t (uint n) h = (decimal-IsWord n, tt)
print_parameter-IsWord user (text s) h = (h, tt)
print_parameter-IsWord pass (text s) h = (h, tt)
print_parameter-IsWord unknown (text s) h = absurd h
print_parameter-IsWord stat (text s) h = absurd h
print_parameter-IsWord list (text s) h = absurd h
print_parameter-IsWord retr (text s) h = absurd h
print_parameter-IsWord dele (text s) h = absurd h
print_parameter-IsWord noop (text s) h = absurd h
print_parameter-IsWord rset (text s) h = absurd h
print_parameter-IsWord quit (text s) h = absurd h

print_type-IsWord : (t : Pop3CommandType) → t ≢ unknown → IsWord (print_type t)
print_type-IsWord t h = (print_type-ne-nil t h, print_type-NoSpace t)

append-ne-nil : (w rest : Bytes) → w ≢ [] → w ++ rest ≢ []
append-ne-nil [] rest h = absurd (h refl)
append-ne-nil (c ∷ cs) rest h = λ e. cc

Fits-known : (t : Pop3CommandType) (p : Parameter) → Fits t p → t ≢ unknown
Fits-known t p h e = subst (λ u. Fits u p) e h

module _ {boost : Boost} (laws : BoostLaws boost) where
  cast_type-print_type :
      (t : Pop3CommandType) → t ≢ unknown → boost.cast_type read_type (print_type t) ≡ some t
  cast_type-print_type t h =
      let read : read_type (print_type t) ≡ (t, []) =
        (read_type-print_type (print_type t) t (print_type-NoSpace t) h).1 refl in
      laws.cast_type-word read_type (print_type t) (print_type-ne-nil t h) (print_type-NoSpace t)
        (ap (λ (r : Pop3CommandType × Bytes). r.1) read)
      ∙ ap (λ (r : Pop3CommandType × Bytes). some r.0) read

  parse_typed-print_parameter :
      (t : Pop3CommandType) (p : Parameter)
      → Fits t p
      → parse_typed boost t (print_parameter p) ≡ value (record { cmd_type = t; parameter = p })
  unfolding parse_typed
  parse_typed-print_parameter unknown p h = absurd h
  parse_typed-print_parameter user (text s) h = refl
  parse_typed-print_parameter user monostate h = absurd h
  parse_typed-print_parameter user (uint n) h = absurd h
  parse_typed-print_parameter pass (text s) h = refl
  parse_typed-print_parameter pass monostate h = absurd h
  parse_typed-print_parameter pass (uint n) h = absurd h
  parse_typed-print_parameter list (text s) h = absurd h
  parse_typed-print_parameter list (uint n) h = rw (laws.cast_uint-decimal n h, parse_typed)
  parse_typed-print_parameter list monostate h = refl
  parse_typed-print_parameter dele (text s) h = absurd h
  parse_typed-print_parameter dele (uint n) h = rw (laws.cast_uint-decimal n h, parse_typed)
  parse_typed-print_parameter dele monostate h = refl
  parse_typed-print_parameter retr (uint n) h = rw (laws.cast_uint-decimal n h, parse_typed)
  parse_typed-print_parameter retr monostate h = absurd h
  parse_typed-print_parameter retr (text s) h = absurd h
  parse_typed-print_parameter stat monostate h = refl
  parse_typed-print_parameter stat (uint n) h = absurd h
  parse_typed-print_parameter stat (text s) h = absurd h
  parse_typed-print_parameter noop monostate h = refl
  parse_typed-print_parameter noop (uint n) h = absurd h
  parse_typed-print_parameter noop (text s) h = absurd h
  parse_typed-print_parameter rset monostate h = refl
  parse_typed-print_parameter rset (uint n) h = absurd h
  parse_typed-print_parameter rset (text s) h = absurd h
  parse_typed-print_parameter quit monostate h = refl
  parse_typed-print_parameter quit (uint n) h = absurd h
  parse_typed-print_parameter quit (text s) h = absurd h

  parse_words-print :
      (t : Pop3CommandType) (p : Parameter)
      → t ≢ unknown
      → Fits t p
      → parse_words boost (print_type t ∷ print_parameter p)
        ≡ ok (value (record { cmd_type = t; parameter = p }))
  unfolding parse_words
  parse_words-print t p known h =
      rw (cast_type-print_type t known, parse_words)
        (ap (λ (r : Variant Pop3Command ParsingError). ok r) (parse_typed-print_parameter t p h))

  -- Every well-formed command is what its line is parsed to.
  pub parse-print_command :
      (cmd : Pop3Command)
      → IsWellFormed cmd
      → parse_pop3_command boost (print_command cmd) ≡ ok (value cmd)
  unfolding print_command
  parse-print_command cmd h =
      let known : cmd.cmd_type ≢ unknown = Fits-known cmd.cmd_type cmd.parameter h in
      parse-words laws (print_command cmd)
        (append-ne-nil (print_type cmd.cmd_type) _ (print_type-ne-nil cmd.cmd_type known))
      ∙ ap (parse_words boost) (
          words-print_words (print_type cmd.cmd_type) (print_parameter cmd.parameter)
            (print_type-IsWord cmd.cmd_type known)
            (print_parameter-IsWord cmd.cmd_type cmd.parameter h))
      ∙ parse_words-print cmd.cmd_type cmd.parameter known h
