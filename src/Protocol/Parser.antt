-- ===== src/Protocol/Parser.antt =====
-- POP3Common/POP3Command.h: a command with its parameter, the parsing errors, and the parser of a
-- command line. The proofs are in the modules below.
pub mod Words
pub mod Accepted
pub mod Plain
pub mod RoundTrip
use simple_pop3serv.Base.{
  ℕ, ◌&&◌, ◌||◌, Bool, true, false, not, Option, none, some, List, [], ◌∷◌, if◌then◌else◌, Bytes,
  bytes, Outcome, ok, fault, out_of_range, Variant, value, error,
}
use simple_pop3serv.Protocol.CommandType.{
  Pop3CommandType, unknown, user, pass, list, retr, dele, noop, type_eq, read_type,
}
use simple_pop3serv.Protocol.Boost.{Boost}

-- std::variant<std::monostate, unsigned int, std::string>
pub data Parameter : Type 0 where
  monostate : Parameter
  uint : ℕ → Parameter
  text : Bytes → Parameter

pub record Pop3Command : Type 0 where
  pub cmd_type : Pop3CommandType
  pub parameter : Parameter

-- The default constructor.
abbrev pub new_command : Pop3Command
new_command = record { cmd_type = noop; parameter = monostate }

unfoldable pub supports_uint_parameter : Pop3CommandType → Bool
unfolding type_eq
supports_uint_parameter t = type_eq t list || type_eq t retr || type_eq t dele

unfoldable pub support_string_parameter : Pop3CommandType → Bool
unfolding type_eq
support_string_parameter t = type_eq t user || type_eq t pass

abbrev pub holds_text : Parameter → Bool
holds_text (text s) = true
holds_text _ = false

abbrev pub holds_uint : Parameter → Bool
holds_uint (uint n) = true
holds_uint _ = false

pub data ParsingError : Type 0 where
  empty_string invalid_format unknown_command invalid_uint_parameter : ParsingError
  user_name_required password_required mail_number_required : ParsingError

-- `operator<<`
unfoldable pub print_parsing_error : ParsingError → Bytes
print_parsing_error empty_string = bytes "empty line has been sent"
print_parsing_error invalid_format = bytes "command line has invalid format"
print_parsing_error unknown_command = bytes "unknown command"
print_parsing_error invalid_uint_parameter =
    bytes "expected integer parameter, but received something else"
print_parsing_error user_name_required = bytes "user name required"
print_parsing_error password_required = bytes "password required"
print_parsing_error mail_number_required = bytes "in RETR command mail number required"

abbrev pub is_empty : Bytes → Bool
is_empty [] = true
is_empty (c ∷ cs) = false

-- std::copy_if with `!s.empty()`
unfoldable pub copy_nonempty : List Bytes → List Bytes
copy_nonempty [] = []
copy_nonempty ([] ∷ vv) = copy_nonempty vv
copy_nonempty ((c ∷ s) ∷ vv) = (c ∷ s) ∷ copy_nonempty vv

-- The tests on the parsed command behind the reading of the parameter.
unfoldable pub require_parameter : Pop3Command → Variant Pop3Command ParsingError
unfolding type_eq
require_parameter cmd =
    if type_eq cmd.cmd_type user && not (holds_text cmd.parameter)
    then error user_name_required
    else if type_eq cmd.cmd_type pass && not (holds_text cmd.parameter)
    then error password_required
    else if type_eq cmd.cmd_type retr && not (holds_uint cmd.parameter)
    then error mail_number_required
    else value cmd

module _ (boost : Boost) where
  -- `if (v.size() > 1)`, on the words after the first.
  unfoldable pub read_parameter : Pop3CommandType → List Bytes → Variant Parameter ParsingError
  unfolding supports_uint_parameter support_string_parameter
  read_parameter t [] = value monostate
  read_parameter t (p ∷ ps) =
      if supports_uint_parameter t
      then elim (boost.cast_uint p) [
        | none ↦ error invalid_uint_parameter
        | some n ↦ value (uint n)
      ]
      else if support_string_parameter t
      then value (text p)
      else value monostate

  -- Everything behind the reading of the command word.
  unfoldable pub parse_typed : Pop3CommandType → List Bytes → Variant Pop3Command ParsingError
  unfolding read_parameter require_parameter
  parse_typed t ps =
      if type_eq t unknown then error unknown_command else elim (read_parameter t ps) [
        | error e ↦ error e
        | value p ↦ require_parameter (record { cmd_type = t; parameter = p })
      ]

  -- On the nonempty pieces `v`. `v[0]` of an empty vector is out of range.
  unfoldable pub parse_words : List Bytes → Outcome (Variant Pop3Command ParsingError)
  parse_words [] = fault out_of_range
  parse_words (w ∷ ps) = elim (boost.cast_type read_type w) [
    | none ↦ ok (error unknown_command)
    | some t ↦ ok (parse_typed t ps)
  ]

  unfoldable pub parse_pop3_command : Bytes → Outcome (Variant Pop3Command ParsingError)
  parse_pop3_command cmd_line =
      if is_empty cmd_line
      then ok (error empty_string)
      else parse_words (copy_nonempty (boost.split boost.is_space cmd_line))
