-- ===== src/Tests/ProtocolTests.antt =====
-- The parser on concrete lines.
use simple_pop3serv.Base.{◌≡◌, refl, arith, ok, value, error, Bytes, bytes, crlf, ◌++◌, bytes_eq}
use simple_pop3serv.Base.Stream
use simple_pop3serv.Base.Stream.{read_word}
use simple_pop3serv.Protocol.CommandType.{read_type, retr}
use simple_pop3serv.Protocol.Parser.{
  Pop3Command, uint, unknown_command, invalid_uint_parameter, mail_number_required,
  parse_pop3_command, parse_words, parse_typed, copy_nonempty,
}
use simple_pop3serv.Protocol.Parser.Accepted.{IsWellFormed, parse-IsWellFormed}
use simple_pop3serv.Protocol.Parser.RoundTrip.{print_command, parse-print_command}
use simple_pop3serv.Tests.SampleBoost.{
  sample_boost, sample_boost-laws, sample_split, sample_cast_type, sample_cast_uint,
}

abbrev retr_command : Pop3Command
retr_command = record { cmd_type = retr; parameter = uint 12 }

abbrev retr_line : Bytes
retr_line = bytes " RETR  12 now" ++ crlf

parse_retr : parse_pop3_command sample_boost retr_line ≡ ok (value retr_command)
unfolding parse_pop3_command parse_words parse_typed copy_nonempty read_type bytes_eq sample_split
    sample_cast_type sample_cast_uint Stream.is_space read_word
parse_retr = refl

parse_errors :
    (parse_pop3_command sample_boost (bytes "retr 12" ++ crlf) ≡ ok (error unknown_command))
    × (parse_pop3_command sample_boost (bytes "RETR" ++ crlf) ≡ ok (error mail_number_required))
    × (parse_pop3_command sample_boost (bytes "DELE x" ++ crlf) ≡ ok (error invalid_uint_parameter))
unfolding parse_pop3_command parse_words parse_typed copy_nonempty read_type bytes_eq sample_split
    sample_cast_type sample_cast_uint Stream.is_space read_word
parse_errors = (refl, refl, refl)

parse-IsWellFormed_example : IsWellFormed retr_command
parse-IsWellFormed_example = parse-IsWellFormed sample_boost-laws retr_line retr_command parse_retr

parse-print_command_example :
    parse_pop3_command sample_boost (print_command retr_command) ≡ ok (value retr_command)
parse-print_command_example = parse-print_command sample_boost-laws retr_command (omega arith)
