-- ===== src/Protocol/Status.antt =====
-- POP3Common/POP3Status.h: the status words, and their stream operators.
use simple_pop3serv.Base.{[], if◌then◌else◌, Bytes, bytes, bytes_eq}
use simple_pop3serv.Base.Stream.{read_word}

pub data Pop3Status : Type 0 where
  status_ok status_err status_unknown : Pop3Status

-- `operator<<`; the default case writes nothing.
unfoldable pub print_status : Pop3Status → Bytes
print_status status_ok = bytes "+OK"
print_status status_err = bytes "-ERR"
print_status status_unknown = []

-- `operator>>`: the value, and what is left in the stream.
unfoldable pub read_status : Bytes → Pop3Status × Bytes
read_status s =
    let (w, rest) = read_word s in
    (
      if bytes_eq w (bytes "+OK")
          then status_ok
          else if bytes_eq w (bytes "-ERR")
          then status_err
          else status_unknown,
      rest,
    )
