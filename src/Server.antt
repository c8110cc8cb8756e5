-- ===== src/Server.antt =====
-- The server as a whole: Common/Server.h accepts connections, and POP3Server/source/POP3Session.cpp
-- with its header keeps the sessions alive. Boost.Asio calls the handlers; which operation ends
-- goes_on, and how, is an event. The proofs are in the modules below.
pub mod Counted
pub mod Plain
pub mod Handled
pub mod Cancelled
pub mod Reachable
pub mod Safety
pub mod Drain
pub mod Busy
pub mod Console
pub mod Run
pub mod Particular
pub mod Talks
use simple_pop3serv.Base.{
  ℕ, ◌+◌, ◌-◌, ◌%◌, ◌<◌, ◌≡◌, Bool, true, false, not, ◌&&◌, ◌||◌, Option, none, some, List, [], ◌∷◌,
  ◌++◌, map, ltb, ◌==◌, if◌then◌else◌, Bytes, size_mod, Outcome, ok, fault, end_erased, ◌>>=◌,
}
use simple_pop3serv.Protocol.Boost.{Boost}
use simple_pop3serv.Service.Connect.{World, Settings}
use simple_pop3serv.Session.{Session, new_session, destroy_mailbox}
use simple_pop3serv.Session.Read.{read_impl, on_written}

-- The asynchronous operation of a socket that is under way. The flag says that the socket has been
-- cancelled since it began.
pub data SocketIo : Type 0 where
  idle : SocketIo
  reading writing : Bool → SocketIo

-- A wait of a timer or of the acceptor.
pub data Wait : Type 0 where
  finished : Wait
  waiting : Bool → Wait

-- socket.cancel()
unfoldable pub socket_cancel : SocketIo → SocketIo
socket_cancel idle = idle
socket_cancel (reading c) = reading true
socket_cancel (writing c) = writing true

-- timer.cancel(), acceptor.cancel()
unfoldable pub wait_cancel : Wait → Wait
wait_cancel finished = finished
wait_cancel (waiting c) = waiting true

-- A POP3Session object. It lives as long as the list of sessions or a handler refers to it.
pub record Node : Type 0 where
  pub session_id : ℕ
  pub session : Session
  pub io : SocketIo
  pub timer : Wait
  pub last_activity_time : ℕ

-- What the handlers of all sessions share: the world, and the list `sessions` by its identifiers.
pub record Shared : Type 0 where
  pub world : World
  pub sessions : List ℕ

pub record System : Type 0 where
  pub shared : Shared
  pub counter : ℕ
  pub objects : List Node
  pub acceptor : Wait

-- POP3Session::Timeout in nanoseconds.
abbrev pub timeout : ℕ
timeout = 60000000000

-- `deleteFromSessions`: find_if and erase.
unfoldable pub delete_from_sessions : List ℕ → ℕ → Outcome (List ℕ)
delete_from_sessions [] id = fault end_erased
delete_from_sessions (j ∷ sessions) id =
    let rest = delete_from_sessions sessions id in
    if j == id then ok sessions else (rest >>= λ left. ok (j ∷ left))

unfoldable pub is_listed : List ℕ → ℕ → Bool
is_listed [] id = false
is_listed (j ∷ sessions) id = j == id || is_listed sessions id

-- The constructor, and the operations that `read()` and `startTimer()` begin.
abbrev pub new_node : ℕ → ℕ → Node
new_node id now = record {
  session_id = id;
  session = new_session;
  io = reading false;
  timer = waiting false;
  last_activity_time = now;
}

-- `CreateSession`: the session is put in front of the list.
abbrev pub create_session : Shared → ℕ → Shared
create_session g id = record g { sessions = id ∷ g.sessions }

-- The handler behind `async_accept` without an error: `serve()` accepts again, and a session is
-- created, reads, and starts its timer.
unfoldable pub accept_session : ℕ → System → System
accept_session now y = record y {
  shared = create_session y.shared y.counter;
  counter = (y.counter + 1) % size_mod;
  objects = new_node y.counter now ∷ y.objects;
  acceptor = waiting false;
}

-- The body of `cancelAll` for one session.
unfoldable pub cancel_node : Node → Node
unfolding socket_cancel wait_cancel
cancel_node n = record n { io = socket_cancel n.io; timer = wait_cancel n.timer }

unfoldable pub cancel_all : List ℕ → List Node → List Node
unfolding is_listed cancel_node
cancel_all sessions =
    map (λ (n : Node). if is_listed sessions n.session_id then cancel_node n else n)

-- `Server::cancel`
unfoldable pub cancel : System → System
unfolding cancel_all
cancel y = record y {
  objects = cancel_all y.shared.sessions y.objects;
  acceptor = wait_cancel y.acceptor;
}

-- How an operation of a session ends: an error of a read or a write, a line, a written response,
-- and the three outcomes that the handler of the timer tells apart.
pub data Event : Type 0 where
  read_failed write_failed written timer_aborted timer_failed : Event
  line_read : Bytes → ℕ → Event
  timer_expired : ℕ → Event

-- Whether the operation that the event ends is under way.
unfoldable pub is_due : Event → SocketIo → Wait → Bool
is_due read_failed (reading c) t = true
is_due (line_read request now) (reading c) t = true
is_due write_failed (writing c) t = true
is_due written (writing c) t = true
is_due (timer_expired now) io (waiting c) = true
is_due timer_failed io (waiting c) = true
is_due timer_aborted io (waiting c) = c
is_due _ io t = false

-- The end of a session's reads and writes: it is deleted from the list.
unfoldable pub leave : Shared → Node → Outcome (Shared × Node)
unfolding delete_from_sessions
leave g n = do
  sessions ← delete_from_sessions g.sessions n.session_id
  ok (record g { sessions = sessions }, record n { io = idle })

-- The handler behind `async_write`.
unfoldable pub on_response : Shared → Node → Outcome (Shared × Node)
unfolding leave
on_response g n =
    let (s, again) = on_written n.session in
    if again
    then ok (g, record n { session = s; io = reading false })
    else leave g (record n { session = s })

-- The handler behind `timer.async_wait`, without an error.
unfoldable pub on_timer : ℕ → Shared → Node → Outcome (Shared × Node)
unfolding socket_cancel
on_timer now g n =
    if ltb timeout (now - n.last_activity_time)
    then ok (g, record n { io = socket_cancel n.io; timer = finished })
    else ok (g, record n { timer = waiting false })

module _ (boost : Boost) (settings : Settings) where
  -- The handler behind `async_read_until`, with what has been read.
  unfoldable pub on_line : Bytes → ℕ → Shared → Node → Outcome (Shared × Node)
  on_line request now g n = do
    (s, world) ← read_impl boost settings (record n.session { request = request }) g.world
    ok (
      record g { world = world },
      record n { session = s; io = writing false; last_activity_time = now },
    )

  unfoldable pub handle : Event → Shared → Node → Outcome (Shared × Node)
  unfolding leave on_line on_response on_timer
  handle read_failed g n = leave g n
  handle (line_read request now) g n = on_line request now g n
  handle write_failed g n = leave g n
  handle written g n = on_response g n
  handle (timer_expired now) g n = on_timer now g n
  handle timer_aborted g n = ok (g, record n { timer = finished })
  handle timer_failed g n = ok (g, record n { timer = waiting false })

-- No operation refers to the object.
unfoldable pub is_released : SocketIo → Wait → Bool
is_released idle finished = true
is_released _ _ = false

-- The server after `serve()`, with no connection.
abbrev pub start : World → System
start world = record {
  shared = record { world = world; sessions = [] };
  counter = 0;
  objects = [];
  acceptor = waiting false;
}

-- One step: a connection is accepted (fewer than 2 ^ 64 ever are), the acceptor goes on after an
-- error or stops when it is aborted, an
-- operation of a session ends and its handler returns, an object that nothing refers to is
-- destroyed, or the server is cancelled.
pub data Step (boost : Boost) (settings : Settings) : System → System → Type 0 where
  accepted :
      (y : System) (c : Bool) (now : ℕ)
      → y.acceptor ≡ waiting c
      → y.counter + 1 < size_mod
      → Step boost settings y (accept_session now y)
  accept_failed :
      (y : System) (c : Bool)
      → y.acceptor ≡ waiting c
      → Step boost settings y (record y { acceptor = waiting false })
  accept_aborted :
      (y : System)
      → y.acceptor ≡ waiting true
      → Step boost settings y (record y { acceptor = finished })
  handled :
      (y : System) (ev : Event) (before after : List Node) (n n' : Node) (g : Shared)
      → y.objects ≡ before ++ n ∷ after
      → is_due ev n.io n.timer ≡ true
      → handle boost settings ev y.shared n ≡ ok (g, n')
      → Step boost settings y (record y { shared = g; objects = before ++ n' ∷ after })
  destroyed :
      (y : System) (before after : List Node) (n : Node) (world : World)
      → y.objects ≡ before ++ n ∷ after
      → is_released n.io n.timer ≡ true
      → is_listed y.shared.sessions n.session_id ≡ false
      → destroy_mailbox y.shared.world n.session.mailbox ≡ ok world
      → Step boost settings y
          (record y { shared = record y.shared { world = world }; objects = before ++ after })
  server_cancelled : (y : System) → Step boost settings y (cancel y)

pub data Reach (boost : Boost) (settings : Settings) (world : World) : System → Type 0 where
  started : Reach boost settings world (start world)
  goes_on :
      {y z : System}
      → Step boost settings y z
      → Reach boost settings world y
      → Reach boost settings world z
