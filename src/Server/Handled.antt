-- ===== src/Server/Handled.antt =====
-- Every handler of a session keeps its share of the invariant, and finds the session in the list.
use simple_pop3serv.Base.{
  NoNul, ℕ, ◌+◌, ◌<◌, ◌-◌, ◌≡◌, refl, ap, subst, Bool, true, false, ◌&&◌, arith, Bytes, ltb, ◌==◌,
  one_if, Bool-cases, inl, inr, length, size_mod, Outcome, Ensures, Ensures-ok, Ensures-bind, sym,
}
use simple_pop3serv.Mail.Mailbox.Total.{IsOk, IsOk-bind}
use simple_pop3serv.Protocol.Boost.{Boost}
use simple_pop3serv.Service.Registry.{is_active}
use simple_pop3serv.Service.Connect.{Settings}
use simple_pop3serv.Session.{Session}
use simple_pop3serv.Session.Read.{read_impl, on_written}
use simple_pop3serv.Protocol.Boost.{BoostLaws}
use simple_pop3serv.Server.Plain.{PlainEvent}
use simple_pop3serv.Session.Keeps.{Keeps, Keeps-only, on_written-Keeps}
use simple_pop3serv.Session.Owner.{Owns, Balances, Keeps-Owns, FollowsOption-holds}
use simple_pop3serv.Session.Takeover.{read_impl-Balances}
use simple_pop3serv.Server.{
  SocketIo, idle, reading, writing, Wait, finished, waiting, Node, Shared, Event, read_failed,
  write_failed, written, timer_aborted, timer_failed, line_read, timer_expired, is_due, timeout,
  delete_from_sessions, leave, on_line, on_response, on_timer, handle, socket_cancel,
}
use simple_pop3serv.Server.Counted.{is_busy, occurrences, Balanced, occurrences-delete, delete-IsOk}

-- If the handler returns, what it returns is balanced against what it got.
abbrev Balancing : Shared → Node → Outcome (Shared × Node) → Type 0
Balancing g n = Ensures (λ (r : Shared × Node). Balanced g r.0 n r.1)

-- A session whose mailbox follows, and a socket and a timer as they may be.
stays :
    (g : Shared) (n : Node) (s : Session) (io : SocketIo) (timer : Wait) (now : ℕ)
    → Keeps n.session s
    → is_busy io ≡ is_busy n.io
    → Owns n.session
    → length g.world.disk.files < size_mod
    → Balanced g g n (record {
      session_id = n.session_id;
      session = s;
      io = io;
      timer = timer;
      last_activity_time = now;
    })
stays g n s io timer now k busy h small = record {
  same_id = refl;
  listed =
      λ id. ap (λ (b : Bool). one_if (n.session_id == id && b) + occurrences id g.sessions) busy;
  active = λ name.
      ap (λ (k : ℕ). k + one_if (is_active g.world.active name))
        (FollowsOption-holds n.session.mailbox s.mailbox name k.follows);
  owns = Keeps-Owns n.session s k h;
  small = small;
}

Keeps-self : (s : Session) → Keeps s s
Keeps-self s = Keeps-only s s refl

-- A session that ends, whatever its last response has set.
leave-Balancing :
    (g : Shared) (n : Node) (s : Session)
    → Keeps n.session s
    → is_busy n.io ≡ true
    → Owns n.session
    → length g.world.disk.files < size_mod
    → Balancing g n (leave g (record n { session = s }))
unfolding leave
leave-Balancing g n s k busy h small =
    Ensures-bind (λ (r : Shared × Node). Balanced g r.0 n r.1)
      (delete_from_sessions g.sessions n.session_id) _
      (λ sessions e. record {
        same_id = refl;
        listed = λ id. ground (arith, occurrences-delete g.sessions sessions n.session_id id e);
        active = λ name.
            ap (λ (k : ℕ). k + one_if (is_active g.world.active name))
              (FollowsOption-holds n.session.mailbox s.mailbox name k.follows);
        owns = Keeps-Owns n.session s k h;
        small = small;
      })

-- Whether the event is the end of a read or a write.
abbrev is_io : Event → Bool
is_io read_failed = true
is_io write_failed = true
is_io written = true
is_io (line_read request now) = true
is_io _ = false

abbrev pub is_line : Event → Bool
is_line (line_read request now) = true
is_line _ = false

due-is_busy :
    (ev : Event) (io : SocketIo) (t : Wait)
    → is_io ev ≡ true
    → is_due ev io t ≡ true
    → is_busy io ≡ true
unfolding is_due
due-is_busy ev io t i d = ground arith

leave-IsOk : (g : Shared) (n : Node) → 0 < occurrences n.session_id g.sessions → IsOk (leave g n)
unfolding leave
leave-IsOk g n listed =
    IsOk-bind (delete_from_sessions g.sessions n.session_id) _
      (delete-IsOk g.sessions n.session_id listed) (λ sessions. (_, refl))

module _ (g : Shared) (n : Node) (owns : Owns n.session)
    (small : length g.world.disk.files < size_mod) where
  on_response-Balancing : is_busy n.io ≡ true → Balancing g n (on_response g n)
  unfolding on_response
  on_response-Balancing busy = elim (Bool-cases (on_written n.session).1) [
    | inl again ↦ rw again (
        stays g n (on_written n.session).0 (reading false) n.timer n.last_activity_time
          (on_written-Keeps n.session) (sym busy) owns small)
    | inr last ↦
        rw last (
          leave-Balancing g n (on_written n.session).0 (on_written-Keeps n.session) busy owns small)
  ]

  socket_cancel-is_busy : (io : SocketIo) → is_busy (socket_cancel io) ≡ is_busy io
  unfolding socket_cancel
  socket_cancel-is_busy idle = refl
  socket_cancel-is_busy (reading c) = refl
  socket_cancel-is_busy (writing c) = refl

  on_timer-Balancing : (now : ℕ) → Balancing g n (on_timer now g n)
  unfolding on_timer
  on_timer-Balancing now = elim (Bool-cases (ltb timeout (now - n.last_activity_time))) [
    | inl late ↦ rw late (
        stays g n n.session (socket_cancel n.io) finished n.last_activity_time
          (Keeps-self n.session) (socket_cancel-is_busy n.io) owns small)
    | inr early ↦ rw early (
        stays g n n.session n.io (waiting false) n.last_activity_time (Keeps-self n.session) refl
          owns small)
  ]

  on_response-IsOk : 0 < occurrences n.session_id g.sessions → IsOk (on_response g n)
  unfolding on_response
  on_response-IsOk listed = elim (Bool-cases (on_written n.session).1) [
    | inl again ↦ rw again (_, refl)
    | inr last ↦ rw last (leave-IsOk g (record n { session = (on_written n.session).0 }) listed)
  ]

  on_timer-IsOk : (now : ℕ) → IsOk (on_timer now g n)
  unfolding on_timer
  on_timer-IsOk now = elim (Bool-cases (ltb timeout (now - n.last_activity_time))) [
    | inl late ↦ rw late (_, refl)
    | inr early ↦ rw early (_, refl)
  ]

  module _ {boost : Boost} (laws : BoostLaws boost) (settings : Settings) where
    on_line-Balancing :
        (request : Bytes) (now : ℕ)
        → NoNul request
        → is_busy n.io ≡ true
        → Balancing g n (on_line boost settings request now g n)
    unfolding on_line
    on_line-Balancing request now plain busy =
        let s : Session = record n.session { request = request } in
        Ensures-bind (λ (r : Shared × Node). Balanced g r.0 n r.1)
          (read_impl boost settings s g.world) _
          (λ r e.
            let b =
              Ensures-ok (Balances s g.world) (read_impl boost settings s g.world) r
                (read_impl-Balances boost settings laws s g.world plain
                  (record { owned = owns.owned; plain_name = owns.plain_name }) small)
                e in
            record {
              same_id = refl;
              listed = λ id.
                  ap (λ (b : Bool). one_if (n.session_id == id && b) + occurrences id g.sessions)
                    (sym busy);
              active = b.balance;
              owns = b.owns;
              small = subst (λ k. k < size_mod) (ap length (sym b.same_files)) small;
            })

    -- Whatever operation of a session ends, the handler that runs keeps its share.
    pub handle-Balancing :
        (ev : Event)
        → PlainEvent ev
        → is_due ev n.io n.timer ≡ true
        → Balancing g n (handle boost settings ev g n)
    unfolding handle
    handle-Balancing read_failed plain due =
        leave-Balancing g n n.session (Keeps-self n.session)
          (due-is_busy read_failed n.io n.timer refl due) owns small
    handle-Balancing write_failed plain due =
        leave-Balancing g n n.session (Keeps-self n.session)
          (due-is_busy write_failed n.io n.timer refl due) owns small
    handle-Balancing written plain due =
        on_response-Balancing (due-is_busy written n.io n.timer refl due)
    handle-Balancing timer_aborted plain due =
        stays g n n.session n.io finished n.last_activity_time (Keeps-self n.session) refl owns
          small
    handle-Balancing timer_failed plain due =
        stays g n n.session n.io (waiting false) n.last_activity_time (Keeps-self n.session) refl
          owns small
    handle-Balancing (line_read request now) plain due =
        on_line-Balancing request now plain
          (due-is_busy (line_read request now) n.io n.timer refl due)
    handle-Balancing (timer_expired now) plain due = on_timer-Balancing now

    -- The handlers but that of a line return, since the session is in the list.
    pub handle-IsOk :
        (ev : Event)
        → is_line ev ≡ false
        → is_due ev n.io n.timer ≡ true
        → (is_busy n.io ≡ true → 0 < occurrences n.session_id g.sessions)
        → IsOk (handle boost settings ev g n)
    unfolding handle
    handle-IsOk read_failed other due listed =
        leave-IsOk g n (listed (due-is_busy read_failed n.io n.timer refl due))
    handle-IsOk write_failed other due listed =
        leave-IsOk g n (listed (due-is_busy write_failed n.io n.timer refl due))
    handle-IsOk written other due listed =
        on_response-IsOk (listed (due-is_busy written n.io n.timer refl due))
    handle-IsOk timer_aborted other due listed = (_, refl)
    handle-IsOk timer_failed other due listed = (_, refl)
    handle-IsOk (line_read request now) other due listed = cc
    handle-IsOk (timer_expired now) other due listed = on_timer-IsOk now
