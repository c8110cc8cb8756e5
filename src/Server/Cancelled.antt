-- ===== src/Server/Cancelled.antt =====
-- What POP3Session::cancelAll and Server::cancel leave as it was.
use simple_pop3serv.Base.{
  ℕ, ◌≡◌, refl, ap, ◌∙◌, Bool, ◌&&◌, List, [], ◌∷◌, ◌==◌, one_if, arith, total, Bool-cases, inl,
  inr,
}
use simple_pop3serv.Server.{
  SocketIo, idle, reading, writing, Node, System, cancel_node, cancel_all, cancel, is_listed,
  socket_cancel,
}
use simple_pop3serv.Server.Counted.{is_busy, has_id, busy_with_id, holds_name, IsCounted, AllOwn}

-- Cancelling marks operations, and ends none.
cancel_node-is_busy : (n : Node) → is_busy (cancel_node n).io ≡ is_busy n.io
unfolding cancel_node socket_cancel
cancel_node-is_busy n = io_busy n.io
  where
    io_busy : (io : SocketIo) → is_busy (socket_cancel io) ≡ is_busy io
    io_busy idle = refl
    io_busy (reading c) = refl
    io_busy (writing c) = refl

cancel_all-total :
    (f : Node → ℕ) (sessions : List ℕ) (ns : List Node)
    → ((n : Node) → f (cancel_node n) ≡ f n)
    → total f (cancel_all sessions ns) ≡ total f ns
unfolding cancel_all
cancel_all-total f sessions [] h = refl
cancel_all-total f sessions (n ∷ ns) h = elim (Bool-cases (is_listed sessions n.session_id)) [
  | inl yes' ↦ rw yes' (omega (arith, h n, cancel_all-total f sessions ns h))
  | inr no' ↦ rw no' (omega (arith, cancel_all-total f sessions ns h))
]

cancel_all-AllOwn :
    (sessions : List ℕ) (ns : List Node) → AllOwn ns → AllOwn (cancel_all sessions ns)
unfolding cancel_all
cancel_all-AllOwn sessions [] h = tt
cancel_all-AllOwn sessions (n ∷ ns) h = elim (Bool-cases (is_listed sessions n.session_id)) [
  | inl yes' ↦ rw yes' (unfold cancel_node in (h.0, cancel_all-AllOwn sessions ns h.1))
  | inr no' ↦ rw no' (h.0, cancel_all-AllOwn sessions ns h.1)
]

pub cancel-IsCounted : (y : System) → IsCounted y → IsCounted (cancel y)
unfolding cancel
cancel-IsCounted y h = record {
  ids = λ id. omega (
    arith,
    h.ids id,
    cancel_all-total (has_id id) y.shared.sessions y.objects (λ n. unfold cancel_node in refl),
  );
  listed = λ id.
      cancel_all-total (busy_with_id id) y.shared.sessions y.objects
        (λ n. ap (λ (b : Bool). one_if (n.session_id == id && b)) (cancel_node-is_busy n))
      ∙ h.listed id;
  active = λ name.
      cancel_all-total (holds_name name) y.shared.sessions y.objects
        (λ n. unfold cancel_node in refl)
      ∙ h.active name;
  owns = cancel_all-AllOwn y.shared.sessions y.objects h.owns;
  small = h.small;
}
