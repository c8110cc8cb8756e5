-- ===== src/Server/Particular.antt =====
-- `POP3Session::cancelParticular`, which no code calls: with iterators into the list of sessions.
use simple_pop3serv.Base.{
  ℕ, ◌≤◌, ◌≡◌, refl, inl, inr, true, false, List, [], ◌∷◌, map, ◌==◌, if◌then◌else◌, arith,
  Bool-cases, Outcome, ok, fault, ◌>>=◌, iterator_erased, end_dereferenced, total,
}
use simple_pop3serv.Protocol.Boost.{Boost, BoostLaws}
use simple_pop3serv.Service.Connect.{World, Settings}
use simple_pop3serv.Server.{Node, System, delete_from_sessions, is_listed, cancel_node}
use simple_pop3serv.Server.Counted.{occurrences, has_id, busy_with_id}
use simple_pop3serv.Server.Safety.{sessions-listed_once, occurrences-is_listed}
use simple_pop3serv.Server.Plain.{PlainReach}
use simple_pop3serv.Server.Reachable.{IsFresh}

-- An iterator into the list: at the session with an identifier, or `cend()`.
pub data SessionIterator : Type 0 where
  at_session : ℕ → SessionIterator
  past_end : SessionIterator

-- std::find_if
unfoldable pub find_session : List ℕ → ℕ → SessionIterator
find_session [] id = past_end
find_session (j ∷ sessions) id =
    let rest = find_session sessions id in if j == id then at_session j else rest

-- `if (it != sessions.cend()) sessions.erase(it)`
abbrev pub erase_found : List ℕ → SessionIterator → Outcome (List ℕ)
erase_found sessions past_end = ok sessions
erase_found sessions (at_session id) = delete_from_sessions sessions id

-- `*it`
abbrev pub session_at : List ℕ → SessionIterator → Outcome ℕ
session_at sessions past_end = fault end_dereferenced
session_at sessions (at_session id) = if is_listed sessions id then ok id else fault iterator_erased

unfoldable pub cancel_particular : List ℕ → List Node → ℕ → Outcome (List ℕ × List Node)
unfolding find_session
cancel_particular sessions objects id = do
  left ← erase_found sessions (find_session sessions id)
  found ← session_at left (find_session sessions id)
  ok (left, map (λ (n : Node). if n.session_id == found then cancel_node n else n) objects)

find_session-unlisted :
    (id : ℕ) (sessions : List ℕ)
    → is_listed sessions id ≡ false
    → find_session sessions id ≡ past_end
unfolding find_session is_listed
find_session-unlisted id [] e = refl
find_session-unlisted id (j ∷ sessions) e = ground (arith, find_session-unlisted id sessions)

find_session-listed :
    (id : ℕ) (sessions : List ℕ)
    → is_listed sessions id ≡ true
    → find_session sessions id ≡ at_session id
unfolding find_session is_listed
find_session-listed id [] e = cc
find_session-listed id (j ∷ sessions) e = ground (arith, find_session-listed id sessions)

-- An identifier that stands in the list once is gone when it is erased.
erased :
    (id : ℕ) (sessions : List ℕ)
    → occurrences id sessions ≤ 1
    → is_listed sessions id ≡ true
    → (left : List ℕ) × (delete_from_sessions sessions id ≡ ok left) × (is_listed left id ≡ false)
unfolding delete_from_sessions is_listed
erased id [] once listed = cc
erased id (j ∷ sessions) once listed = elim (Bool-cases (j == id)) [
  | inl here ↦ (sessions, rw here refl, occurrences-is_listed id sessions (ground (arith, here)))
  | inr other ↦
      let (left, e, gone) = erased id sessions (ground (arith, other)) (ground (arith, other)) in
      (j ∷ left, rw (other, e) refl, rw other gone)
]

busy-le :
    (id : ℕ) (objects : List Node) → total (busy_with_id id) objects ≤ total (has_id id) objects
busy-le id [] = omega arith
busy-le id (n ∷ objects) = ground (arith, busy-le id objects)

cancel_particular-listed :
    (sessions : List ℕ) (objects : List Node) (id : ℕ)
    → occurrences id sessions ≤ 1
    → is_listed sessions id ≡ true
    → cancel_particular sessions objects id ≡ fault iterator_erased
unfolding cancel_particular
cancel_particular-listed sessions objects id once listed =
    let (left, e, gone) = erased id sessions once listed in
    rw (find_session-listed id sessions listed, e, gone) refl

cancel_particular-unlisted :
    (sessions : List ℕ) (objects : List Node) (id : ℕ)
    → is_listed sessions id ≡ false
    → cancel_particular sessions objects id ≡ fault end_dereferenced
unfolding cancel_particular
cancel_particular-unlisted sessions objects id e = rw (find_session-unlisted id sessions e) refl

-- If no mailbox is active at the start and there are fewer than 2 ^ 64 files: in every state that the server reaches by lines without NUL, cancelParticular faults for every
-- identifier; for one that is in the list it reads the iterator that it has erased, and for any
-- other it reads the end of the list.
pub cancel_particular-faults :
    {boost : Boost} (laws : BoostLaws boost) (settings : Settings) (world : World)
    (fresh : IsFresh world) (y : System)
    → PlainReach boost settings world y
    → (id : ℕ)
    → cancel_particular y.shared.sessions y.objects id
      ≡ fault (if is_listed y.shared.sessions id then iterator_erased else end_dereferenced)
cancel_particular-faults laws settings world fresh y r id =
    let (few, counted) = sessions-listed_once laws settings world fresh y r id in
    let once : occurrences id y.shared.sessions ≤ 1 =
      omega (arith, few, counted, busy-le id y.objects) in
    elim (Bool-cases (is_listed y.shared.sessions id)) [
      | inl listed ↦ rw listed (cancel_particular-listed y.shared.sessions y.objects id once listed)
      | inr unlisted ↦
          rw unlisted (cancel_particular-unlisted y.shared.sessions y.objects id unlisted)
    ]
