-- ===== src/Server/Counted.antt =====
-- The invariant of the system, in counts over the objects that live, and what a handler has to
-- keep for one object.
use simple_pop3serv.Base.{
  ℕ, ◌+◌, ◌≤◌, ◌<◌, ◌≡◌, refl, ap, subst, Bool, true, false, ◌&&◌, List, [], ◌∷◌, ◌++◌, ltb, ◌==◌,
  one_if, arith, Bytes, length, size_mod, total, total-append, All, All-append, All-append_left,
  All-append_right, ok, ok-injective, bind-ok, Bool-cases, inl, inr,
}
use simple_pop3serv.Service.Registry.{is_active}
use simple_pop3serv.Mail.Mailbox.Total.{IsOk}
use simple_pop3serv.Session.Owner.{Owns, holds}
use simple_pop3serv.Server.{
  SocketIo, idle, reading, writing, Node, Shared, System, delete_from_sessions,
}

-- Whether a read or a write is under way.
abbrev pub is_busy : SocketIo → Bool
is_busy idle = false
is_busy (reading c) = true
is_busy (writing c) = true

-- How often the identifier stands in the list.
abbrev pub occurrences : ℕ → List ℕ → ℕ
occurrences id = total (λ (j : ℕ). one_if (j == id))

abbrev pub has_id : ℕ → Node → ℕ
has_id id n = one_if (n.session_id == id)

abbrev pub busy_with_id : ℕ → Node → ℕ
busy_with_id id n = one_if (n.session_id == id && is_busy n.io)

abbrev pub holds_name : Bytes → Node → ℕ
holds_name name n = holds n.session.mailbox name

abbrev pub AllOwn : List Node → Type 0
AllOwn = All (λ (n : Node). Owns n.session)

-- An identifier belongs to one object at most, and was given out before; the list of sessions
-- holds the objects with a read or a write under way; the active mailboxes are those that the
-- objects hold.
pub record IsCounted (y : System) : Type 0 where
  pub ids : (id : ℕ) → total (has_id id) y.objects ≤ one_if (ltb id y.counter)
  pub listed : (id : ℕ) → total (busy_with_id id) y.objects ≡ occurrences id y.shared.sessions
  pub active :
      (name : Bytes)
      → total (holds_name name) y.objects ≡ one_if (is_active y.shared.world.active name)
  pub owns : AllOwn y.objects
  pub small : length y.shared.world.disk.files < size_mod

-- What a handler that turns `n` into `n'` keeps.
pub record Balanced (g g' : Shared) (n n' : Node) : Type 0 where
  pub same_id : n'.session_id ≡ n.session_id
  pub listed :
      (id : ℕ)
      → busy_with_id id n' + occurrences id g.sessions
        ≡ busy_with_id id n + occurrences id g'.sessions
  pub active :
      (name : Bytes)
      → holds_name name n' + one_if (is_active g.world.active name)
        ≡ holds_name name n + one_if (is_active g'.world.active name)
  pub owns : Owns n'.session
  pub small : length g'.world.disk.files < size_mod

total-put :
    (f : Node → ℕ) (before after : List Node) (n n' : Node)
    → total f (before ++ n' ∷ after) + f n ≡ total f (before ++ n ∷ after) + f n'
total-put f before after n n' =
    omega (arith, total-append f before (n ∷ after), total-append f before (n' ∷ after))

pub total-at :
    (f : Node → ℕ) (before after : List Node) (n : Node)
    → total f (before ++ n ∷ after) ≡ total f (before ++ after) + f n
total-at f before after n =
    omega (arith, total-append f before (n ∷ after), total-append f before after)

module _ (before after : List Node) (n : Node) where
  -- The object at its place satisfies what all do, and the others too.
  pub AllOwn-here : AllOwn (before ++ n ∷ after) → Owns n.session
  AllOwn-here h = (All-append_right _ before (n ∷ after) h).0

  pub AllOwn-put :
      (n' : Node) → AllOwn (before ++ n ∷ after) → Owns n'.session → AllOwn (before ++ n' ∷ after)
  AllOwn-put n' h k =
      All-append _ before (n' ∷ after) (All-append_left _ before (n ∷ after) h)
        (k, (All-append_right _ before (n ∷ after) h).1)

  pub AllOwn-others : AllOwn (before ++ n ∷ after) → AllOwn (before ++ after)
  AllOwn-others h =
      All-append _ before after (All-append_left _ before (n ∷ after) h)
        (All-append_right _ before (n ∷ after) h).1

-- A balanced handler keeps the invariant of the whole.
pub Balanced-IsCounted :
    (y : System) (before after : List Node) (n n' : Node) (g : Shared)
    → y.objects ≡ before ++ n ∷ after
    → Balanced y.shared g n n'
    → IsCounted y
    → IsCounted (record y { shared = g; objects = before ++ n' ∷ after })
Balanced-IsCounted y before after n n' g at b h = record {
  ids = λ id. omega (
    arith,
    h.ids id,
    ap (total (has_id id)) at,
    ap (λ (j : ℕ). one_if (j == id)) b.same_id,
    total-put (has_id id) before after n n',
  );
  listed = λ id. omega (
    arith,
    h.listed id,
    ap (total (busy_with_id id)) at,
    b.listed id,
    total-put (busy_with_id id) before after n n',
  );
  active = λ name. omega (
    arith,
    h.active name,
    ap (total (holds_name name)) at,
    b.active name,
    total-put (holds_name name) before after n n',
  );
  owns = AllOwn-put before after n n' (subst AllOwn at h.owns) b.owns;
  small = b.small;
}

-- Deleting an identifier takes away one of its places.
pub occurrences-delete :
    (xs ys : List ℕ) (id j : ℕ)
    → delete_from_sessions xs id ≡ ok ys
    → occurrences j xs ≡ one_if (id == j) + occurrences j ys
unfolding delete_from_sessions
occurrences-delete [] ys id j e = cc
occurrences-delete (x ∷ xs) ys id j e = elim (Bool-cases (x == id)) [
  | inl same ↦
      let done : xs ≡ ys = ok-injective (rw same at e) in ground (arith, ap (occurrences j) done)
  | inr other ↦
      let (left, found, put) =
        bind-ok (delete_from_sessions xs id) (λ left. ok (x ∷ left)) (rw other at e) in
      ground (arith, occurrences-delete xs left id j found, ap (occurrences j) (ok-injective put))
]

-- An identifier that is in the list is found.
pub delete-IsOk : (xs : List ℕ) (id : ℕ) → 0 < occurrences id xs → IsOk (delete_from_sessions xs id)
unfolding delete_from_sessions
delete-IsOk [] id h = absurd (omega arith)
delete-IsOk (x ∷ xs) id h = elim (Bool-cases (x == id)) [
  | inl same ↦ rw same (xs, refl)
  | inr other ↦ rw other (let (ys, e) = delete-IsOk xs id (ground arith) in (x ∷ ys, rw e))
]
