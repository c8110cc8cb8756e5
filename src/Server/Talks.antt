-- ===== src/Server/Talks.antt =====
-- The conversation of a session as steps of the server: lines that are read and responses that are
-- written, in turn.
use simple_pop3serv.Base.{
  NoNul, All, ◌≡◌, refl, sym, ap, ◌∙◌, subst, Bool, true, false, List, [], ◌∷◌, ◌++◌, Bytes,
  if◌then◌else◌, Outcome, ok, ok-injective, bind-ok,
}
use simple_pop3serv.Protocol.Boost.{Boost, BoostLaws}
use simple_pop3serv.Service.Connect.{World, Settings}
use simple_pop3serv.Session.{Session}
use simple_pop3serv.Session.Read.{read_impl, on_written}
use simple_pop3serv.Session.Conversation.{converse, after_write}
use simple_pop3serv.Server.{
  reading, writing, Node, Shared, System, line_read, written, is_due, leave, on_line, on_response,
  handle, handled, delete_from_sessions,
}
use simple_pop3serv.Server.Plain.{PlainReach, then_plain}
use simple_pop3serv.Server.Reachable.{IsFresh}
use simple_pop3serv.Server.Safety.{handle-returns}

-- Leaving the list changes neither the session nor the world.
leave-keeps :
    (g g' : Shared) (n n' : Node)
    → leave g n ≡ ok (g', n')
    → (g'.world ≡ g.world) × (n'.session ≡ n.session)
unfolding leave
leave-keeps g g' n n' e =
    let (sessions, first, rest) = bind-ok (delete_from_sessions g.sessions n.session_id) _ e in
    let both = ok-injective rest in
    (
      ap (λ (r : Shared × Node). r.0.world) (sym both),
      ap (λ (r : Shared × Node). r.1.session) (sym both),
    )

-- What follows a written response.
abbrev after_response : Shared → Node → Session × Bool → Outcome (Shared × Node)
after_response g n p =
    if p.1
    then ok (g, record n { session = p.0; io = reading false })
    else leave g (record n { session = p.0 })

module _ {boost : Boost} (laws : BoostLaws boost) (settings : Settings) where
  written_step :
      (g : Shared) (n : Node) (p : Session × Bool)
      → on_written n.session ≡ p
      → handle boost settings written g n ≡ after_response g n p
  unfolding handle on_response
  written_step g n p e = ap (after_response g n) e

  line_step :
      (g : Shared) (n : Node) (line : Bytes) (t : Session) (w : World)
      → read_impl boost settings (record n.session { request = line }) g.world ≡ ok (t, w)
      → handle boost settings (line_read line 0) g n
        ≡ ok (
          record g { world = w },
          record n { session = t; io = writing false; last_activity_time = 0 },
        )
  unfolding handle on_line
  line_step g n line t w e = rw e refl

  module _ (world : World) (fresh : IsFresh world) (before after : List Node) where
    -- The server comes to a state in which the session at this place, and the world, are these.
    pub record Comes (s : Session) (w : World) : Type 0 where
      pub state_then : System
      pub node_then : Node
      pub reaches : PlainReach boost settings world state_then
      pub in_place : state_then.objects ≡ before ++ node_then ∷ after
      pub same_session : node_then.session ≡ s
      pub same_world : state_then.shared.world ≡ w

    -- Two steps: a line, and what follows its response.
    module _ (y : System) (n : Node) (line : Bytes) (quiet : NoNul line) (t : Session) (w : World)
        (r : PlainReach boost settings world y) (at : y.objects ≡ before ++ n ∷ after)
        (ready : n.io ≡ reading false)
        (e : read_impl boost settings (record n.session { request = line }) y.shared.world
          ≡ ok (t, w)) where
      abbrev answered : Node
      answered = record n { session = t; io = writing false; last_activity_time = 0 }

      abbrev answering : System
      answering = record y {
        shared = record y.shared { world = w };
        objects = before ++ answered ∷ after;
      }

      answering-Reach : PlainReach boost settings world answering
      unfolding is_due
      answering-Reach =
          then_plain
            (handled y (line_read line 0) before after n answered (record y.shared { world = w }) at
              (ap (λ io. is_due (line_read line 0) io n.timer) ready)
              (line_step y.shared n line t w e))
            quiet r

      response-Reach :
          (g : Shared) (n' : Node)
          → handle boost settings written answering.shared answered ≡ ok (g, n')
          → PlainReach boost settings world
              (record answering { shared = g; objects = before ++ n' ∷ after })
      unfolding is_due
      response-Reach g n' q =
          then_plain (handled answering written before after answered n' g refl refl q) tt
            answering-Reach

      response-Comes : (s : Session) → on_written t ≡ (s, false) → Comes s w
      unfolding is_due
      response-Comes s q =
          let ((g, n'), done) =
            handle-returns laws settings world fresh answering before after answered written
              answering-Reach refl refl refl in
          let (same_w, same_s) =
            leave-keeps answering.shared g (record answered { session = s }) n'
              (sym (written_step answering.shared answered (s, false) q) ∙ done) in
          record {
            state_then = record answering { shared = g; objects = before ++ n' ∷ after };
            node_then = n';
            reaches = response-Reach g n' done;
            in_place = refl;
            same_session = same_s;
            same_world = same_w;
          }

      -- The session reads on, or is given up, as in the conversation.
      round-Comes :
          (lines rs : List Bytes) (s' : Session) (w' : World) (p : Session × Bool)
          → on_written t ≡ p
          → after_write (converse boost settings lines) t.response w p ≡ ok (rs, s', w')
          → ((y : System) (n : Node) (rs : List Bytes)
              → PlainReach boost settings world y
              → y.objects ≡ before ++ n ∷ after
              → n.io ≡ reading false
              → converse boost settings lines n.session y.shared.world ≡ ok (rs, s', w')
              → Comes s' w')
          → Comes s' w'
      round-Comes lines rs s' w' (s2, true) q f rest =
          let (x, first, last) = bind-ok (converse boost settings lines s2 w) _ f in
          let n2 = record answered { session = s2; io = reading false } in
          rest (record answering { objects = before ++ n2 ∷ after }) n2 x.0
            (response-Reach answering.shared n2
              (written_step answering.shared answered (s2, true) q))
            refl refl (first ∙ ap (λ r. ok (x.0, r.1, r.2)) (ok-injective last))
      round-Comes lines rs s' w' (s2, false) q f rest =
          let both = ok-injective f in
          subst (λ (r : List Bytes × Session × World). Comes r.1 r.2) both (response-Comes s2 q)

    -- If no mailbox is active at the start and there are fewer than 2 ^ 64 files: from every state
    -- that the server reaches by lines without NUL and in which a session waits for a line, if a
    -- conversation of that session on lines without NUL returns, the server reaches by such lines
    -- a state with the session and the world that the conversation ends with, and with the other
    -- session objects as they were.
    pub converse-Comes :
        (lines rs : List Bytes) (s' : Session) (w' : World) (y : System) (n : Node)
        → All NoNul lines
        → PlainReach boost settings world y
        → y.objects ≡ before ++ n ∷ after
        → n.io ≡ reading false
        → converse boost settings lines n.session y.shared.world ≡ ok (rs, s', w')
        → Comes s' w'
    unfolding converse
    converse-Comes [] rs s' w' y n quiet r at ready e =
        let same = ok-injective e in
        record {
          state_then = y;
          node_then = n;
          reaches = r;
          in_place = at;
          same_session = ap (λ (x : List Bytes × Session × World). x.1) same;
          same_world = ap (λ (x : List Bytes × Session × World). x.2) same;
        }
    converse-Comes (line ∷ lines) rs s' w' y n quiet r at ready e =
        let (x, first, rest) =
          bind-ok (read_impl boost settings (record n.session { request = line }) y.shared.world) _
            e in
        round-Comes y n line quiet.0 x.0 x.1 r at ready first lines rs s' w' (on_written x.0) refl
          rest
          (λ z m rs reach place open_still f.
            converse-Comes lines rs s' w' z m quiet.1 reach place open_still f)
