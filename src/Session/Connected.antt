-- ===== src/Session/Connected.antt =====
-- What the answers to one command change, and the session that has taken over a mailbox.
use simple_pop3serv.Base.{
  ◌+◌, ◌<◌, ◌≡◌, refl, sym, ap, ◌∙◌, subst, inl, inr, true, false, ◌&&◌, Option, none, some, List,
  [], ◌∷◌, arith, Bytes, NoNul, bytes_eq, bytes_eq_iff, length, size_mod, one_if, All, Outcome, ok,
  fault, ◌>>=◌, Ensures, Ensures-bind, Ensures-ok, Bool-cases,
}
use simple_pop3serv.Protocol.Boost.{Boost}
use simple_pop3serv.Mail.Disk.{Disk}
use simple_pop3serv.Mail.Storage.{Storage}
use simple_pop3serv.Mail.Storage.Valid
use simple_pop3serv.Mail.Mailbox.{Mailbox}
use simple_pop3serv.Service.Registry.{ActiveMailboxes, is_active}
use simple_pop3serv.Service.Lock.{MailboxLock, held}
use simple_pop3serv.Service.Factory.Opened.{IsOpened, IsOpened-IsValid}
use simple_pop3serv.Service.Connect.{
  World, Settings, Connection, connected, operation_failed, auth_failed,
}
use simple_pop3serv.Service.Connect.Locking.{Connects}
use simple_pop3serv.Session.{
  Session, SessionState, authorization, transaction, update, destroy_mailbox,
}
use simple_pop3serv.Session.Reply.{
  set_error_response, set_simple_ok_response, put_mailbox_info_to_reponse,
}
use simple_pop3serv.Session.Anonymous.{handle_user, handle_connection, is_busy_error}
use simple_pop3serv.Session.Read.{is_authorization}
use simple_pop3serv.Session.Keeps.{Keeps, info-Keeping}
use simple_pop3serv.Session.Owner.{holds, OwnedIn, Owns, Balances, Keeps-Owns, FollowsOption-holds}

pub none_before :
    (t : SessionState) (o : Option Mailbox) → t ≡ authorization → OwnedIn t o → o ≡ none
none_before t o at h = none_in o (subst (λ (u : SessionState). OwnedIn u o) at h)
  where
    none_in : (o : Option Mailbox) → OwnedIn authorization o → o ≡ none
    none_in none h = refl
    none_in (some m) h = absurd h

pub authorization_of : (t : SessionState) → is_authorization t ≡ true → t ≡ authorization
authorization_of authorization e = refl
authorization_of transaction e = cc
authorization_of update e = cc

-- What a new connection adds to the set, the session holds.
connect-balance :
    (active : ActiveMailboxes) (name other : Bytes)
    → is_active active name ≡ false
    → one_if (bytes_eq name other) + one_if (is_active active other)
      ≡ one_if (is_active (name ∷ active) other)
unfolding is_active
connect-balance active name other free = ground (arith, bytes_eq_iff name other)

opened-IsValid :
    (d : Disk) (ss : List Storage)
    → length d.files < size_mod
    → All (IsOpened d.files) ss
    → All Valid.IsValid ss
opened-IsValid d [] small h = tt
opened-IsValid d (s ∷ ss) small h =
    ((IsOpened-IsValid d s small h.0).0, opened-IsValid d ss small h.1)

pub Balances-cleared :
    (s : Session) (world : World) (r : Outcome (Session × World))
    → Ensures (Balances (record s { response = [] }) world) r
    → Ensures (Balances s world) r
Balances-cleared s world (ok r) b = record {
  owns = b.owns;
  balance = b.balance;
  same_files = b.same_files;
}
Balances-cleared s world (fault e) b = tt

module _ (boost : Boost) (settings : Settings) where
  -- The first thing that a session with a new mailbox does is to answer.
  pub connected_step :
      (s : Session) (world' : World) (m : Mailbox)
      → s.mailbox ≡ none
      → handle_connection boost settings s (world', connected m) ≡ (
          put_mailbox_info_to_reponse boost world'.disk
            (record s { mailbox = some m; state = transaction })
          >>= λ s'. ok (s', world'))
  unfolding handle_connection destroy_mailbox
  connected_step s world' m e = rw (e, handle_connection)

module _ (boost : Boost) (settings : Settings) where
  pub error-Balances :
      (s : Session) (world world' : World) (err : Bytes)
      → Owns s
      → world'.active ≡ world.active
      → world'.disk.files ≡ world.disk.files
      → Balances s world (set_error_response boost s err, world')
  unfolding set_error_response
  error-Balances s world world' err h same files = record {
    owns = record { owned = h.owned; plain_name = h.plain_name };
    balance = λ name.
        ap (λ (a : ActiveMailboxes). holds s.mailbox name + one_if (is_active a name)) (sym same);
    same_files = files;
  }

  pub simple-Balances :
      (s : Session) (world : World) (mesg : Bytes)
      → Owns s
      → Balances s world (set_simple_ok_response boost s mesg, world)
  unfolding set_simple_ok_response
  simple-Balances s world mesg h = record {
    owns = record { owned = h.owned; plain_name = h.plain_name };
    balance = λ name. refl;
    same_files = refl;
  }

  pub handle_user-Balances :
      (s : Session) (world : World) (name : Bytes)
      → NoNul name
      → Owns s
      → Balances s world (handle_user boost settings s name, world)
  unfolding handle_user set_simple_ok_response
  handle_user-Balances s world name plain h =
      elim (Bool-cases (settings.manager.verify_name name)) [
        | inl known ↦ rw known (record {
          owns = record { owned = h.owned; plain_name = plain };
          balance = λ name. refl;
          same_files = refl;
        })
        | inr strange ↦ rw strange (error-Balances s world world _ h refl refl)
      ]

  -- The session that has taken over a mailbox, after its answer.
  connected-Balances :
      (s s' : Session) (world world' : World) (m : Mailbox)
      → s.mailbox ≡ none
      → Owns s
      → length world.disk.files < size_mod
      → Connects world s.user_name (world', connected m)
      → Keeps (record s { mailbox = some m; state = transaction }) s'
      → Balances s world (s', world')
  connected-Balances s s' world world' m before h small c k = record {
    owns =
        Keeps-Owns (record s { mailbox = some m; state = transaction }) s' k
          (record {
            owned = record {
              valid =
                  opened-IsValid world'.disk m.storages
                    (subst (λ n. n < size_mod) (ap length (sym c.2)) small) c.5;
              locked = c.4 ∙ ap held (sym c.3);
              plain = subst NoNul (sym c.3) h.plain_name;
            };
            plain_name = h.plain_name;
          });
    balance = λ name. omega (
      arith,
      FollowsOption-holds (some m) s'.mailbox name k.follows,
      ap (λ (lock : MailboxLock). one_if (lock.acquired && bytes_eq lock.name name)) c.4,
      ap (λ (o : Option Mailbox). holds o name) before,
      ap (λ (a : ActiveMailboxes). one_if (is_active a name)) c.1,
      connect-balance world.active s.user_name name c.0,
    );
    same_files = c.2;
  }

  pub handle_connection-Balances :
      (s : Session) (world : World) (r : World × Connection)
      → s.mailbox ≡ none
      → Owns s
      → length world.disk.files < size_mod
      → Connects world s.user_name r
      → Ensures (Balances s world) (handle_connection boost settings s r)
  handle_connection-Balances s world (world', connected m) before h small c =
      let t : Session = record s { mailbox = some m; state = transaction } in
      let put = put_mailbox_info_to_reponse boost world'.disk t in
      subst (Ensures (Balances s world)) (sym (connected_step boost settings s world' m before)) (
        Ensures-bind (Balances s world) put (λ s'. ok (s', world'))
          (λ s' e.
            connected-Balances s s' world world' m before h small c
              (Ensures-ok (Keeps t) put s' (info-Keeping boost world'.disk t) e)))
  handle_connection-Balances s world (world', operation_failed e) before h small c =
      unfold handle_connection in
      elim (Bool-cases (is_busy_error e)) [
        | inl busy ↦ rw busy (error-Balances s world world' _ h c.0 c.1)
        | inr other ↦ rw other (error-Balances s world world' _ h c.0 c.1)
      ]
  handle_connection-Balances s world (world', auth_failed e) before h small c =
      unfold handle_connection in error-Balances s world world' _ h c.0 c.1
