-- ===== src/Session.antt =====
-- POP3Session.{h,cpp}: the state of a session, and its errors. The handlers and the proofs about
-- them are in the modules below.
pub mod Reply
pub mod Anonymous
pub mod Authorized
pub mod Read
pub mod Shape
pub mod Answers
pub mod Commands
pub mod Sound
pub mod Logon
pub mod Served
pub mod Keeps
pub mod Owner
pub mod Connected
pub mod Takeover
pub mod Shrink
pub mod Close
pub mod Told
pub mod Conversation
use simple_pop3serv.Base.{
  Bool, false, Option, none, some, [], Bytes, bytes, Outcome, ok, fault, null_mailbox, ◌>>=◌,
}
use simple_pop3serv.Mail.Mailbox.{Mailbox, destroy_storages}
use simple_pop3serv.Service.Lock.{destroy_lock}
use simple_pop3serv.Service.Connect.{World}

pub data SessionState : Type 0 where
  authorization transaction update : SessionState

pub data SessionError : Type 0 where
  prohibited_for_anonymous not_registered mailbox_is_busy internal_error : SessionError
  other_mailbox_being_used already_logged no_such_message message_already_deleted : SessionError

-- `operator<<`
unfoldable pub print_session_error : SessionError → Bytes
print_session_error prohibited_for_anonymous =
    bytes "you must authorized before calling this command"
print_session_error not_registered = bytes "sorry, no mailbox for such user here"
print_session_error mailbox_is_busy = bytes "mailbox is busy at the moment, please try again later"
print_session_error internal_error = bytes "some internal error occured, please try again later"
print_session_error other_mailbox_being_used =
    bytes "you have already logged using other name, please quit from mailbox and then try again"
print_session_error already_logged = bytes "maildrop already locked"
print_session_error no_such_message = bytes "no such message"
print_session_error message_already_deleted = bytes "no such message"

-- The fields that the handlers of commands read and write. `mailbox` is a `mailbox_ptr`, null at
-- first.
pub record Session : Type 0 where
  pub state : SessionState
  pub request : Bytes
  pub response : Bytes
  pub user_name : Bytes
  pub quit_command_received : Bool
  pub mailbox : Option Mailbox

abbrev pub new_session : Session
new_session = record {
  state = authorization;
  request = [];
  response = [];
  user_name = [];
  quit_command_received = false;
  mailbox = none;
}

-- `mailbox->…`
unfoldable pub deref : Option Mailbox → Outcome Mailbox
deref none = fault null_mailbox
deref (some m) = ok m

-- `~Mailbox`: the members go in the reverse of their order, the lock and then the storages.
unfoldable pub destroy_mailbox : World → Option Mailbox → Outcome World
destroy_mailbox world none = ok world
destroy_mailbox world (some m) = do
  let unlocked = record world { active = destroy_lock world.active m.lock }
  disk ← destroy_storages m.storages unlocked.disk
  ok (record unlocked { disk = disk })
