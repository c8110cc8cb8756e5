-- ===== src/Mail/Mailbox/Maildrop.antt =====
-- What a mailbox promises, apart from how it stores it: a row of mails, each with its size and a
-- flag, and what the requests of a client answer. How Mailbox.cpp implements it is below.
pub mod View
pub mod Deletion
pub mod Calls
pub mod Update
pub mod Refines
use simple_pop3serv.Base.{
  ℕ, zero, suc, ◌+◌, Bool, true, false, Option, none, some, List, [], ◌∷◌, map, ltb, if◌then◌else◌,
  get_elem?,
}
use simple_pop3serv.Mail.Errors.{
  MailboxOperationError, no_error, email_not_found, mail_is_marked_as_deleted,
  email_already_deleted,
}

pub record Mail : Type 0 where
  pub size : ℕ
  pub marked : Bool

abbrev pub Maildrop : Type 0
Maildrop = List Mail

-- The mails that are not marked.
abbrev pub unmarked : Maildrop → ℕ
unmarked [] = 0
unmarked (x ∷ xs) = let rest = unmarked xs in if x.marked then rest else suc rest

abbrev pub with_mark : Bool → Mail → Mail
with_mark b x = record x { marked = b }

abbrev pub mark : ℕ → Maildrop → Maildrop
mark n [] = []
mark zero (x ∷ xs) = with_mark true x ∷ xs
mark (suc n) (x ∷ xs) = x ∷ mark n xs

-- The requests to a maildrop, with mails numbered from zero.
pub data Request : Type 0 where
  count undo remove_all : Request
  size_of_mail remove : ℕ → Request

pub data Reply : Type 0 where
  number : ℕ → Reply
  result : MailboxOperationError → Reply
  done : Reply

abbrev pub size_reply : Option Mail → Reply
size_reply none = result email_not_found
size_reply (some x) = if x.marked then result mail_is_marked_as_deleted else number x.size

abbrev pub remove_reply : Option Mail → Reply
remove_reply none = result email_not_found
remove_reply (some x) = if x.marked then result email_already_deleted else result no_error

-- A number counts as long as it is below the number of mails that are not marked.
abbrev pub mail_at : Maildrop → ℕ → Option Mail
mail_at d n = if ltb n (unmarked d) then get_elem? d n else none

abbrev pub after_remove : Maildrop → ℕ → Maildrop
after_remove d n = if ltb n (unmarked d) then mark n d else d

abbrev pub respond : Maildrop → Request → Maildrop × Reply
respond d count = (d, number (unmarked d))
respond d (size_of_mail n) = (d, size_reply (mail_at d n))
respond d (remove n) = (after_remove d n, remove_reply (mail_at d n))
respond d remove_all = (map (with_mark true) d, done)
respond d undo = (map (with_mark false) d, done)

-- The replies to a sequence of requests.
abbrev pub replies : Maildrop → List Request → List Reply
replies d [] = []
replies d (r ∷ rs) = (respond d r).1 ∷ replies (respond d r).0 rs

-- Whether all mails stand deleted at once after the request.
abbrev pub all_after : Bool → Request → Bool
all_after all remove_all = true
all_after all undo = false
all_after all count = all
all_after all (size_of_mail n) = all
all_after all (remove n) = all
