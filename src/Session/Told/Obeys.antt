-- ===== src/Session/Told/Obeys.antt =====
-- What a handler has to bring about for one command: the reply of the maildrop, and a mailbox that
-- stands for the maildrop after the request.
use simple_pop3serv.Base.{
  ◌≡◌, ◌<◌, sym, ap, ◌∙◌, subst, Bool, true, false, ◌||◌, Option, some, List, map, append-nil,
  arith, Bytes, size_mod, All, Outcome, ok,
}
use simple_pop3serv.Protocol.Boost.{Boost, BoostLaws}
use simple_pop3serv.Protocol.CommandType.{Pop3CommandType, quit}
use simple_pop3serv.Protocol.Parser.{Parameter}
use simple_pop3serv.Mail.Disk.{Disk, FilePath, read_file}
use simple_pop3serv.Mail.SizeMap.{sum_values}
use simple_pop3serv.Mail.Storage.Listing.{listed}
use simple_pop3serv.Mail.Mailbox.{
  Mailbox, get_emails_count, get_emails_lengths, get_whole_mailbox_size,
}
use simple_pop3serv.Mail.Mailbox.Listing.{
  AllPresent, OnlyLastMarked, listing, total_emails, get_emails_lengths-listing,
}
use simple_pop3serv.Mail.Mailbox.Maildrop.{Maildrop, unmarked, respond, all_after}
use simple_pop3serv.Mail.Mailbox.Maildrop.Calls.{Represents, count_single}
use simple_pop3serv.Mail.Mailbox.Maildrop.View.{unmarked-view}
use simple_pop3serv.Session.{Session}
use simple_pop3serv.Session.Reply.{put_mailbox_info_to_reponse, mailbox_info}
use simple_pop3serv.Session.Authorized.{list_all, listing_response}
use simple_pop3serv.Session.Told.{scan_listing, request_of, told, octets, scan_lines, status}
use simple_pop3serv.Session.Told.Texts.{
  sum_values-listed, list_lines-listed, length-listed-unmarked, info-text, listing-text,
}

abbrev pub is_quit : Pop3CommandType → Bool
is_quit quit = true
is_quit _ = false

module _ (disk : Disk) (emails : List FilePath) where
  -- The contents of the mails.
  abbrev pub contents : List (Option Bytes)
  contents = map (read_file disk) emails

  -- The session after a command of a user who is logged on.
  pub record Obeys (update all : Bool) (s : Session) (d : Maildrop) (t : Pop3CommandType)
      (p : Parameter) (s' : Session) : Type 0 where
    pub mailbox_after : Mailbox
    pub has : s'.mailbox ≡ some mailbox_after
    pub represents :
        Represents disk emails
          (all_after all (request_of t p))
          update
          mailbox_after
          (respond d (request_of t p)).0
    pub reply : s'.response ≡ told s.user_name contents d t p
    pub same_state : s'.state ≡ s.state
    pub same_user : s'.user_name ≡ s.user_name
    pub quits : s'.quit_command_received ≡ (s.quit_command_received || is_quit t)

  -- What is asked of the result of a handler.
  abbrev pub IsTold :
      Bool → Bool → Session → Maildrop → Pop3CommandType → Parameter → Outcome Session → Type 0
  IsTold update all s d t p r = (s' : Session) × (r ≡ ok s') × Obeys update all s d t p s'

-- What a mailbox that stands for a maildrop lists.
module _ (disk : Disk) (emails : List FilePath) (all update : Bool) (m : Mailbox) (d : Maildrop)
    (h : Represents disk emails all update m d) where
  count-Represents : get_emails_count m ≡ unmarked d
  count-Represents =
      count_single disk h.storage h.valid h.there m h.single
      ∙ sym (unmarked-view disk h.storage h.valid)
      ∙ ap unmarked h.looks

  listing-Represents :
      (get_emails_lengths disk m ≡ ok (listed disk h.storage 0 0 h.storage.emails))
      × (get_whole_mailbox_size disk m ≡ ok (octets 0 d))
  listing-Represents =
      let one : listing disk m.storages 0 ≡ listed disk h.storage 0 0 h.storage.emails =
        ap (λ ss. listing disk ss 0) h.single
        ∙ append-nil (listed disk h.storage 0 0 h.storage.emails) in
      let (lengths, same, size) =
        get_emails_lengths-listing disk m (subst (All _) (sym h.single) (h.valid, tt))
          (subst (AllPresent disk) (sym h.single) (h.there, tt))
          (subst OnlyLastMarked (sym h.single) tt)
          (subst (λ ss. total_emails ss < size_mod) (sym h.single)
            (omega (arith, h.valid.bounded))) in
      (
        lengths ∙ ap ok one,
        size
            ∙ ap (λ l. ok (sum_values 0 l)) one
            ∙ ap ok (sum_values-listed disk h.storage 0 0 h.storage.emails)
            ∙ ap (λ d. ok (octets 0 d)) h.looks,
      )

module _ {boost : Boost} (laws : BoostLaws boost) (disk : Disk) (emails : List FilePath)
    (all update : Bool) (m : Mailbox) (d : Maildrop)
    (h : Represents disk emails all update m d) where
  -- The answer with the count and the size.
  pub info-Represents :
      (s : Session)
      → s.mailbox ≡ some m
      → put_mailbox_info_to_reponse boost disk s ≡ ok (record s { response = status s.user_name d })
  unfolding put_mailbox_info_to_reponse
  info-Represents s has =
      let count = count-Represents disk emails all update m d h in
      let size = (listing-Represents disk emails all update m d h).1 in
      rw (has, size, put_mailbox_info_to_reponse)
        (ap (λ r. ok (record s { response = r; mailbox = some m }))
          (ap (λ n. mailbox_info boost s.user_name n (octets 0 d)) count
            ∙ info-text laws s.user_name d))

  -- The answer with the listing.
  pub list_all-Represents :
      (s : Session)
      → s.mailbox ≡ some m
      → list_all boost disk s ≡ ok (record s { response = scan_listing d })
  unfolding list_all
  list_all-Represents s has =
      let count = count-Represents disk emails all update m d h in
      let (lengths, size) = listing-Represents disk emails all update m d h in
      let mails = listed disk h.storage 0 0 h.storage.emails in
      rw (has, lengths, size, list_all)
        (ap (λ r. ok (record s { response = r; mailbox = some m }))
          (ap (λ n. listing_response boost n (octets 0 d) mails) count
            ∙ listing-text laws d mails
                (length-listed-unmarked disk h.storage 0 h.storage.emails ∙ ap unmarked h.looks)
                (list_lines-listed disk h.storage 0 h.storage.emails ∙ ap (scan_lines 0) h.looks)))
