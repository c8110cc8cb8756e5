-- ===== src/Session/Shape.antt =====
-- The form of a response: a status word at its start and CR LF at its end.
use simple_pop3serv.Base.{
  ℕ, ◌≡◌, refl, sym, ap, ◌∙◌, Bool, true, false, [], ◌∷◌, ◌++◌, append_assoc, append-nil, Bytes,
  bytes, bytes_eq, crlf, Bool-cases, inl, inr, Variant, value, error,
}
use simple_pop3serv.Protocol.Boost.{Boost, BoostLaws}
use simple_pop3serv.Protocol.Status.{print_status}
use simple_pop3serv.Mail.Errors.{MailboxOperationError}
use simple_pop3serv.Mail.SizeMap.{SizeMap}
use simple_pop3serv.Session.{Session}
use simple_pop3serv.Session.Reply.{
  ok_word, err_word, set_error_response, set_simple_ok_response, mailbox_info,
}
use simple_pop3serv.Session.Authorized.{
  list_lines, list_body, listing_response, answer_length, answer_email, confirm_user,
}

abbrev pub status_word : Bool → Bytes
status_word true = bytes "+OK"
status_word false = bytes "-ERR"

pub record Starts (r : Bytes) : Type 0 where
  pub positive : Bool
  pub rest : Bytes
  pub begins : r ≡ status_word positive ++ rest

pub record Ends (r : Bytes) : Type 0 where
  pub front : Bytes
  pub closes : r ≡ front ++ crlf

-- The response begins with "+OK" or "-ERR" and ends with CR LF.
pub record IsReply (r : Bytes) : Type 0 where
  pub starts : Starts r
  pub ends : Ends r

Starts-append : (r x : Bytes) → Starts r → Starts (r ++ x)
Starts-append r x h = record {
  positive = h.positive;
  rest = h.rest ++ x;
  begins = ap (λ s. s ++ x) h.begins ∙ append_assoc (status_word h.positive) h.rest x;
}

Ends-append : (r x : Bytes) → Ends x → Ends (r ++ x)
Ends-append r x h = record {
  front = r ++ h.front;
  closes = ap (◌++◌ r) h.closes ∙ sym (append_assoc r h.front crlf);
}

Ends-crlf : (r : Bytes) → Ends (r ++ crlf)
Ends-crlf r = record { front = r; closes = refl }

-- The body of a listing keeps the end of the line before it.
pub Ends-list_body : (m : SizeMap) (r : Bytes) → Ends r → Ends (r ++ list_body m)
unfolding list_body
Ends-list_body [] r h = record { front = h.front; closes = append-nil r ∙ h.closes }
Ends-list_body (p ∷ m) r h = Ends-append r (list_lines (p ∷ m) ++ bytes "." ++ crlf) (Ends-crlf _)

module _ {boost : Boost} (laws : BoostLaws boost) where
  pub Starts-ok_word : Starts (ok_word boost)
  unfolding ok_word print_status
  Starts-ok_word = record { positive = true; rest = []; begins = laws.cast_string-written _ }

  Starts-err_word : Starts (err_word boost)
  unfolding err_word print_status
  Starts-err_word = record { positive = false; rest = []; begins = laws.cast_string-written _ }

  pub set_error_response-IsReply :
      (s : Session) (err : Bytes) → IsReply (set_error_response boost s err).response
  unfolding set_error_response
  set_error_response-IsReply s err = record {
    starts = search (Starts-append, Starts-err_word) depth 12;
    ends = Ends-crlf _;
  }

  pub set_simple_ok_response-IsReply :
      (s : Session) (mesg : Bytes) → IsReply (set_simple_ok_response boost s mesg).response
  unfolding set_simple_ok_response
  set_simple_ok_response-IsReply s mesg = record {
    starts = search (Starts-append, Starts-ok_word) depth 12;
    ends = Ends-crlf _;
  }

  pub mailbox_info-IsReply :
      (user_name : Bytes) (count size : ℕ) → IsReply (mailbox_info boost user_name count size)
  unfolding mailbox_info
  mailbox_info-IsReply user_name count size = record {
    starts = search (Starts-append, Starts-ok_word) depth 12;
    ends = Ends-crlf _;
  }

  pub answer_length-IsReply :
      (s : Session) (number : ℕ) (r : Variant ℕ MailboxOperationError)
      → IsReply (answer_length boost s number r).response
  unfolding answer_length
  answer_length-IsReply s number (error e) = set_error_response-IsReply s _
  answer_length-IsReply s number (value size) = record {
    starts = search (Starts-append, Starts-ok_word) depth 12;
    ends = Ends-crlf _;
  }

  pub answer_email-IsReply :
      (s : Session) (size : ℕ) (r : Variant Bytes MailboxOperationError)
      → IsReply (answer_email boost s size r).response
  unfolding answer_email
  answer_email-IsReply s size (error e) = set_error_response-IsReply s _
  answer_email-IsReply s size (value content) = record {
    starts = search (Starts-append, Starts-ok_word) depth 12;
    ends = Ends-crlf _;
  }

  pub confirm_user-IsReply :
      (s : Session) (name : Bytes) → IsReply (confirm_user boost s name).response
  unfolding confirm_user
  confirm_user-IsReply s name = elim (Bool-cases (bytes_eq s.user_name name)) [
    | inl same ↦
        rw same
          (record { starts = search (Starts-append, Starts-ok_word) depth 12; ends = Ends-crlf _ })
    | inr other ↦ rw other (set_error_response-IsReply s _)
  ]

  pub listing_response-IsReply :
      (count size : ℕ) (m : SizeMap) → IsReply (listing_response boost count size m)
  unfolding listing_response
  listing_response-IsReply count size m = record {
    starts = search (Starts-append, Starts-ok_word) depth 12;
    ends = Ends-list_body m _ (Ends-crlf _);
  }
