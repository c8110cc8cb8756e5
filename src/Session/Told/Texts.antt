-- ===== src/Session/Told/Texts.antt =====
-- The texts that the handlers build, as those that a client is told.
use simple_pop3serv.Base.{
  Option, none, some, Variant, value, error, ℕ, ◌+◌, ◌%◌, size_mod, ◌↔◌, ◌≡◌, refl, sym, ap, subst,
  inl, inr, true, false, ◌==◌, List, [], ◌∷◌, ◌++◌, append_assoc, append-nil, if◌then◌else◌, arith,
  length, Bytes, bytes, bytes_eq, bytes_eq_iff, c_str, crlf, Bool-cases,
}
use simple_pop3serv.Protocol.Boost.{Boost, BoostLaws}
use simple_pop3serv.Protocol.Status.{print_status}
use simple_pop3serv.Mail.Disk.{Disk, FilePath}
use simple_pop3serv.Mail.SizeMap.{SizeMap, sum_values}
use simple_pop3serv.Mail.Storage.{Storage, is_mail_marked_as_deleted}
use simple_pop3serv.Mail.Storage.Listing.{listed, size_of}
use simple_pop3serv.Mail.Mailbox.Maildrop.{unmarked}
use simple_pop3serv.Mail.Mailbox.Maildrop.View.{view_from}
use simple_pop3serv.Mail.Mailbox.Maildrop.Calls.{length_reply}
use simple_pop3serv.Mail.Errors.{MailboxOperationError}
use simple_pop3serv.Mail.Storage.{or_internal_error}
use simple_pop3serv.Session.{Session, print_session_error}
use simple_pop3serv.Session.Reply.{
  set_error_response, set_simple_ok_response, ok_word, err_word, mailbox_info,
}
use simple_pop3serv.Session.Authorized.{
  listing_response, answer_length, answer_email, confirm_user, list_lines, list_body, with_crlf,
}
use simple_pop3serv.Session.Told.{
  scan_listing, user_line, length_line, octets, scan_lines, closed, positive, negative, status,
  content_text,
}
use simple_pop3serv.Mail.Mailbox.Maildrop.{Maildrop}

module _ (disk : Disk) (s : Storage) where
  pub sum_values-listed :
      (sum i : ℕ) (ps : List FilePath)
      → sum_values sum (listed disk s 0 i ps) ≡ octets sum (view_from disk s i ps)
  unfolding sum_values
  sum_values-listed sum i [] = refl
  sum_values-listed sum i (p ∷ ps) = elim (Bool-cases (is_mail_marked_as_deleted s i)) [
    | inl marked ↦ rw marked (sum_values-listed sum (i + 1) ps)
    | inr free ↦ rw free (sum_values-listed ((sum + size_of disk p) % size_mod) (i + 1) ps)
  ]

  pub list_lines-listed :
      (i : ℕ) (ps : List FilePath)
      → list_lines (listed disk s 0 i ps) ≡ scan_lines i (view_from disk s i ps)
  unfolding list_lines
  list_lines-listed i [] = refl
  list_lines-listed i (p ∷ ps) = elim (Bool-cases (is_mail_marked_as_deleted s i)) [
    | inl marked ↦ rw marked (list_lines-listed (i + 1) ps)
    | inr free ↦
        let here : i + 0 ≡ i = omega arith in rw free (rw (here, list_lines-listed (i + 1) ps))
  ]

  pub length-listed-unmarked :
      (i : ℕ) (ps : List FilePath)
      → length (listed disk s 0 i ps) ≡ unmarked (view_from disk s i ps)
  length-listed-unmarked i [] = refl
  length-listed-unmarked i (p ∷ ps) = elim (Bool-cases (is_mail_marked_as_deleted s i)) [
    | inl marked ↦ rw marked (length-listed-unmarked (i + 1) ps)
    | inr free ↦ rw free (ground (arith, length-listed-unmarked (i + 1) ps))
  ]

pub list_body-lines :
    (m : SizeMap) → list_body m ≡ (if length m == 0 then [] else list_lines m ++ bytes "." ++ crlf)
unfolding list_body
list_body-lines [] = refl
list_body-lines (p ∷ m) =
    let some_line : (length (p ∷ m) == 0) ≡ false = ground arith in rw some_line

-- The text ends with CR LF where the Boolean says so.
pub closed_iff : (s : Bytes) → (closed s ≡ true) ↔ ((front : Bytes) × (s ≡ front ++ crlf))
unfolding bytes_eq
closed_iff s = (there s, λ h. subst (λ t. closed t ≡ true) (sym h.1) (back h.0))
  where
    there : (s : Bytes) → closed s ≡ true → (front : Bytes) × (s ≡ front ++ crlf)
    there [] h = cc
    there (c ∷ cs) h = elim (Bool-cases (bytes_eq (c ∷ cs) crlf)) [
      | inl whole ↦ ([], (bytes_eq_iff (c ∷ cs) crlf).0 whole)
      | inr more ↦ let (front, e) = there cs (rw more at h) in (c ∷ front, ap (◌∷◌ c) e)
    ]

    back : (front : Bytes) → closed (front ++ crlf) ≡ true
    back [] = refl
    back (c ∷ cs) = rw (back cs) (ground arith)

module _ {boost : Boost} (laws : BoostLaws boost) where
  pub ok_word-text : ok_word boost ≡ bytes "+OK"
  unfolding ok_word print_status
  ok_word-text = laws.cast_string-written _

  pub err_word-text : err_word boost ≡ bytes "-ERR"
  unfolding err_word print_status
  err_word-text = laws.cast_string-written _

  ends_with-closed : (s : Bytes) → boost.ends_with s crlf ≡ closed s
  ends_with-closed s = ground (arith, laws.ends_with-iff s crlf, closed_iff s)

  pub with_crlf-closed : (s : Bytes) → with_crlf boost s ≡ s ++ (if closed s then [] else crlf)
  unfolding with_crlf
  with_crlf-closed s =
      rw (ends_with-closed s)
        (elim (Bool-cases (closed s)) [ inl e ↦ rw e (sym (append-nil s)) | inr e ↦ rw e ])

  -- The text of `setErrorResponse`.
  pub error-text :
      (s : Session) (err : Bytes) → (set_error_response boost s err).response ≡ negative err
  unfolding set_error_response
  error-text s err = rw (err_word-text, laws.cast_string-written err) refl

  -- The text of `putMailboxInfoToReponse`.
  pub info-text :
      (name : Bytes) (d : Maildrop)
      → mailbox_info boost name (unmarked d) (octets 0 d) ≡ status name d
  unfolding mailbox_info
  info-text name d = rw ok_word-text (simp append_assoc)

  pub length-text :
      (s : Session) (n : ℕ) (r : Variant ℕ MailboxOperationError)
      → (answer_length boost s n r).response ≡ length_line n (length_reply r)
  unfolding answer_length print_session_error
  length-text s n (error e) = error-text s _
  length-text s n (value size) = rw ok_word-text (simp append_assoc)

  pub email-text :
      (s : Session) (size : ℕ) (content : Option Bytes)
      → (answer_email boost s size (or_internal_error content)).response ≡ content_text size content
  unfolding answer_email print_session_error
  email-text s size none = error-text s _
  email-text s size (some content) = rw (ok_word-text, with_crlf-closed content) (simp append_assoc)

  pub listing-text :
      (d : Maildrop) (m : SizeMap)
      → length m ≡ unmarked d
      → list_lines m ≡ scan_lines 0 d
      → listing_response boost (unmarked d) (octets 0 d) m ≡ scan_listing d
  unfolding listing_response
  listing-text d m count lines =
      rw (ok_word-text, list_body-lines m, count, lines) (simp append_assoc)

  pub confirm-text :
      (s : Session) (name : Bytes)
      → (confirm_user boost s name).response ≡ user_line s.user_name name
  unfolding confirm_user print_session_error
  confirm-text s name = elim (Bool-cases (bytes_eq s.user_name name)) [
    | inl same ↦ rw (same, ok_word-text) (simp append_assoc)
    | inr other ↦ rw other (error-text s _)
  ]

  -- The text of `setSimpleOkResponse` without a message.
  pub simple-text : (s : Session) → (set_simple_ok_response boost s []).response ≡ positive []
  unfolding set_simple_ok_response c_str
  simple-text s = rw ok_word-text refl

  pub signing_off-text :
      (s : Session)
      → (set_simple_ok_response boost s (bytes "POP3 server signing off")).response
        ≡ positive (bytes " POP3 server signing off")
  unfolding set_simple_ok_response c_str
  signing_off-text s = rw ok_word-text refl
