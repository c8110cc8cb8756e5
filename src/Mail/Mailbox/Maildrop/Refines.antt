-- ===== src/Mail/Mailbox/Maildrop/Refines.antt =====
-- A mailbox of one storage answers any sequence of requests as its maildrop does.
use simple_pop3serv.Base.{
  ℕ, ◌≡◌, refl, sym, ap, ◌∙◌, subst, inl, inr, Bool, true, false, List, [], ◌∷◌, map, ltb,
  if◌then◌else◌, arith, Bool-cases, All, ok,
}
use simple_pop3serv.Mail.Disk.{Disk, FilePath}
use simple_pop3serv.Mail.Errors.{email_not_found}
use simple_pop3serv.Mail.Storage.{Storage, contains, is_mail_marked_as_deleted}
use simple_pop3serv.Mail.Storage
use simple_pop3serv.Mail.Storage.Valid.{
  IsValid, delete_email-IsValid, delete_emails-IsValid, reset-IsValid,
}
use simple_pop3serv.Mail.Storage.Listing.{IsPresent}
use simple_pop3serv.Mail.Mailbox.{
  Mailbox, delete_email, delete_emails, reset, find_storage, delete_in,
}
use simple_pop3serv.Mail.Mailbox.Maildrop.{
  Maildrop, Request, count, undo, remove_all, size_of_mail, remove, number, respond, replies,
  all_after,
}
use simple_pop3serv.Mail.Mailbox.Maildrop.View.{
  view, view_from, view_from-mark, view_from-all, unmarked-view,
}
use simple_pop3serv.Mail.Mailbox.Maildrop.Calls.{
  call, calls, Represents, mail_at-view, mail_at-none, size_reply-view, below_count, count_single,
}
use simple_pop3serv.Mail.Mailbox.Maildrop.Deletion.{delete_email-effect}

module _ (disk : Disk) where
  module _ (s : Storage) (v : IsValid s) (there : All (IsPresent disk) s.emails) where
    -- What the request does to a mailbox that holds the storage, and the view of the result.
    abbrev Matches : Mailbox → Request → Type 0
    Matches m r =
        (m' : Mailbox) × (call disk m r ≡ ok (m', (respond (view disk s) r).1))
        × Represents disk s.emails (all_after s.delete_all r) s.update_at_close m'
            (respond (view disk s) r).0

    pub still :
        (m : Mailbox)
        → m.storages ≡ s ∷ []
        → Represents disk s.emails s.delete_all s.update_at_close m (view disk s)
    still m single = record {
      storage = s;
      single = single;
      valid = v;
      there = there;
      looks = refl;
      same_emails = refl;
      same_all = refl;
      same_update = refl;
    }

    deleted_at :
        (m : Mailbox) (n : ℕ)
        → m.storages ≡ s ∷ []
        → delete_email m n ≡ (
            if ltb n (Storage.get_emails_count s)
            then (
              record m { storages = (Storage.delete_email s n).0 ∷ [] },
              (Storage.delete_email s n).1,
            )
            else (m, email_not_found))
    unfolding delete_email find_storage delete_in
    deleted_at m n single = rw single (ground arith)

    remove-Matches : (m : Mailbox) (n : ℕ) → m.storages ≡ s ∷ [] → Matches m (remove n)
    remove-Matches m n single = elim (Bool-cases (ltb n (Storage.get_emails_count s))) [
      | inl low ↦
          let (p, e, at) = mail_at-view disk s v there n (ground arith) in
          let (result_of, emails_of, marks_of, all_of, update_of) = delete_email-effect s n in
          let t = (Storage.delete_email s n).0 in
          (
            record m { storages = t ∷ [] },
            rw (deleted_at m n single, low, at)
                (ap (λ r. ok (record m { storages = t ∷ [] }, r)) (result_of disk p)),
            record {
              storage = t;
              single = refl;
              valid = delete_email-IsValid s n v (ground arith);
              there = subst (All (IsPresent disk)) (sym emails_of) there;
              looks =
                  ap (view_from disk t 0) emails_of
                  ∙ rw (below_count disk s v there n, low)
                      (view_from-mark disk s t 0 n s.emails (λ k. ground (arith, marks_of k)));
              same_emails = emails_of;
              same_all = all_of;
              same_update = update_of;
            },
          )
      | inr high ↦ (
        m,
        rw (deleted_at m n single, high, mail_at-none disk s v there n (ground arith)),
        rw (below_count disk s v there n, high) (still m single),
      )
    ]

    call-Matches : (m : Mailbox) (r : Request) → m.storages ≡ s ∷ [] → Matches m r
    call-Matches m count single = (
      m,
      ap (λ k. ok (m, number k))
          (count_single disk s v there m single ∙ sym (unmarked-view disk s v)),
      still m single,
    )
    call-Matches m (size_of_mail n) single =
        (m, size_reply-view disk s v there m n single, still m single)
    call-Matches m (remove n) single = remove-Matches m n single
    call-Matches m remove_all single = (
      delete_emails m,
      refl,
      record {
        storage = Storage.delete_emails s;
        single = unfold delete_emails in ap (map Storage.delete_emails) single;
        valid = delete_emails-IsValid s v;
        there = unfold Storage.delete_emails in there;
        looks =
            unfold Storage.delete_emails is_mail_marked_as_deleted in
            view_from-all disk s (Storage.delete_emails s) true 0 s.emails (λ k. refl);
        same_emails = unfold Storage.delete_emails in refl;
        same_all = unfold Storage.delete_emails in refl;
        same_update = unfold Storage.delete_emails in refl;
      },
    )
    call-Matches m undo single = (
      reset m,
      refl,
      record {
        storage = Storage.reset s;
        single = unfold reset in ap (map Storage.reset) single;
        valid = reset-IsValid s v;
        there = unfold Storage.reset in there;
        looks =
            unfold Storage.reset is_mail_marked_as_deleted contains in
            view_from-all disk s (Storage.reset s) false 0 s.emails (λ k. refl);
        same_emails = unfold Storage.reset in refl;
        same_all = unfold Storage.reset in refl;
        same_update = unfold Storage.reset in refl;
      },
    )

  -- The same mailbox and maildrop, under equal indices.
  moved :
      {ps qs : List FilePath} {a b u w : Bool} {m : Mailbox} {c d : Maildrop}
      → Represents disk ps a u m c
      → ps ≡ qs
      → a ≡ b
      → u ≡ w
      → c ≡ d
      → Represents disk qs b w m d
  moved h f g k l = record {
    storage = h.storage;
    single = h.single;
    valid = h.valid;
    there = h.there;
    looks = h.looks ∙ l;
    same_emails = h.same_emails ∙ f;
    same_all = h.same_all ∙ g;
    same_update = h.same_update ∙ k;
  }

  -- One request, to any mailbox that represents a maildrop.
  pub call-respond :
      (emails : List FilePath) (all update : Bool) (m : Mailbox) (d : Maildrop) (r : Request)
      → Represents disk emails all update m d
      → (m' : Mailbox) × (call disk m r ≡ ok (m', (respond d r).1))
        × Represents disk emails (all_after all r) update m' (respond d r).0
  call-respond emails all update m d r h =
      let (m', e, next) = call-Matches h.storage h.valid h.there m r h.single in
      (
        m',
        e ∙ ap (λ d. ok (m', (respond d r).1)) h.looks,
        moved next h.same_emails (ap (λ b. all_after b r) h.same_all) h.same_update
            (ap (λ d. (respond d r).0) h.looks),
      )

  calls-replies :
      (emails : List FilePath) (all update : Bool) (rs : List Request) (m : Mailbox) (d : Maildrop)
      → Represents disk emails all update m d
      → calls disk m rs ≡ ok (replies d rs)
  calls-replies emails all update [] m d h = refl
  calls-replies emails all update (r ∷ rs) m d h =
      let (m', first, after) = call-respond emails all update m d r h in
      rw first (rw (calls-replies emails (all_after all r) update rs m' (respond d r).0 after))

  -- For a mailbox of one valid storage whose files are on the disk: any sequence of requests for
  -- the count, for the size of a mail, to delete one mail or all, and to reset is answered without
  -- a fault, and every reply is that of a maildrop which begins with the sizes of the mails and
  -- the marks that they have.
  pub calls-refine :
      (m : Mailbox) (s : Storage) (rs : List Request)
      → m.storages ≡ s ∷ []
      → IsValid s
      → All (IsPresent disk) s.emails
      → calls disk m rs ≡ ok (replies (view disk s) rs)
  calls-refine m s rs single v there =
      calls-replies s.emails s.delete_all s.update_at_close rs m (view disk s)
        (still s v there m single)
