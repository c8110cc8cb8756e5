-- ===== src/Server/Run.antt =====
-- ConsoleServerController::Run and ServerBuilder::build of Common/Server.h, over Boost's
-- `make_address`, where `none` is the exception that it throws.
use simple_pop3serv.Base.{
  ℕ, ◌<◌, ◌≡◌, ◌≢◌, arith, ok-injective, refl, inl, inr, Bool, true, Option, none, some, [], ◌∷◌,
  if◌then◌else◌, is_some, Option-cases, Bytes, length, Outcome, ok, fault, ◌>>=◌, address_refused,
}
use simple_pop3serv.Protocol.Parser.Words.{words}
use simple_pop3serv.Server.Console.{thread_count, command_loop, any_quit, command_loop-quits}

-- How `Run` goes on: it returns after the message on an invalid address, or after that of an
-- exception of the acceptor; it still reads commands, with so many threads that serve; or it has
-- cancelled the server and waits for the threads.
pub data Progress : Type 0 where
  invalid_address acceptor_failed : Progress
  reads_commands cancels_server : ℕ → Progress

module _ {Address : Type 0} (make_address : Bytes → Option Address) where
  abbrev address_or_throw : Option Address → Outcome Address
  address_or_throw none = fault address_refused
  address_or_throw (some a) = ok a

  -- `verifyAddress`: what is thrown is a `system_error`, which its `catch` of an `error_code` does
  -- not take.
  unfoldable pub verify_address : Bytes → Outcome Bool
  verify_address addr = address_or_throw (make_address addr) >>= λ a. ok true

  -- `ServerBuilder::build`: the address of the endpoint, `none` for any of version 4.
  unfoldable pub build : Bytes → Outcome (Option Address)
  build [] = ok none
  build (c ∷ cs) = address_or_throw (make_address (c ∷ cs)) >>= λ a. ok (some a)

  module _ (accepts : Option Address → Bool) (to_lower : Bytes → Bytes) (rounds : ℕ) where
    -- The `try` block, with whether the acceptor can be made at the address.
    abbrev serve_at : Outcome (Option Address) → ℕ → Bytes → Progress
    serve_at (fault e) threads input = acceptor_failed
    serve_at (ok a) threads input =
        if accepts a
        then (if is_some (command_loop to_lower rounds input)
            then cancels_server threads
            else reads_commands threads)
        else acceptor_failed

    unfoldable pub run : Bytes → ℕ → ℕ → Bytes → Outcome Progress
    unfolding verify_address build
    run addr asked cores input = verify_address addr >>= λ valid.
        ok (
          if valid then serve_at (build addr) (thread_count asked cores) input else invalid_address)

    serve_at-served :
        (r : Outcome (Option Address)) (threads : ℕ) (input : Bytes)
        → serve_at r threads input ≢ invalid_address
    serve_at-served (fault e) threads input = λ q. cc
    serve_at-served (ok a) threads input = λ q. ground (arith, q)

    no_message :
        (addr : Bytes) (asked cores : ℕ) (input : Bytes)
        → run addr asked cores input ≢ ok invalid_address
    unfolding run verify_address
    no_message addr asked cores input = elim (Option-cases (make_address addr)) [
      | inl refused ↦ rw refused (λ q. cc)
      | inr (a, found) ↦
          rw found
            (λ q. serve_at-served (build addr) (thread_count asked cores) input (ok-injective q))
    ]

    -- What becomes of the server at an address that is not empty, given what Boost makes of it.
    abbrev pub served : Option Address → ℕ → Bytes → Outcome Progress
    served none threads input = fault address_refused
    served (some a) threads input = ok (
        if accepts (some a)
        then (if any_quit to_lower (words input)
            then cancels_server threads
            else reads_commands threads)
        else acceptor_failed)

    -- If the empty text stays empty in lower case, and there are more rounds than the standard
    -- input has characters: for an address that is not empty, `Run` throws if `make_address`
    -- refuses it; else it ends at once if the acceptor cannot be made there, and otherwise cancels
    -- the server if a word of the input is "quit" in lower case, and reads on if there is none. For
    -- no address does it return with the message on an invalid address.
    pub run-cases :
        (addr : Bytes) (c : ℕ) (cs : Bytes) (asked cores : ℕ) (input : Bytes)
        → to_lower [] ≡ []
        → length input < rounds
        → (run (c ∷ cs) asked cores input
            ≡ served (make_address (c ∷ cs)) (thread_count asked cores) input)
          × (run addr asked cores input ≢ ok invalid_address)
    unfolding run verify_address build
    run-cases addr c cs asked cores input keeps enough = (
      elim (Option-cases (make_address (c ∷ cs))) [
        | inl refused ↦ rw refused refl
        | inr (a, found) ↦ rw (found, command_loop-quits to_lower keeps rounds input enough) refl
      ],
      no_message addr asked cores input,
    )
