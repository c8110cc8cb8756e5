-- ===== src/Program/Accounts.antt =====
-- The accounts that `dummy_generate_consumers` makes, and the logon to them.
use simple_pop3serv.Base.{
  or_else, ℕ, zero, suc, ◌+◌, ◌≤◌, ◌<◌, ◌≡◌, ◌≢◌, refl, sym, ap, ◌∙◌, inl, inr, Bool, true, false,
  Option, none, some, List, [], ◌∷◌, ◌++◌, ◌==◌, ==_iff, if◌then◌else◌, arith, Bytes, bytes,
  Bool-cases, ok, ◌>>=◌, value,
}
use simple_pop3serv.Protocol.Boost.{Boost}
use simple_pop3serv.Mail.Errors.{file_system_mail_storage}
use simple_pop3serv.Account.CompactString.{make, zeros}
use simple_pop3serv.Account.ConsumerInfo.{
  ConsumerInfo, MailStorageInfo, textual, get_maximum_option_name, longest_name, add_storage,
  add_options, add_option,
}
use simple_pop3serv.Account.ConsumerStorage.{
  ConsumerSet, get_consumer_info, has_mailbox, add_consumer_info, IsSorted, first_named,
  add_consumer_info-get,
}
use simple_pop3serv.Account.Authorization.{
  logon, single_manager, logon_answer, logon-single_manager,
}
use simple_pop3serv.Service.Factory.{join_path}
use simple_pop3serv.Program.{
  test_folder, generated_name, generated_password, generated_consumer, generate_from,
  dummy_generate_consumers,
}

-- `addConsumerInfo` as a look into one more file.
added :
    (cs : ConsumerSet) (c : ConsumerInfo) (w : Bool) (n : ℕ) (rest : List (Option ConsumerInfo))
    → IsSorted cs
    → or_else (get_consumer_info (add_consumer_info cs c w).0 n) (first_named rest n)
      ≡ or_else (get_consumer_info cs n) (first_named ((if w then some c else none) ∷ rest) n)
unfolding has_mailbox
added cs c false n rest sorted = rw ((add_consumer_info-get cs c false n sorted).2) refl
added cs c true n rest sorted = elim (Bool-cases (c.name == n)) [
  | inl same ↦
      let here = ap (get_consumer_info cs) ((==_iff c.name n).0 same) in
      ground (arith, (add_consumer_info-get cs c true n sorted).2, here)
  | inr other ↦ ground (arith, (add_consumer_info-get cs c true n sorted).2)
]

module _ (boost : Boost) (hash : Bytes → ℕ) where
  -- The storage of an account: the folder with the name of the user.
  abbrev pub generated_storage : ℕ → MailStorageInfo
  generated_storage i = record {
    storage_type = file_system_mail_storage;
    options =
        record {
          name = bytes "path" ++ 0 ∷ [];
          value = textual (test_folder ++ 47 ∷ generated_name boost hash i);
        }
        ∷ [];
  }

  abbrev generated : ℕ → ConsumerInfo
  generated i = record {
    name = hash (generated_name boost hash i);
    password = hash (generated_password boost hash i);
    storages = generated_storage i ∷ [];
  }

  generated_consumer_lem : (i : ℕ) → generated_consumer boost hash i ≡ ok (generated i)
  unfolding generated_consumer generated_name generated_password make zeros get_maximum_option_name
      longest_name add_storage add_options add_option join_path
  generated_consumer_lem i = refl

  module _ (writes : ℕ → Bool) where
    -- The account of each round, where its file is written.
    abbrev attempts : ℕ → ℕ → List (Option ConsumerInfo)
    attempts zero i = []
    attempts (suc rounds) i =
        (if writes i then some (generated i) else none) ∷ attempts rounds (i + 1)

    generate_from-first_named :
        (rounds i : ℕ) (cs : ConsumerSet)
        → IsSorted cs
        → (set : ConsumerSet) × (generate_from boost hash writes rounds i cs ≡ ok set)
          × ((n : ℕ)
              → get_consumer_info set n
                ≡ or_else (get_consumer_info cs n) (first_named (attempts rounds i) n))
    unfolding generate_from
    generate_from-first_named zero i cs sorted = (cs, refl, λ n. ground arith)
    generate_from-first_named (suc rounds) i cs sorted =
        let next = (add_consumer_info cs (generated i) (writes i)).0 in
        let (set, e, look) =
          generate_from-first_named rounds (i + 1) next
            (add_consumer_info-get cs (generated i) (writes i) 0 sorted).0 in
        (
          set,
          ap
                (λ r. r >>= λ info.
                  generate_from boost hash writes rounds (i + 1)
                    (add_consumer_info cs info (writes i)).0)
                (generated_consumer_lem i)
              ∙ e,
          λ n. look n ∙ added cs (generated i) (writes i) n (attempts rounds (i + 1)) sorted,
        )

    attempts-first_named :
        (rounds k i : ℕ)
        → k ≤ i
        → i < k + rounds
        → ((j : ℕ) → j < k + rounds → writes j ≡ true)
        → ((j : ℕ)
            → j < k + rounds
            → hash (generated_name boost hash j) ≡ hash (generated_name boost hash i)
            → j ≡ i)
        → first_named (attempts rounds k) (hash (generated_name boost hash i)) ≡ some (generated i)
    attempts-first_named zero k i low high all distinct = absurd (omega arith)
    attempts-first_named (suc rounds) k i low high all distinct =
        rw (all k (omega arith))
          (elim (Bool-cases
            (hash (generated_name boost hash k) == hash (generated_name boost hash i))) [
              | inl same ↦
                  let here : k ≡ i = distinct k (omega arith) (
                    (==_iff (hash (generated_name boost hash k))
                        (hash (generated_name boost hash i))).0
                      same) in
                  rw same (ap (λ j. some (generated j)) here)
              | inr other ↦
                  let later : k ≢ i = λ e. cc (
                    sym other
                    ∙ (==_iff (hash (generated_name boost hash k))
                          (hash (generated_name boost hash i))).1
                        (ap (λ j. hash (generated_name boost hash j)) e)) in
                  rw other (
                    attempts-first_named rounds (k + 1) i (omega arith) (omega arith)
                      (λ j below. all j (omega arith)) (λ j below. distinct j (omega arith)))
            ])

  -- If the files of all accounts that are made can be written, and in the ordered set of accounts
  -- none has the hash of the name of the account `i`: the function returns, and if no other name
  -- that it makes has the same hash, then a logon with the name and the password of the account `i`
  -- succeeds and gives one storage, the folder of that name in the folder for tests.
  pub generated-logon :
      (writes : ℕ → Bool) (count i : ℕ) (consumers : ConsumerSet)
      → IsSorted consumers
      → i < count
      → ((j : ℕ) → j < count → writes j ≡ true)
      → ((j : ℕ)
          → j < count
          → hash (generated_name boost hash j) ≡ hash (generated_name boost hash i)
          → j ≡ i)
      → get_consumer_info consumers (hash (generated_name boost hash i)) ≡ none
      → (set : ConsumerSet) × (dummy_generate_consumers boost hash writes count consumers ≡ ok set)
        × (logon
              (single_manager hash set)
              (generated_name boost hash i)
              (generated_password boost hash i)
            ≡ value (generated_storage i ∷ []))
  unfolding dummy_generate_consumers
  generated-logon writes count i consumers sorted below all distinct fresh =
      let (set, e, look) = generate_from-first_named writes count 0 consumers sorted in
      let name = hash (generated_name boost hash i) in
      let found : get_consumer_info set name ≡ some (generated i) =
        look name
        ∙ ap (λ r. or_else r (first_named (attempts writes count 0) name)) fresh
        ∙ attempts-first_named writes count 0 i (omega arith) (omega arith)
            (λ j below. all j (omega arith)) (λ j below. distinct j (omega arith)) in
      (
        set,
        e,
        logon-single_manager hash set (generated_name boost hash i)
              (generated_password boost hash i)
            ∙ ap (λ r. logon_answer r (hash (generated_password boost hash i))) found
            ∙ ground arith,
      )
