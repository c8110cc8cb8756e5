-- ===== src/Tests/RunTests.antt =====
-- The console controller on a resolver that knows one address.
use simple_pop3serv.Base.{
  ◌+◌, map, leb, ◌&&◌, if◌then◌else◌, ◌≡◌, ◌≢◌, refl, arith, bytes, ℕ, Bytes, bytes_eq, some, none,
  ok, true, Option,
}
use simple_pop3serv.Server.Console.{thread_count}
use simple_pop3serv.Server.Run.{run, served, run-cases, invalid_address}

-- The letters from A to Z in lower case.
abbrev lower_letters : Bytes → Bytes
lower_letters = map (λ c. if leb 65 c && leb c 90 then c + 32 else c)

four_threads : (thread_count 0 2 ≡ 4) × (thread_count 0 0 ≡ 2) × (thread_count 3 8 ≡ 3)
unfolding thread_count
four_threads = (refl, refl, refl)

abbrev one_address : Bytes → Option ℕ
one_address addr = if bytes_eq addr (bytes "127.0.0.1") then some 1 else none

run-cases_example :
    (run one_address (λ a. true) lower_letters 10 (bytes "127.0.0.1") 0 2 (bytes "stop Quit")
      ≡ served one_address
          (λ a. true)
          lower_letters
          10
          (one_address (bytes "127.0.0.1"))
          (thread_count 0 2)
          (bytes "stop Quit"))
    × (run one_address (λ a. true) lower_letters 10 (bytes "nowhere") 0 2 (bytes "stop Quit")
        ≢ ok invalid_address)
run-cases_example =
    run-cases one_address (λ a. true) lower_letters 10 (bytes "nowhere") 49 (bytes "27.0.0.1") 0 2
      (bytes "stop Quit") refl (omega arith)
