-- ===== src/RateLimit/Tests.antt =====
-- Runs of the limiter on the server in memory, and its theorems at concrete inputs.
use web3airdrop_os.Base.{
  ℕ, ◌+◌, ◌*◌, ◌≤◌, ◌<◌, ◌≡◌, refl, List, [], ◌∷◌, ◌++◌, arith, some, length, false, ok, ◌⊎◌, All,
  ◌==◌, replicate,
}
use web3airdrop_os.Base.Text.{Text, codes, text_eq}
use web3airdrop_os.Redis.Keyspace.{View, Item}
use web3airdrop_os.Memory.{memory, memory-Lawful, empty_store}
use web3airdrop_os.RateLimit.{RateLimitConfig, RateLimitResult, check, rate_limit_auth}
use web3airdrop_os.RateLimit.Window.{recent, Agrees}
use web3airdrop_os.RateLimit.Limit.{Request, run, sliding_window, run_is_sliding_window}
use web3airdrop_os.RateLimit.Wait.{retry_after_exact}
use web3airdrop_os.RateLimit.Client.{
  HttpRequest, Headers, get_client_ip, comma, get_client_ip_forwarded, respond, too_many_requests,
  retry_after_header_early,
}
use web3airdrop_os.RateLimit.Collision.{again, repeated_member_unlimited}

abbrev one_a_second : RateLimitConfig
one_a_second = record { requests = 1; window = 1000; burst_size = 0 }

abbrev ip : Text
ip = codes "ip:1"

abbrev requests : List Request
requests =
    record { gap = 100; member = codes "a" }
    ∷ record { gap = 600; member = codes "b" }
    ∷ record { gap = 700; member = codes "c" }
    ∷ []

sliding_window_example : sliding_window one_a_second requests 5000 [] ≡ (6400, 6400 ∷ 5100 ∷ [])
unfolding sliding_window
sliding_window_example = refl

run_is_sliding_window_example :
    let (now', log, s') = run memory ip one_a_second requests 5000 [] empty_store in
    ((now', log) ≡ sliding_window one_a_second requests 5000 []) × (recent 1000 now' log ≤ 1)
unfolding text_eq
run_is_sliding_window_example =
    run_is_sliding_window memory memory-Lawful ip one_a_second requests 5000 empty_store
      (omega arith) ((refl, (refl, tt)), ((refl, tt), (tt, tt))) refl

-- One request was let through at 5000.
abbrev first : Item
first = record { member = codes "m"; score = 5000 }

abbrev full_store : View
full_store = record empty_store { zsets = λ k. record { items = first ∷ []; left = some 1000 } }

full_store-Agrees :
    Agrees one_a_second 5400 (5000 ∷ []) (record { items = first ∷ []; left = some 1000 })
full_store-Agrees = record {
  covers = λ x le. ground arith;
  lasts = (omega arith, tt);
  past = (omega arith, tt);
  bounded = omega arith;
}

retry_after_exact_example :
    (result : RateLimitResult) × ((check memory ip one_a_second 5400 (codes "b") full_store).1
      ≡ ok result)
    × (result.allowed ≡ false)
    × (recent 1000 (5400 + result.retry_after) (5000 ∷ []) < 1)
    × ((d : ℕ) → d < result.retry_after → recent 1000 (5400 + d) (5000 ∷ []) ≡ 1)
retry_after_exact_example =
    retry_after_exact memory memory-Lawful ip one_a_second 5400 (codes "b") (5000 ∷ []) full_store
      first [] (omega arith) full_store-Agrees refl tt (omega arith)

retry_after_header_early_example :
    (headers : Headers) × (seconds : ℕ) × (respond 5400
        (check memory ip one_a_second 5400 (codes "b") full_store).1
      ≡ too_many_requests headers)
    × (headers.retry_after ≡ some seconds)
    × (recent 1000 (5400 + seconds * 1000) (5000 ∷ []) ≡ 1)
retry_after_header_early_example =
    retry_after_header_early memory memory-Lawful ip one_a_second 5400 (codes "b") (5000 ∷ [])
      full_store first [] (omega arith) full_store-Agrees refl tt (omega arith) (omega arith)

repeated_member_unlimited_example :
    length
      (run memory ip rate_limit_auth
        (replicate 9 (again memory memory-Lawful ip rate_limit_auth []))
        70000
        []
        empty_store).1
    ≡ 9
repeated_member_unlimited_example =
    repeated_member_unlimited memory memory-Lawful ip rate_limit_auth [] 9 70000 empty_store
      (omega arith) (omega arith) (omega arith) refl

abbrev proxied : HttpRequest
proxied = record {
  x_forwarded_for = codes "10.0.0.7, 10.0.0.1";
  x_real_ip = codes "10.0.0.1";
  remote_addr = codes "127.0.0.1:80";
}

get_client_ip-proxied : get_client_ip proxied ≡ codes "10.0.0.7"
unfolding get_client_ip
get_client_ip-proxied = refl

get_client_ip_forwarded_example :
    All (λ x. (x == comma) ≡ false) (get_client_ip proxied)
    × ((get_client_ip proxied ≡ proxied.x_forwarded_for)
        ⊎ ((rest : Text) × (proxied.x_forwarded_for ≡ get_client_ip proxied ++ (comma ∷ rest))))
get_client_ip_forwarded_example = get_client_ip_forwarded proxied (λ e. cc)
