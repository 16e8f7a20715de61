-- ===== src/Tests/Pool.antt =====
-- The thread pool with two threads.
use db_proxy_server.ThreadPool.{ThreadPool, Event, add, round, init, run_all}
use db_proxy_server.ThreadPool.Deal.{share, run_all-init}
use db_proxy_server.Prelude.{ℕ, ◌≡◌, refl, some, List, [], ◌∷◌, ◌++◌, get_or, arith}

abbrev arrivals : List (Event ℕ)
arrivals = add 10 ∷ round 0 ∷ add 11 ∷ add 12 ∷ round 1 ∷ add 13 ∷ add 14 ∷ round 0 ∷ []

share_of_first : share 2 0 0 arrivals ≡ 10 ∷ 12 ∷ 14 ∷ []
unfolding share
share_of_first = refl

run_all-init_example :
    (q : ThreadPool ℕ) × (ran : List ℕ) × (run_all 0 (init 2) arrivals ≡ some (q, ran))
    × (ran ++ get_or q.queues 0 [] ≡ share 2 0 0 arrivals)
run_all-init_example = run_all-init 2 0 arrivals (omega arith) (omega arith)
