-- ===== src/Handlers/Check.antt =====
-- The automaton along every run of a program.
use db_proxy_server.Prelude.{ℕ, ◌≡◌, Bool, true, false, Option, none, some, List}
use db_proxy_server.Handlers.Program.{
  Command, init, bind, execute, query, get_result, get_num_rows, fetch, fetch_all, free, column,
  set_redis, respond, delete_task, now, time, Answer, Row, Program, done, command, branch,
}
use db_proxy_server.Handlers.Discipline.{Monitor, step}

-- A property of every answer, as a product where the answers are few.
abbrev pub Each : (c : Command) → (Answer c → Type 0) → Type 0
Each (init s sql) P = P true × P false
Each (bind s i v) P = P tt
Each (execute s) P = P true × P false
Each (query s) P = P true × P false
Each (get_result s) P = P true × P false
Each (get_num_rows s) P = (n : ℕ) → P n
Each (fetch s) P = ((row : Row) → P (some row)) × P none
Each (fetch_all s) P = (rows : List Row) → P rows
Each (free s) P = P tt
Each (column s i c) P = P tt
Each (set_redis key value) P = P tt
Each (respond r) P = P tt
Each delete_task P = P tt
Each now P = (t : ℕ) → P t
Each time P = (t : ℕ) → P t

abbrev pub Holds : Bool → Type 0
Holds true = Unit {0}
Holds false = ⊥

-- A command that the automaton lets through, with what is to hold behind each answer.
abbrev pub Allowed :
    (c : Command) → Option (Answer c → Monitor) → (Answer c → Monitor → Type 0) → Type 0
Allowed c none P = ⊥
Allowed c (some after) P = Each c (λ a. P a (after a))

-- Every run of the program from a state of the automaton is let through, and ends as `Q` says.
abbrev pub Check : {R : Type 0} → (R → Monitor → Type 0) → Program R → Monitor → Type 0
Check Q (done r) m = Q r m
Check Q (command c k) m = Allowed c (step c m) (λ a. Check Q (k a))
Check Q (branch b p q) m = (b ≡ true → Check Q p m) × (b ≡ false → Check Q q m)
