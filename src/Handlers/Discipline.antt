-- ===== src/Handlers/Discipline.antt =====
-- The order in which a handler may use its statements and its task: what pre_statement, the client
-- library and the queue of responses rely on. It is an automaton over the commands and their
-- answers, and it reads the numbers of parameters and columns off the text of SQL.
use Prim.Native.Char.{code}
use Prim.Native.String.{String}
use db_proxy_server.Prelude.{
  ℕ, suc, ◌+◌, ◌-◌, ◌==◌, Bool, true, false, not, ◌&&◌, Option, none, some, List, [], ◌∷◌, ltb, set,
  get_or, replicate, length, if◌then◌else◌,
}
use db_proxy_server.Handlers.Program.{
  lit, digits, raw, Text, Command, init, bind, execute, query, get_result, get_num_rows, fetch,
  fetch_all, free, column, set_redis, respond, delete_task, now, time, Answer,
}

-- The number of `?` in the literals of a text.
abbrev pub marks_in : String → ℕ
marks_in String.[] = 0
marks_in (String.◌∷◌ c s) = let rest = marks_in s in if code c == b'?' then suc rest else rest

abbrev pub marks : Text → ℕ
marks [] = 0
marks (lit s ∷ t) = marks_in s + marks t
marks (digits n ∷ t) = marks t
marks (raw b ∷ t) = marks t

-- The commas of a select list: those outside of parentheses in front of the first " from". `k` is
-- how many of its letters were just read.
pub record Scan : Type 0 where
  pub depth : ℕ
  pub seen : ℕ
  pub commas : ℕ
  pub over : Bool

abbrev pub next_seen : ℕ → ℕ → ℕ
next_seen k c =
    if (k == 1) && (c == b'f')
    then 2
    else if (k == 2) && (c == b'r')
    then 3
    else if (k == 3) && (c == b'o')
    then 4
    else if (k == 4) && (c == b'm')
    then 5
    else if c == b' '
    then 1
    else 0

abbrev pub scan : ℕ → Scan → Scan
scan c s =
    if s.over
    then s
    else if c == b'('
    then record s { depth = s.depth + 1; seen = 0 }
    else if c == b')'
    then record s { depth = s.depth - 1; seen = 0 }
    else if not (s.depth == 0)
    then s
    else if c == b','
    then record s { commas = s.commas + 1; seen = 0 }
    else record s { seen = next_seen s.seen c; over = next_seen s.seen c == 5 }

abbrev pub scan_in : String → Scan → Scan
scan_in String.[] s = s
scan_in (String.◌∷◌ c t) s = scan_in t (scan (code c) s)

abbrev pub scan_text : Text → Scan → Scan
scan_text [] s = s
scan_text (lit t ∷ rest) s = scan_text rest (scan_in t s)
scan_text (digits n ∷ rest) s = scan_text rest s
scan_text (raw b ∷ rest) s = scan_text rest s

abbrev pub selected : Text → ℕ
selected sql = suc (scan_text sql (record { depth = 0; seen = 0; commas = 0; over = false })).commas

-- Where a statement is: closed, without a plan since init failed, prepared with the parameters that
-- are bound and the number of its columns, run with the columns that are set, or with its rows.
pub data Stage : Type 0 where
  closed failed stored : Stage
  prepared : List Bool → ℕ → Stage
  ran : List Bool → Stage

pub record Monitor : Type 0 where
  pub stages : List Stage
  pub disposed : Bool

abbrev pub start : Monitor
start = record { stages = closed ∷ closed ∷ closed ∷ []; disposed = false }

abbrev pub all_true : List Bool → Bool
all_true [] = true
all_true (b ∷ bs) = b && all_true bs

abbrev pub stage : ℕ → Monitor → Stage
stage s m = get_or m.stages s closed

abbrev pub put : ℕ → Stage → Monitor → Monitor
put s g m = record m { stages = set m.stages s g }

-- init: only a closed statement, since the old handle is lost otherwise.
abbrev pub on_init : Stage → ℕ → Text → Monitor → Option (Bool → Monitor)
on_init closed s sql m =
    some
      λ ok. put s (if ok then prepared (replicate (marks sql) false) (selected sql) else failed) m
on_init failed s sql m = none
on_init stored s sql m = none
on_init (prepared bs n) s sql m = none
on_init (ran cs) s sql m = none

-- set_param_bind: below the number of parameters, else it is refused.
abbrev pub on_bind : Stage → ℕ → ℕ → Monitor → Option Monitor
on_bind (prepared bs n) s i m =
    if ltb i (length bs) then some (put s (prepared (set bs i true) n) m) else none
on_bind closed s i m = none
on_bind failed s i m = none
on_bind stored s i m = none
on_bind (ran cs) s i m = none

-- execute and query: all parameters are bound.
abbrev pub on_execute : Stage → Monitor → Option Monitor
on_execute (prepared bs n) m = if all_true bs then some m else none
on_execute closed m = none
on_execute failed m = none
on_execute stored m = none
on_execute (ran cs) m = none

abbrev pub on_query : Stage → ℕ → Monitor → Option (Bool → Monitor)
on_query (prepared bs n) s m =
    if all_true bs then some (λ ok. if ok then put s (ran (replicate n false)) m else m) else none
on_query closed s m = none
on_query failed s m = none
on_query stored s m = none
on_query (ran cs) s m = none

-- set_param_result: below the number of columns, else it is refused.
abbrev pub on_column : Stage → ℕ → ℕ → Monitor → Option Monitor
on_column (ran cs) s i m = if ltb i (length cs) then some (put s (ran (set cs i true)) m) else none
on_column closed s i m = none
on_column failed s i m = none
on_column stored s i m = none
on_column (prepared bs n) s i m = none

-- get_result: every column has a variable.
abbrev pub on_get_result : Stage → ℕ → Monitor → Option (Bool → Monitor)
on_get_result (ran cs) s m =
    if all_true cs then some (λ ok. if ok then put s stored m else m) else none
on_get_result closed s m = none
on_get_result failed s m = none
on_get_result stored s m = none
on_get_result (prepared bs n) s m = none

-- fetch_result and get_num_rows: only on rows that are stored.
abbrev pub on_rows : Stage → Monitor → Option Monitor
on_rows stored m = some m
on_rows closed m = none
on_rows failed m = none
on_rows (prepared bs n) m = none
on_rows (ran cs) m = none

abbrev pub always {ℓ κ} : {A : Type ℓ} {B : Type κ} → Option B → Option (A → B)
always none = none
always (some b) = some λ _. b

-- The task is given away at most once, to the queue of responses or to delete.
abbrev pub dispose : Monitor → Option Monitor
dispose m = if m.disposed then none else some (record m { disposed = true })

abbrev pub step : (c : Command) → Monitor → Option (Answer c → Monitor)
step (init s sql) m = on_init (stage s m) s sql m
step (bind s i v) m = always (on_bind (stage s m) s i m)
step (execute s) m = always (on_execute (stage s m) m)
step (query s) m = on_query (stage s m) s m
step (get_result s) m = on_get_result (stage s m) s m
step (get_num_rows s) m = always (on_rows (stage s m) m)
step (fetch s) m = always (on_rows (stage s m) m)
step (fetch_all s) m = always (on_rows (stage s m) m)
step (free s) m = some λ _. put s closed m
step (column s i c) m = always (on_column (stage s m) s i m)
step (set_redis key value) m = some λ _. m
step (respond r) m = always (dispose m)
step delete_task m = always (dispose m)
step now m = some λ _. m
step time m = some λ _. m

abbrev pub is_closed : Stage → Bool
is_closed closed = true
is_closed failed = false
is_closed stored = false
is_closed (prepared bs n) = false
is_closed (ran cs) = false

-- At the end every statement is closed.
abbrev pub is_idle : List Stage → Bool
is_idle [] = true
is_idle (g ∷ gs) = is_closed g && is_idle gs
