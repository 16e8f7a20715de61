-- ===== src/Handlers/Program.antt =====
-- The language of the handlers: programs of commands to MySQL (through pre_statement), redis, the
-- clock and the queue of responses. What a command answers is left to the environment.
mod Values
pub use Values.*
use Prim.Native.String.{String}
use db_proxy_server.Prelude.{
  ℕ, zero, suc, ◌+◌, ◌%◌, ◌^◌, ◌==◌, Bool, true, false, Option, none, some, List, [], ◌∷◌, ◌++◌,
  get_or, if◌then◌else◌,
}

-- The commands. A statement has a number of its own in its handler.
pub data Command : Type 0 where
  init : ℕ → Text → Command
  bind : ℕ → ℕ → Cell → Command
  execute query get_result get_num_rows fetch fetch_all free : ℕ → Command
  column : ℕ → ℕ → Column → Command
  set_redis : Text → List ℕ → Command
  respond : Reply → Command
  delete_task now time : Command

-- What a command returns: `true` for the return value 0; the row that a fetch_result found; for
-- fetch_all, which is `while (0 == fetch_result())`, the rows until a fetch fails; milliseconds for gettimeofday, and the
-- seconds of time(NULL).
abbrev pub Answer : Command → Type 0
Answer (init s sql) = Bool
Answer (bind s i v) = Unit {0}
Answer (execute s) = Bool
Answer (query s) = Bool
Answer (get_result s) = Bool
Answer (get_num_rows s) = ℕ
Answer (fetch s) = Option Row
Answer (fetch_all s) = List Row
Answer (free s) = Unit {0}
Answer (column s i c) = Unit {0}
Answer (set_redis key value) = Unit {0}
Answer (respond r) = Unit {0}
Answer delete_task = Unit {0}
Answer now = ℕ
Answer time = ℕ

-- A program: it ends, gives a command and goes on with the answer, or branches on a test.
pub data Program (R : Type 0) : Type 0 where
  done : R → Program R
  command : (c : Command) → (Answer c → Program R) → Program R
  branch : Bool → Program R → Program R → Program R

-- A part of a program, by what follows it.
abbrev pub Body : Type 0 → Type 0 → Type 0
Body R A = (A → Program R) → Program R

infixl 5 ◌>>=◌ ◌>>◌
abbrev pub ◌>>=◌ : {R A B : Type 0} → Body R A → (A → Body R B) → Body R B
◌>>=◌ m f k = m (λ a. f a k)

abbrev pub ◌>>◌ : {R B : Type 0} → Body R (Unit {0}) → Body R B → Body R B
◌>>◌ m n k = m (λ _. n k)

abbrev pub pure : {R A : Type 0} → A → Body R A
pure a k = k a

abbrev pub call : {R : Type 0} → (c : Command) → Body R (Answer c)
call c k = command c k

abbrev pub test : {R A : Type 0} → Bool → Body R A → Body R A → Body R A
test b m n k = branch b (m k) (n k)

-- `if (0 != …) { …; break; }`: the break goes on with `out`.
abbrev pub unless : {R : Type 0} → Program R → Body R Bool → Body R (Unit {0})
unless out m k = m (λ ok. elim ok [ true ↦ k tt | false ↦ out ])

-- `if (0 != statement.fetch_result()) break`, with the row.
abbrev pub fetch_or : {R : Type 0} → Program R → ℕ → Body R Row
fetch_or out s k = command (fetch s) (λ row. elim row [ some r ↦ k r | none ↦ out ])

-- `do { … } while (false)` with what follows it. The block is given what its breaks do.
abbrev pub closing : {R A : Type 0} → Body R (Unit {0}) → ((A → Program R) → Body R A) → Body R A
closing finish block return = let leave = λ (a : _). finish (λ _. return a) in block leave leave

-- The block in front of `statement.free()`, or of the destructor, which calls free too: where both
-- come, the second finds the statement closed.
abbrev pub scope : {R A : Type 0} → ℕ → ((A → Program R) → Body R A) → Body R A
scope s = closing (call (free s))

-- A loop over items, each of which gives a part of what is built. It is given what a break does.
abbrev pub gather :
    {R A B : Type 0}
    → List A
    → ((List B → Program R) → A → Body R (List B))
    → List B
    → Body R (List B)
gather [] body built k = k built
gather (x ∷ xs) body built k =
    body (λ part. k (built ++ part)) x (λ part. gather xs body (built ++ part) k)

-- A loop that builds nothing.
abbrev pub each : {R A : Type 0} → List A → (Program R → A → Body R (Unit {0})) → Body R (Unit {0})
each [] body k = k tt
each (x ∷ xs) body k = body (k tt) x (λ _. each xs body k)

-- The calls of set_param_bind with the indexes `i`, `i + 1`, ….
abbrev pub bind_from : {R : Type 0} → ℕ → ℕ → List Cell → Body R (Unit {0})
bind_from s i [] k = k tt
bind_from s i (v ∷ vs) k = command (bind s i v) (λ _. bind_from s (i + 1) vs k)

abbrev pub bind_all : {R : Type 0} → ℕ → List Cell → Body R (Unit {0})
bind_all s = bind_from s 0

-- The calls of set_param_result likewise.
abbrev pub columns_from : {R : Type 0} → ℕ → ℕ → List Column → Body R (Unit {0})
columns_from s i [] k = k tt
columns_from s i (c ∷ cs) k = command (column s i c) (λ _. columns_from s (i + 1) cs k)

abbrev pub columns : {R : Type 0} → ℕ → List Column → Body R (Unit {0})
columns s = columns_from s 0

-- The steps that the handlers share: init, with a break when it fails, the binds and execute; and
-- init, the binds, query, the columns and get_result, with a break when one fails.
abbrev pub attempt : {R : Type 0} → Program R → ℕ → Text → List Cell → Body R Bool
attempt out s sql params = do unless out (call (init s sql)); bind_all s params; call (execute s)

abbrev pub listing :
    {R : Type 0} → Program R → ℕ → Text → List Cell → List Column → Body R (Unit {0})
listing out s sql params cols = do
  unless out (call (init s sql))
  bind_all s params
  unless out (call (query s))
  columns s cols
  unless out (call (get_result s))
