-- ===== src/Handlers/Run.antt =====
-- A run of a program against an environment that answers its commands, and what it leaves behind:
-- the commands with their answers in order.
use db_proxy_server.Prelude.{Bool, false, Option, none, some, List, [], ◌∷◌, if◌then◌else◌, ◌&&◌}
use db_proxy_server.Handlers.Program.{Command, Answer, Program, done, command, branch}
use db_proxy_server.Handlers.Discipline.{Monitor, start, step, is_idle}

abbrev pub Event : Type 0
Event = (c : Command) × Answer c

-- The environment: a state, and the answer it gives to each command.
pub record World : Type 1 where
  pub State : Type 0
  pub answer : State → (c : Command) → Answer c × State

module _ (world : World) where
  open world use {State, answer}

  unfoldable pub run : {R : Type 0} → Program R → State → R × List Event
  run (done r) s = (r, [])
  run (command c k) s = let (a, s') = answer s c in let (r, log) = run (k a) s' in (r, (c, a) ∷ log)
  run (branch b p q) s = if b then run p s else run q s

-- The automaton along a log.
abbrev pub accepted :
    {C : Type 0} → Option (C → Monitor) → C → (Monitor → Option Monitor) → Option Monitor
accepted none a rest = none
accepted (some after) a rest = rest (after a)

unfoldable pub accepts : List Event → Monitor → Option Monitor
accepts [] m = some m
accepts ((c, a) ∷ log) m = accepted (step c m) a (accepts log)

-- The log is accepted and leaves every statement closed.
unfoldable pub obeys : List Event → Bool
unfolding accepts
obeys log = elim (accepts log start) [ none ↦ false | some m ↦ is_idle m.stages ]

-- And the task went to the queue of responses or to delete, once since a second time is not accepted.
unfoldable pub gives_away : List Event → Bool
unfolding accepts
gives_away log = elim (accepts log start) [ none ↦ false | some m ↦ is_idle m.stages && m.disposed ]
