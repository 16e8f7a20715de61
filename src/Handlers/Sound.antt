-- ===== src/Handlers/Sound.antt =====
-- What the check of a program says of its runs.
use db_proxy_server.Prelude.{◌≡◌, refl, Bool, true, false, Option, none, some, ◌&&◌}
use db_proxy_server.Handlers.Program.{
  Command, init, bind, execute, query, get_result, get_num_rows, fetch, fetch_all, free, column,
  set_redis, respond, delete_task, now, time, Answer, Program, done, command, branch,
}
use db_proxy_server.Handlers.Discipline.{Monitor, start, step, is_idle}
use db_proxy_server.Handlers.Check.{Each, Holds, Allowed, Check}
use db_proxy_server.Handlers.Run.{World, run, accepted, accepts, obeys, gives_away}

-- A property of each answer holds of an answer.
pub Each-answer : (c : Command) (P : Answer c → Type 0) → Each c P → (a : Answer c) → P a
Each-answer (init s sql) P h true = h.0
Each-answer (init s sql) P h false = h.1
Each-answer (bind s i v) P h tt = h
Each-answer (execute s) P h true = h.0
Each-answer (execute s) P h false = h.1
Each-answer (query s) P h true = h.0
Each-answer (query s) P h false = h.1
Each-answer (get_result s) P h true = h.0
Each-answer (get_result s) P h false = h.1
Each-answer (get_num_rows s) P h n = h n
Each-answer (fetch s) P h (some row) = h.0 row
Each-answer (fetch s) P h none = h.1
Each-answer (fetch_all s) P h rows = h rows
Each-answer (free s) P h tt = h
Each-answer (column s i c) P h tt = h
Each-answer (set_redis key value) P h tt = h
Each-answer (respond r) P h tt = h
Each-answer delete_task P h tt = h
Each-answer now P h t = h t
Each-answer time P h t = h t

module _ (world : World) {R : Type 0} (Q : R → Monitor → Type 0) where
  open world use {State, answer}

  -- A run of the program from a state of the automaton is accepted and ends as was asked.
  abbrev pub IsSound : Program R → Monitor → State → Type 0
  IsSound p m s = (m' : Monitor) × (accepts (run world p s).1 m ≡ some m') × Q (run world p s).0 m'

  step-IsSound :
      (c : Command) (k : Answer c → Program R) (a : Answer c) (s : State)
      (g : Option (Answer c → Monitor))
      → ((m : Monitor) → Check Q (k a) m → IsSound (k a) m s)
      → Allowed c g (λ b. Check Q (k b))
      → (m' : Monitor) × (accepted g a (accepts (run world (k a) s).1) ≡ some m')
        × Q (run world (k a) s).0 m'
  step-IsSound c k a s none ih h = absurd h
  step-IsSound c k a s (some after) ih h =
      ih (after a) (Each-answer c (λ b. Check Q (k b) (after b)) h a)

  pub Check-IsSound : (p : Program R) (m : Monitor) (s : State) → Check Q p m → IsSound p m s
  unfolding run accepts
  Check-IsSound (done r) m s h = (m, refl, h)
  Check-IsSound (branch true p q) m s h = Check-IsSound p m s (h.0 refl)
  Check-IsSound (branch false p q) m s h = Check-IsSound q m s (h.1 refl)
  Check-IsSound (command c k) m s h =
      let (a, s') = answer s c in
      step-IsSound c k a s' (step c m) (λ m'. Check-IsSound (k a) m' s') h

-- How a handler is to end: every statement is closed.
abbrev pub AtEnd : {R : Type 0} → R → Monitor → Type 0
AtEnd r m = Holds (is_idle m.stages)

-- And the task was given away.
abbrev pub Disposed : {R : Type 0} → R → Monitor → Type 0
Disposed r m = Holds (is_idle m.stages && m.disposed)

-- Each and Check in a weaker property.
Each-map :
    (c : Command) {P P' : Answer c → Type 0} → ((a : Answer c) → P a → P' a) → Each c P → Each c P'
Each-map (init s sql) f h = (f true h.0, f false h.1)
Each-map (bind s i v) f h = f tt h
Each-map (execute s) f h = (f true h.0, f false h.1)
Each-map (query s) f h = (f true h.0, f false h.1)
Each-map (get_result s) f h = (f true h.0, f false h.1)
Each-map (get_num_rows s) f h = λ n. f n (h n)
Each-map (fetch s) f h = ((λ row. f (some row) (h.0 row)), f none h.1)
Each-map (fetch_all s) f h = λ n. f n (h n)
Each-map (free s) f h = f tt h
Each-map (column s i c) f h = f tt h
Each-map (set_redis key value) f h = f tt h
Each-map (respond r) f h = f tt h
Each-map delete_task f h = f tt h
Each-map now f h = λ n. f n (h n)
Each-map time f h = λ n. f n (h n)

module _ {R : Type 0} {Q Q' : R → Monitor → Type 0}
    (f : (r : R) (m : Monitor) → Q r m → Q' r m) where
  Allowed-map :
      (c : Command) (g : Option (Answer c → Monitor)) {P P' : Answer c → Monitor → Type 0}
      → ((a : Answer c) (m : Monitor) → P a m → P' a m)
      → Allowed c g P
      → Allowed c g P'
  Allowed-map c none f h = h
  Allowed-map c (some after) f h = Each-map c (λ a. f a (after a)) h

  pub Check-map : (p : Program R) (m : Monitor) → Check Q p m → Check Q' p m
  Check-map (done r) m h = f r m h
  Check-map (command c k) m h = Allowed-map c (step c m) (λ a m'. Check-map (k a) m') h
  Check-map (branch b p q) m h = ((λ e. Check-map p m (h.0 e)), (λ e. Check-map q m (h.1 e)))

Holds→eq : (b : Bool) → Holds b → b ≡ true
Holds→eq true h = refl
Holds→eq false h = absurd h

pub Check-obeys :
    (world : World) {R : Type 0} (p : Program R) (s : world.State)
    → Check AtEnd p start
    → obeys (run world p s).1 ≡ true
unfolding obeys
Check-obeys world p s h =
    let (m, e, q) = Check-IsSound world AtEnd p start s h in
    rw (e, obeys) (Holds→eq (is_idle m.stages) q)

Holds-and : (a b : Bool) → Holds (a && b) → Holds a
Holds-and true b h = tt
Holds-and false b h = h

pub Disposed-AtEnd :
    {R : Type 0} (p : Program R) (m : Monitor) → Check Disposed p m → Check AtEnd p m
Disposed-AtEnd p m h = Check-map (λ r m'. Holds-and (is_idle m'.stages) m'.disposed) p m h

pub Check-gives_away :
    (world : World) {R : Type 0} (p : Program R) (s : world.State)
    → Check Disposed p start
    → gives_away (run world p s).1 ≡ true
unfolding gives_away
Check-gives_away world p s h =
    let (m, e, q) = Check-IsSound world Disposed p start s h in
    rw (e, gives_away) (Holds→eq (is_idle m.stages && m.disposed) q)
