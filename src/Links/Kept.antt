-- ===== src/Links/Kept.antt =====
-- The connection to the router and the timer that opens it again.
use db_proxy_server.Links.{
  Attempt, socket_failed, connect_failed, connected, armed, idle, Reader, do_read, do_account_read,
  same_reader, ReadAnswer, got, again, interrupted, error, closed, NetWork, new_network,
  do_router_connect, do_account_connect, do_status_connect, do_router_re_connect,
  do_account_re_connect, do_status_re_connect, connect_router, connect_account, connect_status,
  router_timer, account_timer, status_timer, is_fd, unwatch, delete_conn, lost, read_data,
  account_lost, account_read_data, set_status_ip, set_status_port, try_servers, get_router_table,
  do_accept,
}
use db_proxy_server.Prelude.{
  ℕ, ◌≡◌, refl, ◌≢◌, ◌⊎◌, inl, inr, Bool, true, false, ◌&&◌, Option, none, some, List, [], ◌∷◌,
  ◌==◌, ne→==, Bool-cases,
}

-- `fd` is watched with this callback.
abbrev pub Watches : ℕ → Reader → List (ℕ × Reader) → Type 0
Watches fd r [] = ⊥
Watches fd r ((x, q) ∷ rest) = ((x ≡ fd) × (q ≡ r)) ⊎ Watches fd r rest

-- The router's socket is watched, or the timer that connects is pending.
abbrev pub IsKept : NetWork → Type 0
IsKept s =
    ((fd : ℕ) × (s.m_router_fd ≡ some fd) × Watches fd do_read s.watched)
    ⊎ (s.m_router_timer ≡ armed)

-- socket() does not return a descriptor that is open.
abbrev pub IsFresh : Attempt → ℕ → Type 0
IsFresh socket_failed fd = Unit {0}
IsFresh (connect_failed x) fd = x ≢ fd
IsFresh (connected x) fd = x ≢ fd

-- What happens to the process: one of the callbacks runs, or a thread handles a router table.
pub data Step : Type 0 where
  readable : ℕ → List ReadAnswer → Attempt → Step
  account_readable : ℕ → List ReadAnswer → Attempt → Step
  router_due account_due status_due : Attempt → Step
  table_pushed : List (List ℕ × ℕ × Attempt) → Step
  accepted : ℕ → Step

abbrev pub state_of : NetWork → Option (Bool × NetWork) → NetWork
state_of s none = s
state_of s (some (r, s')) = s'

abbrev pub run_step : Step → NetWork → NetWork
run_step (readable fd answers a) s = state_of s (read_data answers fd a s)
run_step (account_readable fd answers a) s = state_of s (account_read_data answers fd a s)
run_step (router_due a) s = router_timer a s
run_step (account_due a) s = account_timer a s
run_step (status_due a) s = status_timer a s
run_step (table_pushed servers) s = get_router_table servers s
run_step (accepted fd) s = do_accept fd s

-- A socket that is being read is open, so a connect gets another one.
abbrev pub IsPossible : Step → Type 0
IsPossible (readable fd answers a) = IsFresh a fd
IsPossible (account_readable fd answers a) = IsFresh a fd
IsPossible (router_due a) = Unit {0}
IsPossible (account_due a) = Unit {0}
IsPossible (status_due a) = Unit {0}
IsPossible (table_pushed servers) = Unit {0}
IsPossible (accepted fd) = Unit {0}

Watches-unwatch :
    (fd x : ℕ) (r q : Reader) (l : List (ℕ × Reader))
    → ((x == fd) && same_reader q r) ≡ false
    → Watches x q l
    → Watches x q (unwatch fd r l)
unfolding unwatch
Watches-unwatch fd x r q [] e w = w
Watches-unwatch fd x r q ((y, p) ∷ rest) e w = elim (Bool-cases ((y == fd) && same_reader p r)) [
  | inl t ↦
      rw (t, unwatch)
        (elim w [
          | inl (a, b) ↦ let t' : ((x == fd) && same_reader q r) ≡ true = rw (a, b) at t in cc
          | inr later ↦ Watches-unwatch fd x r q rest e later
        ])
  | inr t ↦
      rw (t, unwatch)
        (elim w [ inl here ↦ inl here | inr later ↦ inr (Watches-unwatch fd x r q rest e later) ])
]

connect_router-IsKept : (a : Attempt) (s : NetWork) → IsKept (connect_router a s)
unfolding connect_router do_router_connect do_router_re_connect
connect_router-IsKept socket_failed s = inr refl
connect_router-IsKept (connect_failed fd) s = inr refl
connect_router-IsKept (connected fd) s = inl (fd, refl, inl (refl, refl))

-- A connect of another kind only adds to what is watched.
connect_account-IsKept : (a : Attempt) (s : NetWork) → IsKept s → IsKept (connect_account a s)
unfolding connect_account do_account_connect do_account_re_connect
connect_account-IsKept socket_failed s k = k
connect_account-IsKept (connect_failed fd) s k = k
connect_account-IsKept (connected fd) s (inl (x, e, w)) = inl (x, e, inr w)
connect_account-IsKept (connected fd) s (inr t) = inr t

connect_status-IsKept : (a : Attempt) (s : NetWork) → IsKept s → IsKept (connect_status a s)
unfolding connect_status do_status_connect do_status_re_connect
connect_status-IsKept socket_failed s k = k
connect_status-IsKept (connect_failed fd) s k = k
connect_status-IsKept (connected fd) s (inl (x, e, w)) = inl (x, e, inr w)
connect_status-IsKept (connected fd) s (inr t) = inr t

try_servers-IsKept :
    (servers : List (List ℕ × ℕ × Attempt)) (s : NetWork)
    → IsKept s
    → IsKept (try_servers servers s)
unfolding try_servers set_status_ip set_status_port
try_servers-IsKept [] s k = k
try_servers-IsKept ((ip, port, a) ∷ rest) s k =
    try_servers-IsKept rest _
      (connect_status-IsKept a (set_status_port port (set_status_ip ip s)) k)

-- Deleting a connection that is not the router's.
delete_conn-IsKept :
    (fd : ℕ) (r : Reader) (s : NetWork)
    → ((x : ℕ) → s.m_router_fd ≡ some x → ((x == fd) && same_reader do_read r) ≡ false)
    → IsKept s
    → IsKept (delete_conn fd r s)
unfolding delete_conn
delete_conn-IsKept fd r s h (inl (x, e, w)) =
    inl (x, e, Watches-unwatch fd x r do_read s.watched (h x e) w)
delete_conn-IsKept fd r s h (inr t) = inr t

-- The router's new socket is another than the one that is deleted.
router-fresh :
    (fd : ℕ) (a : Attempt) (s : NetWork) (x : ℕ)
    → IsFresh a fd
    → (connect_router a s).m_router_fd ≡ some x
    → ((x == fd) && same_reader do_read do_read) ≡ false
unfolding connect_router do_router_connect do_router_re_connect
router-fresh fd socket_failed s x f e = cc
router-fresh fd (connect_failed y) s x f e = let same : y ≡ x = cc in rw (← same, ne→== y fd f)
router-fresh fd (connected y) s x f e = let same : y ≡ x = cc in rw (← same, ne→== y fd f)

lost-IsKept : (fd : ℕ) (a : Attempt) (s : NetWork) → IsFresh a fd → IsKept s → IsKept (lost fd a s)
unfolding lost
lost-IsKept fd a s f k = elim (Bool-cases (is_fd s.m_router_fd fd)) [
  | inl t ↦
      rw (t, lost)
        (delete_conn-IsKept fd do_read (connect_router a s) (λ x. router-fresh fd a s x f)
          (connect_router-IsKept a s))
  | inr t ↦
      let other : (x : ℕ) → s.m_router_fd ≡ some x → ((x == fd) && true) ≡ false =
        λ x e. let t' : (x == fd) ≡ false = rw e at t in rw t' in
      elim (Bool-cases (is_fd s.m_status_fd fd)) [
        | inl u ↦
            rw (t, u, lost)
              (delete_conn-IsKept fd do_read (record s { m_status_enable = false }) other k)
        | inr u ↦ rw (t, u, lost) (delete_conn-IsKept fd do_read s other k)
      ]
]

read_data-IsKept :
    (answers : List ReadAnswer) (fd : ℕ) (a : Attempt) (s : NetWork)
    → IsFresh a fd
    → IsKept s
    → IsKept (state_of s (read_data answers fd a s))
unfolding read_data
read_data-IsKept [] fd a s f k = k
read_data-IsKept (got ∷ answers) fd a s f k = k
read_data-IsKept (again ∷ answers) fd a s f k = k
read_data-IsKept (interrupted ∷ answers) fd a s f k = read_data-IsKept answers fd a s f k
read_data-IsKept (error ∷ answers) fd a s f k = lost-IsKept fd a s f k
read_data-IsKept (closed ∷ answers) fd a s f k = lost-IsKept fd a s f k

account_lost-IsKept : (fd : ℕ) (a : Attempt) (s : NetWork) → IsKept s → IsKept (account_lost fd a s)
unfolding account_lost
account_lost-IsKept fd a s k =
    delete_conn-IsKept fd do_account_read (connect_account a s) (λ x e. never (x == fd))
      (connect_account-IsKept a s k)
  where
    never : (b : Bool) → (b && false) ≡ false
    never true = refl
    never false = refl

account_read_data-IsKept :
    (answers : List ReadAnswer) (fd : ℕ) (a : Attempt) (s : NetWork)
    → IsKept s
    → IsKept (state_of s (account_read_data answers fd a s))
unfolding account_read_data
account_read_data-IsKept [] fd a s k = k
account_read_data-IsKept (got ∷ answers) fd a s k = k
account_read_data-IsKept (again ∷ answers) fd a s k = k
account_read_data-IsKept (interrupted ∷ answers) fd a s k =
    account_read_data-IsKept answers fd a s k
account_read_data-IsKept (error ∷ answers) fd a s k = account_lost-IsKept fd a s k
account_read_data-IsKept (closed ∷ answers) fd a s k = account_lost-IsKept fd a s k

run_step-IsKept : (c : Step) (s : NetWork) → IsPossible c → IsKept s → IsKept (run_step c s)
unfolding router_timer account_timer status_timer get_router_table do_accept
run_step-IsKept (readable fd answers a) s f k = read_data-IsKept answers fd a s f k
run_step-IsKept (account_readable fd answers a) s f k = account_read_data-IsKept answers fd a s k
run_step-IsKept (router_due a) s f k = connect_router-IsKept a (record s { m_router_timer = idle })
run_step-IsKept (account_due a) s f k =
    connect_account-IsKept a (record s { m_account_timer = idle }) k
run_step-IsKept (status_due a) s f k = elim (Bool-cases s.m_status_enable) [
  | inl e ↦ rw (run_step, e, status_timer) k
  | inr e ↦
      rw (run_step, e, status_timer)
        (connect_status-IsKept a (record s { m_status_timer = idle }) k)
]
run_step-IsKept (table_pushed servers) s f k = elim (Bool-cases s.m_status_enable) [
  | inl e ↦ rw (run_step, e, get_router_table) k
  | inr e ↦ rw (run_step, e, get_router_table) (try_servers-IsKept servers s k)
]
run_step-IsKept (accepted fd) s f (inl (x, e, w)) = inl (x, e, inr w)
run_step-IsKept (accepted fd) s f (inr t) = inr t

-- The states after net_server::start, whose first connect to the router ends as `a`.
pub data Running (a : Attempt) : NetWork → Type 0 where
  started : Running a (connect_router a new_network)
  stepped : (c : Step) (s : NetWork) → Running a s → IsPossible c → Running a (run_step c s)

-- From the start on, in every order of callbacks and whatever the operating system answers, the
-- socket of the router is watched by the event loop or the timer that connects to the router again
-- is pending: the connection is never given up. A connect is taken to return another socket than
-- the one that is being read.
pub Running-IsKept : (a : Attempt) (s : NetWork) → Running a s → IsKept s
Running-IsKept a s started = connect_router-IsKept a new_network
Running-IsKept a s (stepped c before r p) = run_step-IsKept c before p (Running-IsKept a before r)
