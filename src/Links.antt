-- ===== src/Links.antt =====
-- The connections that the server opens itself and opens again: src/net_work.cpp, the functions of
-- src/net_server.cpp that read from a connection or that a timer calls, and get_router_table of
-- src/handler_router.cpp. What the operating system answers is an argument of each function.
pub mod Kept
pub mod Leak
use db_proxy_server.Prelude.{
  ℕ, zero, suc, Bool, true, false, not, ◌&&◌, Option, none, some, List, [], ◌∷◌, ◌==◌,
  if◌then◌else◌,
}

-- socket() fails; or it returns a descriptor on which connect() fails; or both succeed.
pub data Attempt : Type 0 where
  socket_failed : Attempt
  connect_failed connected : ℕ → Attempt

-- A timer: the pointer is NULL, or the timer is not pending, or it is.
pub data Timer : Type 0 where
  null idle armed : Timer

-- The callback of a connection's event.
pub data Reader : Type 0 where
  do_read do_account_read : Reader

-- What evbuffer_read returns: more than 0; -1 with EAGAIN, with EINTR, with another error; or 0.
pub data ReadAnswer : Type 0 where
  got again interrupted error closed : ReadAnswer

-- A descriptor is none where it is -1 or was never set. `watched` lists the net_conn objects whose
-- event is registered, each by its socket. `open_fds` lists the sockets that are open.
pub record NetWork : Type 0 where
  pub m_router_fd : Option ℕ
  pub m_account_fd : Option ℕ
  pub m_status_fd : Option ℕ
  pub m_router_timer : Timer
  pub m_account_timer : Timer
  pub m_status_timer : Timer
  pub m_status_ip : List ℕ
  pub m_status_port : ℕ
  pub m_status_enable : Bool
  pub watched : List (ℕ × Reader)
  pub open_fds : List ℕ

-- net_work::do_router_connect. Sending the registration changes nothing here.
unfoldable pub do_router_connect : Attempt → NetWork → ℕ × NetWork
do_router_connect socket_failed s = (1, record s { m_router_fd = none })
do_router_connect (connect_failed fd) s =
    (1, record s { m_router_fd = some fd; open_fds = fd ∷ s.open_fds })
do_router_connect (connected fd) s = (
  0,
  record s {
    m_router_fd = some fd;
    open_fds = fd ∷ s.open_fds;
    watched = (fd, do_read) ∷ s.watched;
  },
)

-- net_work::do_account_connect.
unfoldable pub do_account_connect : Attempt → NetWork → ℕ × NetWork
do_account_connect socket_failed s = (1, record s { m_account_fd = none })
do_account_connect (connect_failed fd) s =
    (1, record s { m_account_fd = some fd; open_fds = fd ∷ s.open_fds })
do_account_connect (connected fd) s = (
  0,
  record s {
    m_account_fd = some fd;
    open_fds = fd ∷ s.open_fds;
    watched = (fd, do_account_read) ∷ s.watched;
  },
)

-- net_work::do_status_connect.
unfoldable pub do_status_connect : Attempt → NetWork → ℕ × NetWork
do_status_connect socket_failed s = (1, record s { m_status_fd = none })
do_status_connect (connect_failed fd) s =
    (1, record s { m_status_fd = some fd; open_fds = fd ∷ s.open_fds })
do_status_connect (connected fd) s = (
  0,
  record s {
    m_status_fd = some fd;
    m_status_enable = true;
    open_fds = fd ∷ s.open_fds;
    watched = (fd, do_read) ∷ s.watched;
  },
)

-- The three functions that set a timer to 30 seconds.
unfoldable pub do_router_re_connect : NetWork → NetWork
do_router_re_connect s = record s { m_router_timer = armed }

unfoldable pub do_account_re_connect : NetWork → NetWork
do_account_re_connect s = record s { m_account_timer = armed }

unfoldable pub do_status_re_connect : NetWork → NetWork
do_status_re_connect s = record s { m_status_timer = armed }

-- `if (0 != connect) re_connect`.
unfoldable pub or_else : (NetWork → NetWork) → ℕ × NetWork → NetWork
or_else re_connect (zero, s) = s
or_else re_connect (suc n, s) = re_connect s

unfoldable pub connect_router : Attempt → NetWork → NetWork
unfolding or_else
connect_router a s = or_else do_router_re_connect (do_router_connect a s)

unfoldable pub connect_account : Attempt → NetWork → NetWork
unfolding or_else
connect_account a s = or_else do_account_re_connect (do_account_connect a s)

unfoldable pub connect_status : Attempt → NetWork → NetWork
unfolding or_else
connect_status a s = or_else do_status_re_connect (do_status_connect a s)

-- The timers' callbacks. A timer that has run is no longer pending.
unfoldable pub router_timer : Attempt → NetWork → NetWork
unfolding connect_router
router_timer a s = connect_router a (record s { m_router_timer = idle })

unfoldable pub account_timer : Attempt → NetWork → NetWork
unfolding connect_account
account_timer a s = connect_account a (record s { m_account_timer = idle })

unfoldable pub status_timer : Attempt → NetWork → NetWork
unfolding connect_status
status_timer a s =
    let s' = record s { m_status_timer = idle } in
    elim s.m_status_enable [ true ↦ s' | false ↦ connect_status a s' ]

abbrev pub is_fd : Option ℕ → ℕ → Bool
is_fd none fd = false
is_fd (some x) fd = x == fd

abbrev pub same_reader : Reader → Reader → Bool
same_reader do_read do_read = true
same_reader do_read do_account_read = false
same_reader do_account_read do_read = false
same_reader do_account_read do_account_read = true

unfoldable pub unwatch : ℕ → Reader → List (ℕ × Reader) → List (ℕ × Reader)
unwatch fd r [] = []
unwatch fd r ((x, q) ∷ rest) = elim ((x == fd) && same_reader q r) [
  | true ↦ unwatch fd r rest
  | false ↦ (x, q) ∷ unwatch fd r rest
]

unfoldable pub close_fd : ℕ → List ℕ → List ℕ
close_fd fd [] = []
close_fd fd (x ∷ rest) = if x == fd then close_fd fd rest else x ∷ close_fd fd rest

-- `delete conn`: net_conn::free closes the socket and frees the event.
unfoldable pub delete_conn : ℕ → Reader → NetWork → NetWork
delete_conn fd r s = record s {
  watched = unwatch fd r s.watched;
  open_fds = close_fd fd s.open_fds;
}

-- read_data on a connection that is lost.
unfoldable pub lost : ℕ → Attempt → NetWork → NetWork
unfolding delete_conn
lost fd a s = elim (is_fd s.m_router_fd fd) [
  | true ↦ delete_conn fd do_read (connect_router a s)
  | false ↦ elim (is_fd s.m_status_fd fd) [
    | true ↦ delete_conn fd do_read (record s { m_status_enable = false })
    | false ↦ delete_conn fd do_read s
  ]
]

-- net_server::read_data on the connection with socket `fd`: none while the answers are all EINTR.
unfoldable pub read_data : List ReadAnswer → ℕ → Attempt → NetWork → Option (Bool × NetWork)
read_data [] fd a s = none
read_data (got ∷ answers) fd a s = some (true, s)
read_data (again ∷ answers) fd a s = some (false, s)
read_data (interrupted ∷ answers) fd a s = read_data answers fd a s
read_data (error ∷ answers) fd a s = some (false, lost fd a s)
read_data (closed ∷ answers) fd a s = some (false, lost fd a s)

-- net_server::account_read_data.
unfoldable pub account_lost : ℕ → Attempt → NetWork → NetWork
unfolding delete_conn
account_lost fd a s = delete_conn fd do_account_read (connect_account a s)

unfoldable pub account_read_data : List ReadAnswer → ℕ → Attempt → NetWork → Option (Bool × NetWork)
account_read_data [] fd a s = none
account_read_data (got ∷ answers) fd a s = some (true, s)
account_read_data (again ∷ answers) fd a s = some (false, s)
account_read_data (interrupted ∷ answers) fd a s = account_read_data answers fd a s
account_read_data (error ∷ answers) fd a s = some (false, account_lost fd a s)
account_read_data (closed ∷ answers) fd a s = some (false, account_lost fd a s)

-- net_work::set_status_ip and set_status_port.
unfoldable pub set_status_ip : List ℕ → NetWork → NetWork
set_status_ip ip s = record s { m_status_ip = ip }

unfoldable pub set_status_port : ℕ → NetWork → NetWork
set_status_port port s = record s { m_status_port = port }

-- The servers of a router table that carry SID_S2S_BROADCAST, each with what happens on a connect.
unfoldable pub try_servers : List (List ℕ × ℕ × Attempt) → NetWork → NetWork
unfolding set_status_ip set_status_port
try_servers [] s = s
try_servers ((ip, port, a) ∷ rest) s =
    try_servers rest (connect_status a (set_status_port port (set_status_ip ip s)))

-- get_router_table: the test of m_status_enable is made once, in front of the loops.
unfoldable pub get_router_table : List (List ℕ × ℕ × Attempt) → NetWork → NetWork
unfolding try_servers
get_router_table servers s = elim s.m_status_enable [ true ↦ s | false ↦ try_servers servers s ]

-- net_work::do_accept of one connection.
unfoldable pub do_accept : ℕ → NetWork → NetWork
do_accept fd s = record s { open_fds = fd ∷ s.open_fds; watched = (fd, do_read) ∷ s.watched }

-- net_work::net_work: nothing is connected.
abbrev pub new_network : NetWork
new_network = record {
  m_router_fd = none;
  m_account_fd = none;
  m_status_fd = none;
  m_router_timer = null;
  m_account_timer = null;
  m_status_timer = null;
  m_status_ip = [];
  m_status_port = 4294967295;
  m_status_enable = false;
  watched = [];
  open_fds = [];
}
