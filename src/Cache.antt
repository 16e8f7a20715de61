-- ===== src/Cache.antt =====
-- src/cache_conn.cpp: a connection to redis that is opened on first use and dropped on failure.
-- hiredis and the server are the environment: the list of the replies that the server will give, in
-- order. `sent` records each command with the database that the connection had selected then.
pub mod Selected
use db_proxy_server.Prelude.{
  ℕ, zero, suc, ◌==◌, ◌&&◌, if◌then◌else◌, Bool, true, false, not, Option, none, some, List, [],
  ◌∷◌, ◌++◌,
}

-- What a call of hiredis returns: for a connect, whether it succeeded; for a command, a reply of one
-- of hiredis' types, or none for a null reply.
pub data Reply : Type 0 where
  status : List ℕ → Reply
  string : List ℕ → Reply
  integer : ℕ → Reply
  nil : Reply
  error : List ℕ → Reply

pub data Answer : Type 0 where
  connect_failed connected no_reply : Answer
  reply : Reply → Answer

pub data Command : Type 0 where
  select : ℕ → Command
  set : List ℕ → List ℕ → Command
  get : List ℕ → Command
  del : List ℕ → Command

-- A context of hiredis: the database that the server has selected for it, 0 at first, and `err`, which
-- is set once a command had no reply: hiredis then answers every command on the context with a null
-- reply and sends nothing.
pub record Context : Type 0 where
  pub db : ℕ
  pub err : Bool

-- The connection: `m_context` is none for a null pointer. `redis_num` is the configured database.
pub record CacheConn : Type 0 where
  pub m_context : Option Context
  pub redis_num : ℕ
  pub answers : List Answer
  pub sent : List (ℕ × Command)

-- The next answer. With none left the connection fails and a command has no reply.
unfoldable pub next_answer : List Answer → Answer × List Answer
next_answer [] = (connect_failed, [])
next_answer (a ∷ answers) = (a, answers)

-- `strncmp(s, t, length of s) == 0`, for a `t` that holds no byte 0 but the one at its end.
abbrev pub begins : List ℕ → List ℕ → Bool
begins [] t = true
begins (x ∷ s) [] = x == 0
begins (x ∷ s) (y ∷ t) = (x == y) && begins s t

-- `reply && reply->type == REDIS_REPLY_STATUS && strncmp(reply->str, "OK", reply->len) == 0`.
abbrev pub is_ok : Answer → Bool
is_ok (reply (status s)) = begins s (b'O' ∷ b'K' ∷ [])
is_ok a = false

-- redisCommand on a context.
unfoldable pub redis_command : CacheConn → Context → Command → Answer × CacheConn
unfolding next_answer
redis_command c context command =
    let (a, rest) = next_answer c.answers in
    if context.err
    then (no_reply, c)
    else (a, record c { answers = rest; sent = c.sent ++ ((context.db, command) ∷ []) })

abbrev pub has_reply : Answer → Bool
has_reply (reply r) = true
has_reply connect_failed = false
has_reply connected = false
has_reply no_reply = false

-- The tail of init: the context is kept whatever the answer is, with the database `redis_num`
-- selected in the server after OK, and the initial 0 otherwise; without a reply it has its `err` set.
unfoldable pub select_db : CacheConn → ℕ × CacheConn
unfolding redis_command
select_db c =
    let (a, c') = redis_command c (record { db = 0; err = false }) (select c.redis_num) in
    elim (is_ok a) [
      | true ↦ (0, record c' { m_context = some (record { db = c.redis_num; err = false }) })
      | false ↦ (1, record c' { m_context = some (record { db = 0; err = not (has_reply a) }) })
    ]

unfoldable pub connect : Answer → CacheConn → ℕ × CacheConn
unfolding select_db
connect connected c = select_db c
connect a c = (1, record c { m_context = none })

unfoldable pub init_with : Option Context → CacheConn → ℕ × CacheConn
unfolding connect next_answer
init_with (some context) c = (0, c)
init_with none c = let (a, rest) = next_answer c.answers in connect a (record c { answers = rest })

-- cache_conn::init.
unfoldable pub init : CacheConn → ℕ × CacheConn
unfolding init_with
init c = init_with c.m_context c

-- A null reply drops the context.
unfoldable pub after_command : Answer × CacheConn → Answer × CacheConn
after_command (reply r, c) = (reply r, c)
after_command (a, c) = (no_reply, record c { m_context = none })

-- The command of set, get and del on a context.
unfoldable pub command_on : Command → Option Context → CacheConn → Answer × CacheConn
unfolding redis_command after_command
command_on command none c = (no_reply, c)
command_on command (some context) c = after_command (redis_command c context command)

-- `if (init()) return`.
unfoldable pub after_init : Command → ℕ × CacheConn → Answer × CacheConn
unfolding command_on
after_init command (zero, c) = command_on command c.m_context c
after_init command (suc n, c) = (no_reply, c)

-- What set, get and del have in common.
unfoldable pub run_command : Command → CacheConn → Answer × CacheConn
unfolding init after_init
run_command command c = after_init command (init c)

-- `ret_value.append(reply->str, reply->len)`; an integer and a nil reply carry no text.
abbrev pub text_of : Reply → List ℕ
text_of (status s) = s
text_of (string s) = s
text_of (integer n) = []
text_of nil = []
text_of (error s) = s

abbrev pub value_of_set : Answer → List ℕ
value_of_set (reply r) = text_of r
value_of_set a = []

abbrev pub value_of_get : Answer → List ℕ
value_of_get (reply (string s)) = s
value_of_get a = []

abbrev pub value_of_del : Answer → Bool
value_of_del (reply (integer n)) = true
value_of_del a = false

-- cache_conn::set, get and del.
unfoldable pub set_value : List ℕ → List ℕ → CacheConn → List ℕ × CacheConn
unfolding run_command
set_value key value c = let (a, c') = run_command (set key value) c in (value_of_set a, c')

unfoldable pub get_value : List ℕ → CacheConn → List ℕ × CacheConn
unfolding run_command
get_value key c = let (a, c') = run_command (get key) c in (value_of_get a, c')

unfoldable pub del_value : List ℕ → CacheConn → Bool × CacheConn
unfolding run_command
del_value key c = let (a, c') = run_command (del key) c in (value_of_del a, c')
