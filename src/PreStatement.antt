-- ===== src/PreStatement.antt =====
-- src/pre_statement.cpp: a prepared statement of MySQL, the array that its parameters are bound
-- through, and the array for the columns of its result.
pub mod Client
pub mod Safe
pub mod Calls
pub mod Binding
use Client.{
  FieldType, none_set, tiny, short, long, longlong, var_string, Bind, Fetch, row, no_data,
  truncated, fetch_error, Mysql,
}
use db_proxy_server.Prelude.{
  ℕ, zero, suc, ◌+◌, Bool, true, false, Option, none, some, List, [], ◌∷◌, get_elem?, set,
  replicate, leb, ltb,
}

-- What set_param_bind is given: a reference to a variable of one of six types, by its address. For
-- a string the address is c_str(), and its length counts.
pub data Param : Type 0 where
  uint8 uint16 int32 uint32 uint64 : ℕ → Param
  string : ℕ → ℕ → Param

-- A structure that memset has filled with 0.
abbrev pub zero_bind : Bind
zero_bind = record { buffer_type = none_set; buffer = 0; buffer_length = 0; length_at = 0 }

-- The fields that the six versions of set_param_bind write.
abbrev pub bind_to : Param → Bind → Bind
bind_to (uint8 p) b = record b { buffer_type = tiny; buffer = p; buffer_length = 1 }
bind_to (uint16 p) b = record b { buffer_type = short; buffer = p; buffer_length = 2 }
bind_to (int32 p) b = record b { buffer_type = long; buffer = p; buffer_length = 4 }
bind_to (uint32 p) b = record b { buffer_type = long; buffer = p; buffer_length = 4 }
bind_to (uint64 p) b = record b { buffer_type = longlong; buffer = p; buffer_length = 8 }
bind_to (string p n) b = record b { buffer_type = var_string; buffer = p; buffer_length = n }

-- The guard and the writes of set_param_bind and set_param_result: 1 for an index that is too
-- large, else a write to the array, with `none` for a write outside it.
unfoldable pub set_bind :
    ℕ → Option (List Bind) → ℕ → (Bind → Bind) → Option (ℕ × Option (List Bind))
set_bind count binds index f = elim (leb count index) [
  | true ↦ some (1, binds)
  | false ↦ elim binds [
    | none ↦ none
    | some l ↦ elim (get_elem? l index) [
      | none ↦ none
      | some b ↦ some (0, some (set l index (f b)))
    ]
  ]
]

module _ (mysql : Mysql) where
  open mysql use {
    Db, Stmt, stmt_init, stmt_prepare, stmt_param_count, stmt_bind_param, stmt_execute,
    stmt_field_count, stmt_bind_result, stmt_store_result, stmt_fetch, stmt_free, store_result,
    next_result, pending,
  }

  -- The object, and the state behind m_mysql.
  pub record PreStatement : Type 0 where
    pub db : Db
    pub m_stmt : Option Stmt
    pub m_param_bind : Option (List Bind)
    pub m_result_bind : Option (List Bind)
    pub m_param_count : ℕ
    pub m_result_count : ℕ

  -- pre_statement::pre_statement.
  abbrev pub new_statement : Db → PreStatement
  new_statement d = record {
    db = d;
    m_stmt = none;
    m_param_bind = none;
    m_result_bind = none;
    m_param_count = 0;
    m_result_count = 0;
  }

  -- `new MYSQL_BIND[n]` and memset, for n above 0.
  abbrev pub new_binds : ℕ → Option (List Bind) → Option (List Bind)
  new_binds zero old = old
  new_binds (suc n) old = some (replicate (suc n) zero_bind)

  -- init behind mysql_stmt_init.
  unfoldable pub prepare : List ℕ → PreStatement → Option Stmt × Db → ℕ × PreStatement
  prepare sql s (none, d) = (1, record s { db = d; m_stmt = none })
  prepare sql s (some stmt, d) =
      let (fails, d') = stmt_prepare stmt sql d in
      elim fails [
        | true ↦ (1, record s { db = d'; m_stmt = some stmt })
        | false ↦
            let n = stmt_param_count stmt d' in
            (
              0,
              record s {
                db = d';
                m_stmt = some stmt;
                m_param_count = n;
                m_param_bind = new_binds n s.m_param_bind;
              },
            )
      ]

  unfoldable pub init : List ℕ → PreStatement → ℕ × PreStatement
  unfolding prepare
  init sql s = prepare sql s (stmt_init s.db)

  unfoldable pub set_param_bind : ℕ → Param → PreStatement → Option (ℕ × PreStatement)
  unfolding set_bind
  set_param_bind index p s = elim (set_bind s.m_param_count s.m_param_bind index (bind_to p)) [
    | none ↦ none
    | some (r, binds) ↦ some (r, record s { m_param_bind = binds })
  ]

  -- What execute and query begin with.
  unfoldable pub execute_with : Option Stmt → PreStatement → ℕ × PreStatement
  execute_with none s = (1, s)
  execute_with (some stmt) s =
      let (unbound, d) = stmt_bind_param stmt s.m_param_bind s.db in
      elim unbound [
        | true ↦ (1, record s { db = d })
        | false ↦
            let (fails, d') = stmt_execute stmt d in
            elim fails [ true ↦ (1, record s { db = d' }) | false ↦ (0, record s { db = d' }) ]
      ]

  unfoldable pub execute : PreStatement → ℕ × PreStatement
  unfolding execute_with
  execute s = execute_with s.m_stmt s

  -- query behind a successful execution, with the number of the result's columns.
  unfoldable pub make_result : ℕ → PreStatement → ℕ × PreStatement
  make_result zero s = (1, record s { m_result_count = 0 })
  make_result (suc n) s =
      (0, record s { m_result_count = suc n; m_result_bind = some (replicate (suc n) zero_bind) })

  unfoldable pub field_count : Option Stmt → PreStatement → ℕ
  field_count none s = 0
  field_count (some stmt) s = stmt_field_count stmt s.db

  unfoldable pub query : PreStatement → ℕ × PreStatement
  unfolding execute make_result field_count
  query s =
      let (r, s') = execute s in
      elim (ltb 0 r) [ true ↦ (1, s') | false ↦ make_result (field_count s'.m_stmt s') s' ]

  unfoldable pub set_param_result :
      ℕ → FieldType → ℕ → ℕ → ℕ → PreStatement → Option (ℕ × PreStatement)
  unfolding set_bind
  set_param_result index type buffer buffer_length length_at s =
      let b : Bind = record {
        buffer_type = type;
        buffer = buffer;
        buffer_length = buffer_length;
        length_at = length_at;
      } in
      elim (set_bind s.m_result_count s.m_result_bind index (λ _. b)) [
        | none ↦ none
        | some (r, binds) ↦ some (r, record s { m_result_bind = binds })
      ]

  -- get_result and fetch_result hand m_stmt on without a test: `none` for a null pointer.
  unfoldable pub get_result : PreStatement → Option (ℕ × PreStatement)
  get_result s = elim s.m_stmt [
    | none ↦ none
    | some stmt ↦
        let (unbound, d) = stmt_bind_result stmt s.m_result_bind s.db in
        elim unbound [
          | true ↦ some (1, record s { db = d })
          | false ↦
              let (fails, d') = stmt_store_result stmt d in
              elim fails [
                | true ↦ some (1, record s { db = d' })
                | false ↦ some (0, record s { db = d' })
              ]
        ]
  ]

  abbrev pub fetch_code : Fetch → ℕ
  fetch_code row = 0
  fetch_code no_data = 1
  fetch_code truncated = 1
  fetch_code fetch_error = 1

  unfoldable pub fetch_result : PreStatement → Option (ℕ × PreStatement)
  fetch_result s = elim s.m_stmt [
    | none ↦ none
    | some stmt ↦ let (f, d) = stmt_fetch stmt s.db in some (fetch_code f, record s { db = d })
  ]

  -- The loop of free, on fuel.
  unfoldable pub drain_results : ℕ → Db → Option Db
  drain_results zero d = none
  drain_results (suc fuel) d =
      let (more, d') = next_result (store_result d) in
      let rest = drain_results fuel d' in elim more [ true ↦ rest | false ↦ some d' ]

  -- The first part of free: `none` if the loop does not end.
  unfoldable pub close : Option Stmt → Db → Option Db
  unfolding drain_results
  close none d = some d
  close (some stmt) d = let d' = stmt_free stmt d in drain_results (suc (pending d')) d'

  -- `if (m_param_bind) { delete[] m_param_bind; m_param_bind = NULL; }`, and the same for results.
  abbrev pub delete_params : Option (List Bind) → PreStatement → PreStatement
  delete_params none s = s
  delete_params (some binds) s = record s { m_param_bind = none }

  abbrev pub delete_results : Option (List Bind) → PreStatement → PreStatement
  delete_results none s = s
  delete_results (some binds) s = record s { m_result_bind = none }

  abbrev pub close_stmt : Option Stmt → PreStatement → Db → PreStatement
  close_stmt none s d = s
  close_stmt (some stmt) s d = record s { db = d; m_stmt = none }

  unfoldable pub free : PreStatement → Option PreStatement
  unfolding close
  free s = elim (close s.m_stmt s.db) [
    | none ↦ none
    | some d ↦
        let closed = close_stmt s.m_stmt s d in
        let cleared = delete_results s.m_result_bind (delete_params s.m_param_bind closed) in
        some (record cleared { m_param_count = 0; m_result_count = 0 })
  ]
