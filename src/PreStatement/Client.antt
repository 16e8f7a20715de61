-- ===== src/PreStatement/Client.antt =====
-- The client library of MySQL as pre_statement.cpp uses it: an interface, since it is not part of
-- the repository. `Db` is the state behind a connection, and a statement handle is a `Stmt`.
use db_proxy_server.Prelude.{ℕ, ◌≤◌, ◌<◌, ◌≡◌, Bool, true, Option, List}

-- The buffer types that the source uses. `other` is any other number of enum_field_types.
pub data FieldType : Type 0 where
  none_set tiny short long longlong var_string : FieldType
  other : ℕ → FieldType

-- MYSQL_BIND: `buffer` and `length_at` are addresses, 0 for a null pointer.
pub record Bind : Type 0 where
  pub buffer_type : FieldType
  pub buffer : ℕ
  pub buffer_length : ℕ
  pub length_at : ℕ

-- What mysql_stmt_fetch returns.
pub data Fetch : Type 0 where
  row no_data truncated fetch_error : Fetch

pub record Mysql : Type 1 where
  pub Db : Type 0
  pub Stmt : Type 0
  pub stmt_init : Db → Option Stmt × Db
  -- `true` stands for a return value other than 0, which is an error.
  pub stmt_prepare : Stmt → List ℕ → Db → Bool × Db
  pub stmt_param_count : Stmt → Db → ℕ
  pub stmt_bind_param : Stmt → Option (List Bind) → Db → Bool × Db
  pub stmt_execute : Stmt → Db → Bool × Db
  pub stmt_field_count : Stmt → Db → ℕ
  pub stmt_bind_result : Stmt → Option (List Bind) → Db → Bool × Db
  pub stmt_store_result : Stmt → Db → Bool × Db
  pub stmt_num_rows : Stmt → Db → ℕ
  pub stmt_fetch : Stmt → Db → Fetch × Db
  -- mysql_stmt_free_result and mysql_stmt_close.
  pub stmt_free : Stmt → Db → Db
  -- mysql_store_result, and mysql_free_result of what it returns.
  pub store_result : Db → Db
  -- `true` if mysql_next_result returns 0: there is one more result.
  pub next_result : Db → Bool × Db
  -- The results that the connection still holds: going on to the next one uses one up.
  pub pending : Db → ℕ
  pub pending-store_result : (d : Db) → pending (store_result d) ≤ pending d
  pub pending-next_result :
      (d : Db) → (next_result d).0 ≡ true → pending (next_result d).1 < pending d
