-- ===== src/PreStatement/Calls.antt =====
-- The member functions of pre_statement, called in any order.
use db_proxy_server.PreStatement.Client.{FieldType, Mysql}
use db_proxy_server.PreStatement.{
  Param, bind_to, PreStatement, new_statement, init, set_param_bind, execute, query,
  set_param_result, get_result, fetch_result, fetch_code, free,
}
use db_proxy_server.Prelude.{
  ℕ, ◌≡◌, refl, inl, inr, Option, none, some, List, arith, Bool-cases, subst,
}
use db_proxy_server.PreStatement.Safe.{
  set_bind-capacity, IsSafe, new_statement-IsSafe, prepare-IsSafe, execute-IsSafe, query-IsSafe,
  free_lem,
}

module _ (mysql : Mysql) where
  open mysql use {Db, Stmt}

  -- A call of one of the member functions.
  pub data Call : Type 0 where
    init_call : List ℕ → Call
    param_call : ℕ → Param → Call
    execute_call : Call
    query_call : Call
    result_call : ℕ → FieldType → ℕ → ℕ → ℕ → Call
    get_call : Call
    fetch_call : Call
    free_call : Call

  -- Returns 0 or what the function returns; none for a wrong access or a loop that does not end.
  abbrev pub run_call : Call → PreStatement mysql → Option (ℕ × PreStatement mysql)
  run_call (init_call sql) s = some (init mysql sql s)
  run_call (param_call index p) s = set_param_bind mysql index p s
  run_call execute_call s = some (execute mysql s)
  run_call query_call s = some (query mysql s)
  run_call (result_call index t b n l) s = set_param_result mysql index t b n l s
  run_call get_call s = get_result mysql s
  run_call fetch_call s = fetch_result mysql s
  run_call free_call s = elim (free mysql s) [ none ↦ none | some s' ↦ some (0, s') ]

  -- get_result and fetch_result need a statement; the other functions do not.
  abbrev pub IsAllowed : Call → PreStatement mysql → Type 0
  IsAllowed get_call s = (stmt : Stmt) × (s.m_stmt ≡ some stmt)
  IsAllowed fetch_call s = (stmt : Stmt) × (s.m_stmt ≡ some stmt)
  IsAllowed (init_call sql) s = Unit {0}
  IsAllowed (param_call index p) s = Unit {0}
  IsAllowed execute_call s = Unit {0}
  IsAllowed query_call s = Unit {0}
  IsAllowed (result_call index t b n l) s = Unit {0}
  IsAllowed free_call s = Unit {0}

  run_call-IsSafe :
      (c : Call) (s : PreStatement mysql)
      → IsSafe mysql s
      → IsAllowed c s
      → (r : ℕ) × (s' : PreStatement mysql) × (run_call c s ≡ some (r, s')) × IsSafe mysql s'
  unfolding init set_param_bind set_param_result get_result fetch_result
  run_call-IsSafe (init_call sql) s h a =
      (_, _, refl, prepare-IsSafe mysql sql s (mysql.stmt_init s.db) h)
  run_call-IsSafe (param_call index p) s h a =
      let (r, after, e, c) =
        set_bind-capacity s.m_param_count s.m_param_bind index (bind_to p) h.params in
      (
        r,
        record s { m_param_bind = after },
        rw (e, set_param_bind),
        record { params = omega (arith, h.params, c); results = h.results },
      )
  run_call-IsSafe execute_call s h a = (_, _, refl, execute-IsSafe mysql s h)
  run_call-IsSafe query_call s h a = (_, _, refl, query-IsSafe mysql s h)
  run_call-IsSafe (result_call index t b n l) s h a =
      let (r, after, e, c) =
        set_bind-capacity s.m_result_count s.m_result_bind index
          (λ _. record { buffer_type = t; buffer = b; buffer_length = n; length_at = l })
          h.results in
      (
        r,
        record s { m_result_bind = after },
        rw (e, set_param_result),
        record { params = h.params; results = omega (arith, h.results, c) },
      )
  run_call-IsSafe get_call s h (stmt, q) =
      let d : Db = (mysql.stmt_bind_result stmt s.m_result_bind s.db).1 in
      let d' : Db = (mysql.stmt_store_result stmt d).1 in
      let safe : (x : Db) → IsSafe mysql (record s { db = x }) =
        λ x. record { params = h.params; results = h.results } in
      elim (Bool-cases (mysql.stmt_bind_result stmt s.m_result_bind s.db).0) [
        | inl e ↦ (1, record s { db = d }, rw (q, e, get_result, q), safe d)
        | inr e ↦ elim (Bool-cases (mysql.stmt_store_result stmt d).0) [
          | inl f ↦ (1, record s { db = d' }, rw (q, e, f, get_result, q), safe d')
          | inr f ↦ (0, record s { db = d' }, rw (q, e, f, get_result, q), safe d')
        ]
      ]
  run_call-IsSafe fetch_call s h (stmt, q) = (
    fetch_code mysql (mysql.stmt_fetch stmt s.db).0,
    record s { db = (mysql.stmt_fetch stmt s.db).1 },
    rw (q, fetch_result, q),
    record { params = h.params; results = h.results },
  )
  run_call-IsSafe free_call s h a =
      let (d, e, _, again) = free_lem mysql s in
      (0, new_statement mysql d, rw (run_call, e), new_statement-IsSafe mysql d)

  -- The states that calls lead to from a new object, whatever MySQL answers.
  pub data Reached (d : Db) : PreStatement mysql → Type 0 where
    start : Reached d (new_statement mysql d)
    step :
        (c : Call) (r : ℕ) (s s' : PreStatement mysql)
        → Reached d s
        → IsAllowed c s
        → run_call c s ≡ some (r, s')
        → Reached d s'

  Reached-IsSafe : (d : Db) (s : PreStatement mysql) → Reached d s → IsSafe mysql s
  Reached-IsSafe d s start = new_statement-IsSafe mysql d
  Reached-IsSafe d s (step c r s0 s' reached a e) =
      let (r', s'', e', h) = run_call-IsSafe c s0 (Reached-IsSafe d s0 reached) a in
      let same : s'' ≡ s' = cc in subst (IsSafe mysql) same h

  -- In any order of calls on a new object in which get_result and fetch_result find a statement, no
  -- call writes outside one of the two arrays, whatever MySQL answers, or loops for ever: each
  -- returns, and the counts that guard the arrays stay within them.
  pub Reached-run_call :
      (d : Db) (s : PreStatement mysql) (c : Call)
      → Reached d s
      → IsAllowed c s
      → (r : ℕ) × (s' : PreStatement mysql) × (run_call c s ≡ some (r, s')) × IsSafe mysql s'
  Reached-run_call d s c reached a = run_call-IsSafe c s (Reached-IsSafe d s reached) a
