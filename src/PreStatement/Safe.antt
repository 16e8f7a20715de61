-- ===== src/PreStatement/Safe.antt =====
-- The counts that guard the arrays of a prepared statement, and free.
use db_proxy_server.PreStatement.Client.{Bind, Mysql}
use db_proxy_server.PreStatement.{
  zero_bind, set_bind, PreStatement, new_statement, new_binds, prepare, execute_with, execute,
  make_result, query, drain_results, close, delete_params, delete_results, close_stmt, free,
}
use db_proxy_server.Prelude.{
  ℕ, zero, suc, ◌≤◌, ◌<◌, ◌≡◌, refl, inl, inr, ap, ◌∙◌, true, false, Option, none, some, List, [],
  ◌∷◌, length, length-set, length-replicate, get_elem?, set, leb, ltb, arith, Bool-cases,
}

-- The number of entries behind a pointer.
abbrev pub capacity : Option (List Bind) → ℕ
capacity none = 0
capacity (some l) = length l

get_elem?-lt : (l : List Bind) (i : ℕ) → i < length l → (b : Bind) × (get_elem? l i ≡ some b)
get_elem?-lt [] i h = absurd (omega arith)
get_elem?-lt (b ∷ l) zero h = (b, refl)
get_elem?-lt (b ∷ l) (suc i) h = get_elem?-lt l i (omega arith)

leb→gt : (a b : ℕ) → leb a b ≡ false → b < a
leb→gt a b h = ground arith

pub set_bind-capacity :
    (count : ℕ) (binds : Option (List Bind)) (index : ℕ) (f : Bind → Bind)
    → count ≤ capacity binds
    → (r : ℕ) × (after : Option (List Bind)) × (set_bind count binds index f ≡ some (r, after))
      × (capacity after ≡ capacity binds)
unfolding set_bind
set_bind-capacity count binds index f h = elim (Bool-cases (leb count index)) [
  | inl e ↦ (1, binds, rw (e, set_bind), refl)
  | inr e ↦ inside binds e (omega (arith, h, leb→gt count index e))
]
  where
    inside :
        (binds : Option (List Bind))
        → leb count index ≡ false
        → index < capacity binds
        → (r : ℕ) × (after : Option (List Bind)) × (set_bind count binds index f ≡ some (r, after))
          × (capacity after ≡ capacity binds)
    inside none e n = absurd (omega arith)
    inside (some l) e n =
        let (b, q) = get_elem?-lt l index n in
        (0, some (set l index (f b)), rw (e, q, set_bind), length-set l index (f b))

module _ (mysql : Mysql) where
  open mysql use {Db, Stmt, stmt_prepare, stmt_bind_param, stmt_execute, stmt_param_count}

  -- Each count is at most the size of its array.
  pub record IsSafe (s : PreStatement mysql) : Type 0 where
    pub params : s.m_param_count ≤ capacity s.m_param_bind
    pub results : s.m_result_count ≤ capacity s.m_result_bind

  pub new_statement-IsSafe : (d : Db) → IsSafe (new_statement mysql d)
  new_statement-IsSafe d = record { params = omega arith; results = omega arith }

  capacity-new_binds : (n : ℕ) (old : Option (List Bind)) → n ≤ capacity (new_binds mysql n old)
  capacity-new_binds zero old = omega arith
  capacity-new_binds (suc n) old = omega (arith, length-replicate n zero_bind)

  pub prepare-IsSafe :
      (sql : List ℕ) (s : PreStatement mysql) (opened : Option Stmt × Db)
      → IsSafe s
      → IsSafe (prepare mysql sql s opened).1
  unfolding prepare
  prepare-IsSafe sql s (none, d) h = record { params = h.params; results = h.results }
  prepare-IsSafe sql s (some stmt, d) h = elim (Bool-cases (stmt_prepare stmt sql d).0) [
    | inl e ↦ rw (e, prepare) (record { params = h.params; results = h.results })
    | inr e ↦
        rw (e, prepare)
          (record { params = capacity-new_binds _ s.m_param_bind; results = h.results })
  ]

  -- execute changes nothing but the connection's state.
  execute_with-db :
      (o : Option Stmt) (s : PreStatement mysql)
      → (d : Db) × ((execute_with mysql o s).1 ≡ record s { db = d })
  unfolding execute_with
  execute_with-db none s = (s.db, refl)
  execute_with-db (some stmt) s =
      let d : Db = (stmt_bind_param stmt s.m_param_bind s.db).1 in
      elim (Bool-cases (stmt_bind_param stmt s.m_param_bind s.db).0) [
        | inl e ↦ (d, rw (e, execute_with))
        | inr e ↦ elim (Bool-cases (stmt_execute stmt d).0) [
          | inl f ↦ ((stmt_execute stmt d).1, rw (e, f, execute_with))
          | inr f ↦ ((stmt_execute stmt d).1, rw (e, f, execute_with))
        ]
      ]

  pub execute-IsSafe : (s : PreStatement mysql) → IsSafe s → IsSafe (execute mysql s).1
  unfolding execute
  execute-IsSafe s h =
      let (d, e) = execute_with-db s.m_stmt s in
      rw e (record { params = h.params; results = h.results })

  make_result-IsSafe :
      (n : ℕ) (s : PreStatement mysql) → IsSafe s → IsSafe (make_result mysql n s).1
  unfolding make_result
  make_result-IsSafe zero s h = record { params = h.params; results = omega arith }
  make_result-IsSafe (suc n) s h = record {
    params = h.params;
    results = omega (arith, length-replicate n zero_bind);
  }

  pub query-IsSafe : (s : PreStatement mysql) → IsSafe s → IsSafe (query mysql s).1
  unfolding query
  query-IsSafe s h = elim (Bool-cases (ltb 0 (execute mysql s).0)) [
    | inl e ↦ rw (e, query) (execute-IsSafe s h)
    | inr e ↦ rw (e, query) (make_result-IsSafe _ (execute mysql s).1 (execute-IsSafe s h))
  ]

  -- Each result is stored, and the last has none behind it.
  pub data Drains : Db → Db → Type 0 where
    last :
        {d : Db}
        → (mysql.next_result (mysql.store_result d)).0 ≡ false
        → Drains d (mysql.next_result (mysql.store_result d)).1
    more :
        {d d' : Db}
        → (mysql.next_result (mysql.store_result d)).0 ≡ true
        → Drains (mysql.next_result (mysql.store_result d)).1 d'
        → Drains d d'

  -- The state of the connection behind free.
  abbrev pub Closes : Option Stmt → Db → Db → Type 0
  Closes none d d' = d' ≡ d
  Closes (some stmt) d d' = Drains (mysql.stmt_free stmt d) d'

  drain_results-ends :
      (fuel : ℕ) (d : Db)
      → mysql.pending d < fuel
      → (d' : Db) × (drain_results mysql fuel d ≡ some d') × Drains d d'
  unfolding drain_results
  drain_results-ends zero d h = absurd (omega arith)
  drain_results-ends (suc fuel) d h =
      elim (Bool-cases (mysql.next_result (mysql.store_result d)).0) [
        | inl e ↦
            let (d', q, drains) =
              drain_results-ends fuel (mysql.next_result (mysql.store_result d)).1 (
                omega (
                  arith,
                  mysql.pending-next_result (mysql.store_result d) e,
                  mysql.pending-store_result d,
                )) in
            (d', rw (e, drain_results) q, more e drains)
        | inr e ↦ ((mysql.next_result (mysql.store_result d)).1, rw (e, drain_results), last e)
      ]

  close-ends : (o : Option Stmt) (d : Db) → (d' : Db) × (close mysql o d ≡ some d') × Closes o d d'
  unfolding close
  close-ends none d = (d, refl, refl)
  close-ends (some stmt) d =
      drain_results-ends (suc (mysql.pending (mysql.stmt_free stmt d))) (mysql.stmt_free stmt d)
        (omega arith)

  -- The fields behind free, by the pointers that it found.
  deleted :
      (d : Db) (o : Option Stmt) (params results : Option (List Bind)) (m n : ℕ)
      → record (delete_results mysql results (
          delete_params mysql params (record {
            db = d;
            m_stmt = o;
            m_param_bind = params;
            m_result_bind = results;
            m_param_count = m;
            m_result_count = n;
          }))) { m_param_count = 0; m_result_count = 0 }
        ≡ record (new_statement mysql d) { m_stmt = o }
  deleted d o none none m n = refl
  deleted d o none (some r) m n = refl
  deleted d o (some p) none m n = refl
  deleted d o (some p) (some r) m n = refl

  cleared :
      (o : Option Stmt) (s : PreStatement mysql) (d : Db)
      → s.m_stmt ≡ o
      → Closes o s.db d
      → record (delete_results mysql s.m_result_bind
          (delete_params mysql s.m_param_bind (close_stmt mysql o s d))) {
            m_param_count = 0;
            m_result_count = 0;
          }
        ≡ new_statement mysql d
  cleared none s d e c =
      deleted s.db s.m_stmt s.m_param_bind s.m_result_bind s.m_param_count s.m_result_count
      ∙ rw (e, c)
  cleared (some stmt) s d e c =
      deleted d none s.m_param_bind s.m_result_bind s.m_param_count s.m_result_count

  -- free ends on every statement, in the state that the constructor makes but for the connection's own:
  -- an open handle is closed and each result that the connection holds is stored, up to the last one;
  -- without a handle the connection is left alone. A second free does nothing more.
  pub free_lem :
      (s : PreStatement mysql)
      → (d : Db) × (free mysql s ≡ some (new_statement mysql d))
        × Closes s.m_stmt s.db d
        × (free mysql (new_statement mysql d) ≡ some (new_statement mysql d))
  unfolding free close
  free_lem s =
      let (d, e, c) = close-ends s.m_stmt s.db in
      (d, rw (e, free) (ap some (cleared s.m_stmt s d refl c)), c, refl)
