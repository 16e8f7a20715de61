-- ===== src/PreStatement/Binding.antt =====
-- What execute hands to MySQL.
use db_proxy_server.PreStatement.Client.{Bind, Mysql}
use db_proxy_server.PreStatement.{
  Param, zero_bind, bind_to, set_bind, PreStatement, prepare, init, set_param_bind, execute_with,
  execute,
}
use db_proxy_server.Prelude.{
  ℕ, suc, ◌+◌, ◌<◌, ◌≡◌, refl, ap, sym, ◌∙◌, true, false, Option, none, some, List, [], ◌∷◌, ◌++◌,
  length, length-append, get_elem?, set, replicate, leb, ltb, arith,
}
use mathlib.Core.List.{append_assoc}

lt→leb : (a b : ℕ) → b < a → leb a b ≡ false
lt→leb a b h = ground arith

get_elem?-append : (xs ys : List Bind) (b : Bind) → get_elem? (xs ++ (b ∷ ys)) (length xs) ≡ some b
get_elem?-append [] ys b = refl
get_elem?-append (x ∷ xs) ys b = get_elem?-append xs ys b

set-append :
    (xs ys : List Bind) (b v : Bind) → set (xs ++ (b ∷ ys)) (length xs) v ≡ (xs ++ (v ∷ [])) ++ ys
set-append [] ys b v = refl
set-append (x ∷ xs) ys b v = ap (◌∷◌ x) (set-append xs ys b v)

-- What a parameter becomes in a new array.
abbrev pub bound : List Param → List Bind
bound [] = []
bound (p ∷ ps) = bind_to p zero_bind ∷ bound ps

module _ (mysql : Mysql) where
  open mysql use {Db, Stmt, stmt_prepare, stmt_param_count, stmt_bind_param}

  -- The calls of set_param_bind that a handler makes: one for each parameter, from index `i` on.
  unfoldable pub bind_all : ℕ → List Param → PreStatement mysql → Option (PreStatement mysql)
  bind_all i [] s = some s
  bind_all i (p ∷ ps) s = elim (set_param_bind mysql i p s) [
    | none ↦ none
    | some (r, s') ↦ elim (ltb 0 r) [ true ↦ none | false ↦ bind_all (i + 1) ps s' ]
  ]

  set_param_bind_next :
      (done rest : List Bind) (p : Param) (s : PreStatement mysql)
      → s.m_param_bind ≡ some (done ++ (zero_bind ∷ rest))
      → length done < s.m_param_count
      → set_param_bind mysql (length done) p s
        ≡ some (0, record s { m_param_bind = some ((done ++ (bind_to p zero_bind ∷ [])) ++ rest) })
  unfolding set_param_bind set_bind
  set_param_bind_next done rest p s e h = rw (
    lt→leb _ _ h,
    e,
    get_elem?-append done rest zero_bind,
    set-append done rest zero_bind (bind_to p zero_bind),
    set_bind,
    set_param_bind,
  )

  bind_all_lem :
      (done : List Bind) (ps : List Param) (s : PreStatement mysql)
      → s.m_param_bind ≡ some (done ++ replicate (length ps) zero_bind)
      → s.m_param_count ≡ length done + length ps
      → bind_all (length done) ps s ≡ some (record s { m_param_bind = some (done ++ bound ps) })
  unfolding bind_all
  bind_all_lem done [] s e h =
      ap (λ (o : Option (List Bind)). some (record s { m_param_bind = o })) e
  bind_all_lem done (p ∷ ps) s e h =
      let next : List Bind = done ++ (bind_to p zero_bind ∷ []) in
      let after : PreStatement mysql = record s {
        m_param_bind = some (next ++ replicate (length ps) zero_bind);
      } in
      let n : length next ≡ length done + 1 =
        omega (arith, length-append done (bind_to p zero_bind ∷ [])) in
      rw (set_param_bind_next done (replicate (length ps) zero_bind) p s e (omega arith), bind_all)
        (ap (λ (k : ℕ). bind_all k ps after) (sym n)
          ∙ bind_all_lem next ps after refl (omega (arith, n, h))
          ∙ ap (λ (l : List Bind). some (record s { m_param_bind = some l }))
              (append_assoc done (bind_to p zero_bind ∷ []) (bound ps)))

  -- init on any object, one set_param_bind for each parameter, of which there are as many as the
  -- statement has and one at least, and execute: if MySQL reports no error, mysql_stmt_bind_param is
  -- handed exactly one entry for each of them, in order, with the type, the address and the size of
  -- its variable, and the statement is then executed.
  pub execute-bind_all :
      (sql : List ℕ) (s : PreStatement mysql) (stmt : Stmt) (d d' : Db) (p : Param)
      (ps : List Param)
      → mysql.stmt_init s.db ≡ (some stmt, d)
      → stmt_prepare stmt sql d ≡ (false, d')
      → stmt_param_count stmt d' ≡ suc (length ps)
      → (stmt_bind_param stmt (some (bound (p ∷ ps))) d').0 ≡ false
      → (mysql.stmt_execute stmt (stmt_bind_param stmt (some (bound (p ∷ ps))) d').1).0 ≡ false
      → (s1 s2 : PreStatement mysql) × (init mysql sql s ≡ (0, s1))
        × (bind_all 0 (p ∷ ps) s1 ≡ some s2)
        × (execute mysql s2 ≡ (
          0,
          record s2 {
            db = (mysql.stmt_execute stmt (stmt_bind_param stmt (some (bound (p ∷ ps))) d').1).1;
          },
        ))
  unfolding init prepare execute execute_with
  execute-bind_all sql s stmt d d' p ps i ok n binds runs =
      let s1 : PreStatement mysql = record s {
        db = d';
        m_stmt = some stmt;
        m_param_count = suc (length ps);
        m_param_bind = some (replicate (suc (length ps)) zero_bind);
      } in
      (
        s1,
        record s1 { m_param_bind = some (bound (p ∷ ps)) },
        rw (i, ok, prepare, ok, n),
        bind_all_lem [] (p ∷ ps) s1 refl (omega arith),
        rw (binds, runs, execute_with),
      )
