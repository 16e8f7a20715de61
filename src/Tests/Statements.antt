-- ===== src/Tests/Statements.antt =====
-- Prepared statements over a client library whose connection counts its pending results. Each `?`
-- of the text is a parameter.
use db_proxy_server.PreStatement.Client.{row, Mysql}
use db_proxy_server.PreStatement.{
  uint8, uint64, string, PreStatement, new_statement, init, execute, free,
}
use db_proxy_server.PreStatement.Safe.{IsSafe, Closes, free_lem}
use db_proxy_server.PreStatement.Calls.{
  init_call, param_call, run_call, Reached, start, step, Reached-run_call,
}
use db_proxy_server.PreStatement.Binding.{bind_all, execute-bind_all}
use db_proxy_server.Prelude.{
  ℕ, zero, suc, ◌<◌, ◌≡◌, refl, Bool, true, false, some, List, [], ◌∷◌, ◌==◌, if◌then◌else◌, arith,
}

abbrev questions : List ℕ → ℕ
questions [] = 0
questions (x ∷ xs) = if x == b'?' then suc (questions xs) else questions xs

abbrev use_result : ℕ → Bool × ℕ
use_result zero = (false, 0)
use_result (suc n) = (true, n)

use_result-lt : (d : ℕ) → (use_result d).0 ≡ true → (use_result d).1 < d
use_result-lt zero e = cc
use_result-lt (suc n) e = omega arith

abbrev client : Mysql
client = record {
  Db = ℕ;
  Stmt = ℕ;
  stmt_init = λ d. (some 0, d);
  stmt_prepare = λ stmt sql d. (false, questions sql);
  stmt_param_count = λ stmt d. d;
  stmt_bind_param = λ stmt binds d. (false, d);
  stmt_execute = λ stmt d. (false, d);
  stmt_field_count = λ stmt d. d;
  stmt_bind_result = λ stmt binds d. (false, d);
  stmt_store_result = λ stmt d. (false, d);
  stmt_num_rows = λ stmt d. d;
  stmt_fetch = λ stmt d. (row, d);
  stmt_free = λ stmt d. d;
  store_result = λ d. d;
  next_result = use_result;
  pending = λ d. d;
  pending-store_result = λ d. omega arith;
  pending-next_result = use_result-lt;
}

abbrev two_params : List ℕ
two_params = b'?' ∷ b',' ∷ b'?' ∷ []

abbrev prepared : PreStatement client
prepared = (init client two_params (new_statement client 7)).1

prepared-Reached : Reached client 7 prepared
unfolding init
prepared-Reached = step (init_call two_params) 0 (new_statement client 7) prepared start tt refl

-- The last index that fits, and one that does not.
Reached-run_call_example :
    (r : ℕ) × (s' : PreStatement client) × (run_call client (param_call 1 (uint8 64)) prepared
      ≡ some (r, s'))
    × IsSafe client s'
Reached-run_call_example =
    Reached-run_call client 7 prepared (param_call 1 (uint8 64)) prepared-Reached tt

free_lem_example :
    (d : ℕ) × (free client prepared ≡ some (new_statement client d))
    × Closes client prepared.m_stmt prepared.db d
    × (free client (new_statement client d) ≡ some (new_statement client d))
free_lem_example = free_lem client prepared

execute-bind_all_example :
    (s1 s2 : PreStatement client) × (init client two_params (new_statement client 7) ≡ (0, s1))
    × (bind_all client 0 (uint64 64 ∷ string 72 5 ∷ []) s1 ≡ some s2)
    × (execute client s2 ≡ (0, record s2 { db = 2 }))
execute-bind_all_example =
    execute-bind_all client two_params (new_statement client 7) 0 7 2 (uint64 64) (string 72 5 ∷ [])
      refl refl refl refl refl
