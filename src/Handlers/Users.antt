-- ===== src/Handlers/Users.antt =====
-- get_login_result and get_single_user_info, whose blocks have statements of their own, under the
-- automaton.
use db_proxy_server.Prelude.{ℕ, Bool, false, Option, none, some, List, []}
use db_proxy_server.Handlers.Program.{
  Cell, Built, Request, Formats, Program, done, call, free, gather,
}
use db_proxy_server.Handlers.Discipline.{Monitor, closed, stored, start}
use db_proxy_server.Handlers.Check.{Check}
use db_proxy_server.Handlers.Sound.{AtEnd}
use db_proxy_server.Handlers.Parts.{outside}
use db_proxy_server.Handlers.Loops.{gather-Check}
use db_proxy_server.Handlers.ServerQueries.{login_user, login_password, get_login_result}
use db_proxy_server.Handlers.Buddy.{single_user_info, get_single_user_info}

abbrev waiting : Unit {0} → Monitor
waiting _ = outside closed closed false

module _ (formats : Formats) where
  login_user-Check :
      (c : ℕ) (name : Cell) (leave : Unit {0} → Program (Unit {0})) (k : Built → Program (Unit {0}))
      → Check AtEnd (leave tt) (outside stored closed false)
      → ((b : Built) → Check AtEnd (k b) (outside stored closed false))
      → Check AtEnd (login_user formats leave c name k) (outside stored closed false)
  unfolding login_user
  login_user-Check c name leave k out after = search depth 40

  login_password-Check :
      (c : ℕ) (msg_data : Request) (k : Built → Program (Unit {0}))
      → ((b : Built) → Check AtEnd (k b) (outside stored closed false))
      → Check AtEnd
          (login_password formats (λ a. call (free 0) (λ x. done a)) c msg_data k)
          (outside stored closed false)
  unfolding login_password
  login_password-Check c msg_data k after = search (login_user-Check) depth 40

  pub get_login_result-Check :
      (msg : Option Request) → Check AtEnd (get_login_result formats msg done) start
  unfolding get_login_result
  get_login_result-Check none = search
  get_login_result-Check (some msg_data) = search (login_password-Check) depth 40

module _ (formats : Formats) (redis : Bool) where
  users-Check :
      (xs : List Request) (k : List Built → Program (Unit {0}))
      → ((bs : List Built) → Check AtEnd (k bs) (waiting tt))
      → Check AtEnd (gather xs (single_user_info formats redis) [] k) (waiting tt)
  unfolding single_user_info
  users-Check xs k after =
      gather-Check AtEnd waiting (single_user_info formats redis) k (λ bs i. after bs)
        (λ x stop rest i hs hr. search depth 30) xs [] tt

  pub get_single_user_info-Check :
      (msg : Option Request) → Check AtEnd (get_single_user_info formats redis msg done) start
  unfolding get_single_user_info
  get_single_user_info-Check none = search
  get_single_user_info-Check (some msg_data) = search (users-Check) depth 20
