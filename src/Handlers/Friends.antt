-- ===== src/Handlers/Friends.antt =====
-- set_friend_manage under the automaton: its blocks, and the handler.
use db_proxy_server.Prelude.{ℕ, Bool, Option, none, some}
use db_proxy_server.Handlers.Program.{Cell, Request, Formats, Program, done, number_of, field}
use db_proxy_server.Handlers.Discipline.{start}
use db_proxy_server.Handlers.Check.{Check}
use db_proxy_server.Handlers.Sound.{AtEnd}
use db_proxy_server.Handlers.Cache.{redis_user_friend_list}
use db_proxy_server.Handlers.ServerUpdates.{add_friend, del_friend, set_friend_manage}

module _ (formats : Formats) (redis : Bool) (c u fc fu : ℕ) (t : Cell)
    (k : Unit {0} → Program (Unit {0})) where
  add_friend-Check :
      Check AtEnd (k tt) start
      → Check AtEnd (add_friend formats redis (λ a. done tt) c u fc fu t k) start
  unfolding add_friend redis_user_friend_list
  add_friend-Check h = search depth 40

  del_friend-Check :
      Check AtEnd (k tt) start
      → Check AtEnd (del_friend formats redis (λ a. done tt) c u fc fu t k) start
  unfolding del_friend redis_user_friend_list
  del_friend-Check h = search depth 40

pub set_friend_manage-Check :
    (formats : Formats) (redis : Bool) (msg : Option Request)
    → Check AtEnd (set_friend_manage formats redis msg done) start
unfolding set_friend_manage
set_friend_manage-Check formats redis none = search
set_friend_manage-Check formats redis (some msg_data) =
    let c = number_of msg_data "req_company_id" in
    let u = number_of msg_data "req_user_id" in
    let fc = number_of msg_data "dest_company_id" in
    let fu = number_of msg_data "dest_user_id" in
    let t = field msg_data "update_time" in
    let add = add_friend-Check formats redis in
    let del = del_friend-Check formats redis in
    (
      (λ e. add c u fc fu t _ (add fc fu c u t _ search)),
      λ e. (
        (λ e'. del c u fc fu t _ (del fc fu c u t _ search)),
        λ e'. ((λ e''. add c u fc fu t _ search), λ e''. search),
      ),
    )
