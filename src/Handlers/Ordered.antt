-- ===== src/Handlers/Ordered.antt =====
-- Which handlers keep the order of the automaton, whatever they are asked and answered: the ones
-- without a loop.
use db_proxy_server.Prelude.{Bool, Option, none, some}
use db_proxy_server.Handlers.Program.{Request, Formats, done}
use db_proxy_server.Handlers.Discipline.{start}
use db_proxy_server.Handlers.Check.{Check}
use db_proxy_server.Handlers.Sound.{AtEnd, Disposed}
use db_proxy_server.Handlers.Cache.{
  update_user_id, update_user_info, update_user_friend_list, update_user_group_list,
  update_group_member_list, update_org_tree, redis_group_member_list, redis_org_tree,
  redis_user_friend_list, redis_user_group_list, redis_user_id, redis_user_info,
}
use db_proxy_server.Handlers.ServerQueries.{set_modify_pwd, get_buddy_config}
use db_proxy_server.Handlers.ServerUpdates.{
  set_friend_req, set_friend_req_result, set_online_report, set_msg_report,
}
use db_proxy_server.Handlers.BuddyRequests.{get_friend_req_list}
use db_proxy_server.Handlers.Buddy.{
  get_frequent_chat, set_user_info, set_user_avatar, set_user_sign_info, set_friend_remark,
}
use db_proxy_server.Handlers.GroupQueries.{get_group_list, get_group_members}
use db_proxy_server.Handlers.GroupUpdates.{set_group_list, set_group_disturb, set_group_owner}
use db_proxy_server.Handlers.MessageUpdates.{set_offline_msg_data, get_receipt_list}

module _ (formats : Formats) (redis : Bool) where
  pub update_user_id-Check :
      (msg_data : Request)
      → Check Disposed (update_user_id formats redis (some msg_data) done) start
  unfolding update_user_id redis_user_id
  update_user_id-Check msg_data = search depth 40

  pub update_user_info-Check :
      (msg_data : Request)
      → Check Disposed (update_user_info formats redis (some msg_data) done) start
  unfolding update_user_info redis_user_info
  update_user_info-Check msg_data = search depth 40

  pub update_user_friend_list-Check :
      (msg_data : Request)
      → Check Disposed (update_user_friend_list formats redis (some msg_data) done) start
  unfolding update_user_friend_list redis_user_friend_list
  update_user_friend_list-Check msg_data = search depth 40

  pub update_user_group_list-Check :
      (msg_data : Request)
      → Check Disposed (update_user_group_list formats redis (some msg_data) done) start
  unfolding update_user_group_list redis_user_group_list
  update_user_group_list-Check msg_data = search depth 40

  pub update_group_member_list-Check :
      (msg_data : Request)
      → Check Disposed (update_group_member_list formats redis (some msg_data) done) start
  unfolding update_group_member_list redis_group_member_list
  update_group_member_list-Check msg_data = search depth 40

  pub update_org_tree-Check :
      (msg_data : Request)
      → Check Disposed (update_org_tree formats redis (some msg_data) done) start
  unfolding update_org_tree redis_org_tree
  update_org_tree-Check msg_data = search depth 40

  pub set_modify_pwd-Check : (msg : Option Request) → Check AtEnd (set_modify_pwd msg done) start
  unfolding set_modify_pwd
  set_modify_pwd-Check none = search
  set_modify_pwd-Check (some msg_data) = search depth 40

  pub get_buddy_config-Check :
      (msg : Option Request) → Check AtEnd (get_buddy_config msg done) start
  unfolding get_buddy_config
  get_buddy_config-Check none = search
  get_buddy_config-Check (some msg_data) = search depth 40

  pub set_friend_req-Check : (msg : Option Request) → Check AtEnd (set_friend_req msg done) start
  unfolding set_friend_req
  set_friend_req-Check none = search
  set_friend_req-Check (some msg_data) = search depth 40

  pub set_friend_req_result-Check :
      (msg : Option Request) → Check Disposed (set_friend_req_result msg done) start
  unfolding set_friend_req_result
  set_friend_req_result-Check none = search
  set_friend_req_result-Check (some msg_data) = search depth 40

  pub set_online_report-Check :
      (msg : Option Request) → Check Disposed (set_online_report msg done) start
  unfolding set_online_report
  set_online_report-Check none = search
  set_online_report-Check (some msg_data) = search depth 40

  pub set_msg_report-Check : (msg : Option Request) → Check Disposed (set_msg_report msg done) start
  unfolding set_msg_report
  set_msg_report-Check none = search
  set_msg_report-Check (some msg_data) = search depth 40

  pub get_frequent_chat-Check :
      (msg : Option Request) → Check AtEnd (get_frequent_chat msg done) start
  unfolding get_frequent_chat
  get_frequent_chat-Check none = search
  get_frequent_chat-Check (some msg_data) = search depth 40

  pub set_user_info-Check :
      (msg : Option Request) → Check AtEnd (set_user_info formats redis msg done) start
  unfolding set_user_info redis_user_info
  set_user_info-Check none = search
  set_user_info-Check (some msg_data) = search depth 40

  pub set_user_avatar-Check :
      (msg : Option Request) → Check AtEnd (set_user_avatar formats redis msg done) start
  unfolding set_user_avatar redis_user_info
  set_user_avatar-Check none = search
  set_user_avatar-Check (some msg_data) = search depth 40

  pub set_user_sign_info-Check :
      (msg : Option Request) → Check AtEnd (set_user_sign_info formats redis msg done) start
  unfolding set_user_sign_info redis_user_info
  set_user_sign_info-Check none = search
  set_user_sign_info-Check (some msg_data) = search depth 40

  pub get_friend_req_list-Check :
      (msg : Option Request) → Check AtEnd (get_friend_req_list msg done) start
  unfolding get_friend_req_list
  get_friend_req_list-Check none = search
  get_friend_req_list-Check (some msg_data) = search depth 40

  pub set_friend_remark-Check :
      (msg_data : Request) → Check AtEnd (set_friend_remark formats redis msg_data done) start
  unfolding set_friend_remark redis_user_friend_list
  set_friend_remark-Check msg_data = search depth 40

  pub get_group_list-Check : (msg : Option Request) → Check AtEnd (get_group_list msg done) start
  unfolding get_group_list
  get_group_list-Check none = search
  get_group_list-Check (some msg_data) = search depth 40

  pub get_group_members-Check :
      (msg : Option Request) → Check AtEnd (get_group_members msg done) start
  unfolding get_group_members
  get_group_members-Check none = search
  get_group_members-Check (some msg_data) = search depth 40

  pub set_group_list-Check : (msg : Option Request) → Check AtEnd (set_group_list msg done) start
  unfolding set_group_list
  set_group_list-Check none = search
  set_group_list-Check (some msg_data) = search depth 40

  pub set_group_disturb-Check :
      (msg : Option Request) → Check AtEnd (set_group_disturb msg done) start
  unfolding set_group_disturb
  set_group_disturb-Check none = search
  set_group_disturb-Check (some msg_data) = search depth 40

  pub set_group_owner-Check : (msg : Option Request) → Check AtEnd (set_group_owner msg done) start
  unfolding set_group_owner
  set_group_owner-Check none = search
  set_group_owner-Check (some msg_data) = search depth 40

  pub set_offline_msg_data-Check :
      (msg : Option Request) → Check Disposed (set_offline_msg_data formats msg done) start
  unfolding set_offline_msg_data
  set_offline_msg_data-Check none = search
  set_offline_msg_data-Check (some msg_data) = search depth 40

  pub get_receipt_list-Check :
      (msg : Option Request) → Check AtEnd (get_receipt_list msg done) start
  unfolding get_receipt_list
  get_receipt_list-Check none = search
  get_receipt_list-Check (some msg_data) = search depth 40
