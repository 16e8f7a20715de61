-- ===== src/Handlers/Keeps.antt =====
-- The order of the automaton for the programs of the map.
use db_proxy_server.Prelude.{◌≡◌, ap, subst, Bool, true, Option, none, some}
use db_proxy_server.HandlerMap.{Handler}
use db_proxy_server.Handlers.Program.{Request, Formats, Program, done, call, free}
use db_proxy_server.Handlers.Discipline.{start}
use db_proxy_server.Handlers.Check.{Check}
use db_proxy_server.Handlers.Run.{World, run, obeys, gives_away}
use db_proxy_server.Handlers.Sound.{AtEnd, Disposed, Check-obeys, Check-gives_away, Disposed-AtEnd}
use db_proxy_server.Handlers.Ordered.{
  update_user_id-Check, update_user_info-Check, update_user_friend_list-Check,
  update_user_group_list-Check, update_group_member_list-Check, update_org_tree-Check,
  set_modify_pwd-Check, get_buddy_config-Check, set_friend_req-Check, set_friend_req_result-Check,
  set_online_report-Check, set_msg_report-Check, get_frequent_chat-Check, set_user_info-Check,
  set_user_avatar-Check, set_user_sign_info-Check, set_friend_remark-Check,
  get_friend_req_list-Check, get_group_list-Check, get_group_members-Check, set_group_list-Check,
  set_group_disturb-Check, set_group_owner-Check, set_offline_msg_data-Check,
  get_receipt_list-Check,
}
use db_proxy_server.Handlers.Loops.{get_user_role-Check, set_group_dissolve-Check}
use db_proxy_server.Handlers.Friends.{set_friend_manage-Check}
use db_proxy_server.Handlers.Users.{get_login_result-Check, get_single_user_info-Check}
use db_proxy_server.Handlers.Members.{set_group_create-Check, set_group_change-Check}
use db_proxy_server.Handlers.Sessions.{
  set_online_msg_data-Check, set_recall_msg_data-Check, set_receipt_status-Check,
  get_offline_msg-Check, get_history_msg-Check, get_latest_msg_id-Check, set_del_recent_chat-Check,
}
use db_proxy_server.Handlers.Kinds.{keeps, always_gives}
use db_proxy_server.Handlers.Dispatch.{program_of, parsed_or}
use db_proxy_server.Handlers.ServerUpdates.{set_del_recent_chat, delete_and_free}
use db_proxy_server.Handlers.MessageUpdates.{
  set_online_msg_data, set_recall_msg_data, set_receipt_status,
}
use db_proxy_server.Handlers.MessageQueries.{get_offline_msg, get_history_msg, get_latest_msg_id}
use db_proxy_server.Handlers.Cache.{
  update_user_id, update_user_info, update_user_friend_list, update_user_group_list,
  update_group_member_list, update_org_tree,
}

program_or : {P : Type 0} → P → Option P → P
program_or p none = p
program_or p (some q) = q

-- Whatever holds of the program that the map names.
named : (P : Program (Unit {0}) → Type 0) (p q : Program (Unit {0})) → P q → some q ≡ some p → P p
unfolding program_or
named P p q h e = subst P (ap (program_or q) e) h

module _ (formats : Formats) (redis : Bool) (left : Request) (p : Program (Unit {0})) where
  strong : (q : Program (Unit {0})) → Check AtEnd q start → some q ≡ some p → Check AtEnd p start
  strong = named (λ q. Check AtEnd q start) p

  weak : (q : Program (Unit {0})) → Check Disposed q start → some q ≡ some p → Check AtEnd p start
  weak q h = strong q (Disposed-AtEnd q start h)

  given :
      (q : Program (Unit {0})) → Check Disposed q start → some q ≡ some p → Check Disposed p start
  given = named (λ q. Check Disposed q start) p

  keeps-Check :
      (h : Handler) (msg : Option Request)
      → keeps h msg ≡ true
      → program_of formats redis left h msg ≡ some p
      → Check AtEnd p start
  unfolding keeps program_of set_online_msg_data set_recall_msg_data set_receipt_status
      get_offline_msg get_history_msg get_latest_msg_id set_del_recent_chat update_user_id
      update_user_info update_user_friend_list update_user_group_list update_group_member_list
      update_org_tree
  keeps-Check Handler.update_user_id none k e = strong (done tt) tt e
  keeps-Check Handler.update_user_id (some msg_data) k e =
      weak _ (update_user_id-Check formats redis msg_data) e
  keeps-Check Handler.update_user_info none k e = strong (done tt) tt e
  keeps-Check Handler.update_user_info (some msg_data) k e =
      weak _ (update_user_info-Check formats redis msg_data) e
  keeps-Check Handler.update_user_friend_list none k e = strong (done tt) tt e
  keeps-Check Handler.update_user_friend_list (some msg_data) k e =
      weak _ (update_user_friend_list-Check formats redis msg_data) e
  keeps-Check Handler.update_user_group_list none k e = strong (done tt) tt e
  keeps-Check Handler.update_user_group_list (some msg_data) k e =
      weak _ (update_user_group_list-Check formats redis msg_data) e
  keeps-Check Handler.update_group_member_list none k e = strong (done tt) tt e
  keeps-Check Handler.update_group_member_list (some msg_data) k e =
      weak _ (update_group_member_list-Check formats redis msg_data) e
  keeps-Check Handler.update_org_tree none k e = strong (done tt) tt e
  keeps-Check Handler.update_org_tree (some msg_data) k e =
      weak _ (update_org_tree-Check formats redis msg_data) e
  keeps-Check Handler.set_modify_pwd msg k e = strong _ (set_modify_pwd-Check formats redis msg) e
  keeps-Check Handler.get_buddy_config msg k e =
      strong _ (get_buddy_config-Check formats redis msg) e
  keeps-Check Handler.get_user_role msg k e = strong _ (get_user_role-Check formats redis msg) e
  keeps-Check Handler.set_friend_req msg k e = strong _ (set_friend_req-Check formats redis msg) e
  keeps-Check Handler.set_friend_req_result msg k e =
      weak _ (set_friend_req_result-Check formats redis msg) e
  keeps-Check Handler.set_friend_manage msg k e =
      strong _ (set_friend_manage-Check formats redis msg) e
  keeps-Check Handler.set_online_report msg k e =
      weak _ (set_online_report-Check formats redis msg) e
  keeps-Check Handler.set_msg_report msg k e = weak _ (set_msg_report-Check formats redis msg) e
  keeps-Check Handler.get_frequent_chat msg k e =
      strong _ (get_frequent_chat-Check formats redis msg) e
  keeps-Check Handler.set_user_info msg k e = strong _ (set_user_info-Check formats redis msg) e
  keeps-Check Handler.set_user_avatar msg k e = strong _ (set_user_avatar-Check formats redis msg) e
  keeps-Check Handler.set_user_sign_info msg k e =
      strong _ (set_user_sign_info-Check formats redis msg) e
  keeps-Check Handler.set_friend_remark msg k e =
      strong _ (set_friend_remark-Check formats redis (parsed_or left msg)) e
  keeps-Check Handler.get_friend_req_list msg k e =
      strong _ (get_friend_req_list-Check formats redis msg) e
  keeps-Check Handler.get_group_list msg k e = strong _ (get_group_list-Check formats redis msg) e
  keeps-Check Handler.get_group_members msg k e =
      strong _ (get_group_members-Check formats redis msg) e
  keeps-Check Handler.set_group_list msg k e = strong _ (set_group_list-Check formats redis msg) e
  keeps-Check Handler.set_group_disturb msg k e =
      strong _ (set_group_disturb-Check formats redis msg) e
  keeps-Check Handler.set_group_owner msg k e = strong _ (set_group_owner-Check formats redis msg) e
  keeps-Check Handler.set_group_create msg k e =
      strong _ (set_group_create-Check formats redis msg) e
  keeps-Check Handler.set_group_dissolve msg k e =
      strong _ (set_group_dissolve-Check formats redis msg) e
  keeps-Check Handler.set_group_change msg k e =
      strong _ (set_group_change-Check formats redis msg) e
  keeps-Check Handler.set_offline_msg_data msg k e =
      weak _ (set_offline_msg_data-Check formats redis msg) e
  keeps-Check Handler.get_receipt_list msg k e =
      strong _ (get_receipt_list-Check formats redis msg) e
  keeps-Check Handler.set_online_msg_data none k e = strong (delete_and_free done) tt e
  keeps-Check Handler.set_online_msg_data (some msg_data) k e =
      weak _ (set_online_msg_data-Check formats msg_data k) e
  keeps-Check Handler.set_recall_msg_data none k e = strong (delete_and_free done) tt e
  keeps-Check Handler.set_recall_msg_data (some msg_data) k e =
      weak _ (set_recall_msg_data-Check formats msg_data k) e
  keeps-Check Handler.set_receipt_status none k e = strong (delete_and_free done) tt e
  keeps-Check Handler.set_receipt_status (some msg_data) k e =
      weak _ (set_receipt_status-Check msg_data k) e
  keeps-Check Handler.get_offline_msg none k e = strong (call (free 0) done) tt e
  keeps-Check Handler.get_offline_msg (some msg_data) k e =
      strong _ (get_offline_msg-Check msg_data k) e
  keeps-Check Handler.get_history_msg none k e = strong (call (free 0) done) tt e
  keeps-Check Handler.get_history_msg (some msg_data) k e =
      strong _ (get_history_msg-Check msg_data k) e
  keeps-Check Handler.get_latest_msg_id none k e = strong (call (free 0) done) tt e
  keeps-Check Handler.get_latest_msg_id (some msg_data) k e =
      strong _ (get_latest_msg_id-Check msg_data k) e
  keeps-Check Handler.set_del_recent_chat none k e = strong (delete_and_free done) tt e
  keeps-Check Handler.set_del_recent_chat (some msg_data) k e =
      weak _ (set_del_recent_chat-Check msg_data k) e
  keeps-Check Handler.get_login_result msg k e = strong _ (get_login_result-Check formats msg) e
  keeps-Check Handler.set_add_recent_chat msg k e = absurd cc
  keeps-Check Handler.set_recent_chat msg k e = absurd cc
  keeps-Check Handler.get_single_user_info msg k e =
      strong _ (get_single_user_info-Check formats redis msg) e
  keeps-Check Handler.get_group_info msg k e = absurd cc
  keeps-Check Handler.set_group_info msg k e = absurd cc
  keeps-Check Handler.get_msg_by_id msg k e = absurd cc
  keeps-Check Handler.get_offline_msg_cnt msg k e = absurd cc
  keeps-Check Handler.get_group_offline_msg_cnt msg k e = absurd cc
  keeps-Check Handler.get_register_rsp msg k e = absurd cc
  keeps-Check Handler.get_heart_beat msg k e = absurd cc
  keeps-Check Handler.get_user_state msg k e = absurd cc
  keeps-Check Handler.get_router_table msg k e = absurd cc

  gives-Check :
      (h : Handler) (msg : Option Request)
      → always_gives h msg ≡ true
      → program_of formats redis left h msg ≡ some p
      → Check Disposed p start
  unfolding always_gives program_of set_online_msg_data set_recall_msg_data set_receipt_status
      set_del_recent_chat
  gives-Check Handler.update_user_id none k e = absurd cc
  gives-Check Handler.update_user_id (some msg_data) k e =
      given _ (update_user_id-Check formats redis msg_data) e
  gives-Check Handler.update_user_info none k e = absurd cc
  gives-Check Handler.update_user_info (some msg_data) k e =
      given _ (update_user_info-Check formats redis msg_data) e
  gives-Check Handler.update_user_friend_list none k e = absurd cc
  gives-Check Handler.update_user_friend_list (some msg_data) k e =
      given _ (update_user_friend_list-Check formats redis msg_data) e
  gives-Check Handler.update_user_group_list none k e = absurd cc
  gives-Check Handler.update_user_group_list (some msg_data) k e =
      given _ (update_user_group_list-Check formats redis msg_data) e
  gives-Check Handler.update_group_member_list none k e = absurd cc
  gives-Check Handler.update_group_member_list (some msg_data) k e =
      given _ (update_group_member_list-Check formats redis msg_data) e
  gives-Check Handler.update_org_tree none k e = absurd cc
  gives-Check Handler.update_org_tree (some msg_data) k e =
      given _ (update_org_tree-Check formats redis msg_data) e
  gives-Check Handler.set_friend_req_result msg k e =
      given _ (set_friend_req_result-Check formats redis msg) e
  gives-Check Handler.set_online_report msg k e =
      given _ (set_online_report-Check formats redis msg) e
  gives-Check Handler.set_msg_report msg k e = given _ (set_msg_report-Check formats redis msg) e
  gives-Check Handler.set_offline_msg_data msg k e =
      given _ (set_offline_msg_data-Check formats redis msg) e
  gives-Check Handler.set_online_msg_data none k e = given (delete_and_free done) tt e
  gives-Check Handler.set_online_msg_data (some msg_data) k e =
      given _ (set_online_msg_data-Check formats msg_data k) e
  gives-Check Handler.set_recall_msg_data none k e = given (delete_and_free done) tt e
  gives-Check Handler.set_recall_msg_data (some msg_data) k e =
      given _ (set_recall_msg_data-Check formats msg_data k) e
  gives-Check Handler.set_receipt_status none k e = given (delete_and_free done) tt e
  gives-Check Handler.set_receipt_status (some msg_data) k e =
      given _ (set_receipt_status-Check msg_data k) e
  gives-Check Handler.set_del_recent_chat none k e = given (delete_and_free done) tt e
  gives-Check Handler.set_del_recent_chat (some msg_data) k e =
      given _ (set_del_recent_chat-Check msg_data k) e
  gives-Check Handler.get_login_result msg k e = absurd cc
  gives-Check Handler.set_modify_pwd msg k e = absurd cc
  gives-Check Handler.get_buddy_config msg k e = absurd cc
  gives-Check Handler.get_user_role msg k e = absurd cc
  gives-Check Handler.set_friend_req msg k e = absurd cc
  gives-Check Handler.set_friend_manage msg k e = absurd cc
  gives-Check Handler.set_add_recent_chat msg k e = absurd cc
  gives-Check Handler.set_recent_chat msg k e = absurd cc
  gives-Check Handler.get_frequent_chat msg k e = absurd cc
  gives-Check Handler.get_single_user_info msg k e = absurd cc
  gives-Check Handler.set_user_info msg k e = absurd cc
  gives-Check Handler.set_user_avatar msg k e = absurd cc
  gives-Check Handler.set_user_sign_info msg k e = absurd cc
  gives-Check Handler.set_friend_remark msg k e = absurd cc
  gives-Check Handler.get_friend_req_list msg k e = absurd cc
  gives-Check Handler.get_group_list msg k e = absurd cc
  gives-Check Handler.get_group_info msg k e = absurd cc
  gives-Check Handler.get_group_members msg k e = absurd cc
  gives-Check Handler.set_group_list msg k e = absurd cc
  gives-Check Handler.set_group_disturb msg k e = absurd cc
  gives-Check Handler.set_group_owner msg k e = absurd cc
  gives-Check Handler.set_group_info msg k e = absurd cc
  gives-Check Handler.set_group_create msg k e = absurd cc
  gives-Check Handler.set_group_dissolve msg k e = absurd cc
  gives-Check Handler.set_group_change msg k e = absurd cc
  gives-Check Handler.get_receipt_list msg k e = absurd cc
  gives-Check Handler.get_offline_msg msg k e = absurd cc
  gives-Check Handler.get_history_msg msg k e = absurd cc
  gives-Check Handler.get_latest_msg_id msg k e = absurd cc
  gives-Check Handler.get_msg_by_id msg k e = absurd cc
  gives-Check Handler.get_offline_msg_cnt msg k e = absurd cc
  gives-Check Handler.get_group_offline_msg_cnt msg k e = absurd cc
  gives-Check Handler.get_register_rsp msg k e = absurd cc
  gives-Check Handler.get_heart_beat msg k e = absurd cc
  gives-Check Handler.get_user_state msg k e = absurd cc
  gives-Check Handler.get_router_table msg k e = absurd cc

  -- Each handler of the map that is modelled, but for seven, runs its statements in the order that
  -- pre_statement relies on and gives its task away at most once, whatever MySQL, redis and the clock
  -- answer, if a type in its message is one that it knows: an init finds the statement closed, the
  -- parameters that the text asks for are bound before it runs, every column has a variable before
  -- the rows are read, and at the end the statements are freed.
  pub keeps-obeys :
      (h : Handler) (msg : Option Request)
      → keeps h msg ≡ true
      → program_of formats redis left h msg ≡ some p
      → (world : World) (s : world.State) → obeys (run world p s).1 ≡ true
  keeps-obeys h msg k e world s = Check-obeys world p s (keeps-Check h msg k e)

  -- The handlers that update redis for a message that parses, and those that only store what they are
  -- sent, for the types that they know, give their task away exactly once, to the queue of responses
  -- or to delete, whatever MySQL, redis and the clock answer.
  pub always_gives-gives_away :
      (h : Handler) (msg : Option Request)
      → always_gives h msg ≡ true
      → program_of formats redis left h msg ≡ some p
      → (world : World) (s : world.State) → gives_away (run world p s).1 ≡ true
  always_gives-gives_away h msg k e world s = Check-gives_away world p s (gives-Check h msg k e)
