-- ===== src/Handlers/Kinds.antt =====
-- Which handlers keep to the automaton of the order, and which give their task away in any case.
use db_proxy_server.Prelude.{Bool, true, false, Option, none, some}
use db_proxy_server.HandlerMap.{Handler}
use db_proxy_server.Handlers.Program.{Request, number_of, item_of}
use db_proxy_server.Handlers.Sessions.{is_session, is_recent}

-- The handlers that keep to it, some only for the types that they know.
unfoldable pub keeps : Handler → Option Request → Bool
keeps Handler.update_user_id msg = true
keeps Handler.update_user_info msg = true
keeps Handler.update_user_friend_list msg = true
keeps Handler.update_user_group_list msg = true
keeps Handler.update_group_member_list msg = true
keeps Handler.update_org_tree msg = true
keeps Handler.set_modify_pwd msg = true
keeps Handler.get_buddy_config msg = true
keeps Handler.get_user_role msg = true
keeps Handler.set_friend_req msg = true
keeps Handler.set_friend_req_result msg = true
keeps Handler.set_friend_manage msg = true
keeps Handler.set_online_report msg = true
keeps Handler.set_msg_report msg = true
keeps Handler.get_frequent_chat msg = true
keeps Handler.set_user_info msg = true
keeps Handler.set_user_avatar msg = true
keeps Handler.set_user_sign_info msg = true
keeps Handler.set_friend_remark msg = true
keeps Handler.get_friend_req_list msg = true
keeps Handler.get_group_list msg = true
keeps Handler.get_group_members msg = true
keeps Handler.set_group_list msg = true
keeps Handler.set_group_disturb msg = true
keeps Handler.set_group_owner msg = true
keeps Handler.set_group_create msg = true
keeps Handler.set_group_dissolve msg = true
keeps Handler.set_group_change msg = true
keeps Handler.set_offline_msg_data msg = true
keeps Handler.get_receipt_list msg = true
keeps Handler.set_online_msg_data none = true
keeps Handler.set_online_msg_data (some msg_data) =
    is_session (number_of (item_of msg_data "msg_data" 0) "session_type")
keeps Handler.set_recall_msg_data none = true
keeps Handler.set_recall_msg_data (some msg_data) =
    is_session (number_of (item_of msg_data "msg_data" 0) "session_type")
keeps Handler.set_receipt_status none = true
keeps Handler.set_receipt_status (some msg_data) = is_session (number_of msg_data "session_type")
keeps Handler.get_offline_msg none = true
keeps Handler.get_offline_msg (some msg_data) = is_session (number_of msg_data "session_type")
keeps Handler.get_history_msg none = true
keeps Handler.get_history_msg (some msg_data) = is_session (number_of msg_data "session_type")
keeps Handler.get_latest_msg_id none = true
keeps Handler.get_latest_msg_id (some msg_data) = is_session (number_of msg_data "session_type")
keeps Handler.set_del_recent_chat none = true
keeps Handler.set_del_recent_chat (some msg_data) = is_recent (number_of msg_data "opt_type")
keeps Handler.get_login_result msg = true
keeps Handler.set_add_recent_chat msg = false
keeps Handler.set_recent_chat msg = false
keeps Handler.get_single_user_info msg = true
keeps Handler.get_group_info msg = false
keeps Handler.set_group_info msg = false
keeps Handler.get_msg_by_id msg = false
keeps Handler.get_offline_msg_cnt msg = false
keeps Handler.get_group_offline_msg_cnt msg = false
keeps Handler.get_register_rsp msg = false
keeps Handler.get_heart_beat msg = false
keeps Handler.get_user_state msg = false
keeps Handler.get_router_table msg = false

-- Which give their task away whatever MySQL answers.
unfoldable pub always_gives : Handler → Option Request → Bool
always_gives Handler.update_user_id none = false
always_gives Handler.update_user_id (some msg_data) = true
always_gives Handler.update_user_info none = false
always_gives Handler.update_user_info (some msg_data) = true
always_gives Handler.update_user_friend_list none = false
always_gives Handler.update_user_friend_list (some msg_data) = true
always_gives Handler.update_user_group_list none = false
always_gives Handler.update_user_group_list (some msg_data) = true
always_gives Handler.update_group_member_list none = false
always_gives Handler.update_group_member_list (some msg_data) = true
always_gives Handler.update_org_tree none = false
always_gives Handler.update_org_tree (some msg_data) = true
always_gives Handler.set_friend_req_result msg = true
always_gives Handler.set_online_report msg = true
always_gives Handler.set_msg_report msg = true
always_gives Handler.set_offline_msg_data msg = true
always_gives Handler.set_online_msg_data none = true
always_gives Handler.set_online_msg_data (some msg_data) =
    is_session (number_of (item_of msg_data "msg_data" 0) "session_type")
always_gives Handler.set_recall_msg_data none = true
always_gives Handler.set_recall_msg_data (some msg_data) =
    is_session (number_of (item_of msg_data "msg_data" 0) "session_type")
always_gives Handler.set_receipt_status none = true
always_gives Handler.set_receipt_status (some msg_data) =
    is_session (number_of msg_data "session_type")
always_gives Handler.set_del_recent_chat none = true
always_gives Handler.set_del_recent_chat (some msg_data) = is_recent (number_of msg_data "opt_type")
always_gives Handler.get_login_result msg = false
always_gives Handler.set_modify_pwd msg = false
always_gives Handler.get_buddy_config msg = false
always_gives Handler.get_user_role msg = false
always_gives Handler.set_friend_req msg = false
always_gives Handler.set_friend_manage msg = false
always_gives Handler.set_add_recent_chat msg = false
always_gives Handler.set_recent_chat msg = false
always_gives Handler.get_frequent_chat msg = false
always_gives Handler.get_single_user_info msg = false
always_gives Handler.set_user_info msg = false
always_gives Handler.set_user_avatar msg = false
always_gives Handler.set_user_sign_info msg = false
always_gives Handler.set_friend_remark msg = false
always_gives Handler.get_friend_req_list msg = false
always_gives Handler.get_group_list msg = false
always_gives Handler.get_group_info msg = false
always_gives Handler.get_group_members msg = false
always_gives Handler.set_group_list msg = false
always_gives Handler.set_group_disturb msg = false
always_gives Handler.set_group_owner msg = false
always_gives Handler.set_group_info msg = false
always_gives Handler.set_group_create msg = false
always_gives Handler.set_group_dissolve msg = false
always_gives Handler.set_group_change msg = false
always_gives Handler.get_receipt_list msg = false
always_gives Handler.get_offline_msg msg = false
always_gives Handler.get_history_msg msg = false
always_gives Handler.get_latest_msg_id msg = false
always_gives Handler.get_msg_by_id msg = false
always_gives Handler.get_offline_msg_cnt msg = false
always_gives Handler.get_group_offline_msg_cnt msg = false
always_gives Handler.get_register_rsp msg = false
always_gives Handler.get_heart_beat msg = false
always_gives Handler.get_user_state msg = false
always_gives Handler.get_router_table msg = false
