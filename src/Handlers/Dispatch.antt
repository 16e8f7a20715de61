-- ===== src/Handlers/Dispatch.antt =====
-- src/handler_map.cpp: the program of each handler of the map. `redis` is false for NULL, `msg` is the
-- message of the task, none when it does not parse, and `left` what ParseFromArray leaves of it.
use db_proxy_server.Prelude.{Bool, Option, none, some}
use db_proxy_server.HandlerMap.{Handler}
use db_proxy_server.Handlers.Program.{Request, Formats, Program, done}
use db_proxy_server.Handlers.Cache
use db_proxy_server.Handlers.ServerQueries
use db_proxy_server.Handlers.ServerUpdates
use db_proxy_server.Handlers.Buddy
use db_proxy_server.Handlers.BuddyRequests
use db_proxy_server.Handlers.GroupQueries
use db_proxy_server.Handlers.GroupUpdates
use db_proxy_server.Handlers.GroupMembers
use db_proxy_server.Handlers.MessageUpdates
use db_proxy_server.Handlers.MessageQueries
use db_proxy_server.Handlers.MessageCounts

abbrev pub parsed_or : Request → Option Request → Request
parsed_or left none = left
parsed_or left (some msg_data) = msg_data

module _ (formats : Formats) (redis : Bool) (left : Request) where
  -- none for the handlers that are not modelled.
  unfoldable pub program_of : Handler → Option Request → Option (Program (Unit {0}))
  program_of Handler.update_user_id msg = some (Cache.update_user_id formats redis msg done)
  program_of Handler.update_user_info msg = some (Cache.update_user_info formats redis msg done)
  program_of Handler.update_user_friend_list msg =
      some (Cache.update_user_friend_list formats redis msg done)
  program_of Handler.update_user_group_list msg =
      some (Cache.update_user_group_list formats redis msg done)
  program_of Handler.update_group_member_list msg =
      some (Cache.update_group_member_list formats redis msg done)
  program_of Handler.update_org_tree msg = some (Cache.update_org_tree formats redis msg done)
  program_of Handler.get_login_result msg = some (ServerQueries.get_login_result formats msg done)
  program_of Handler.set_modify_pwd msg = some (ServerQueries.set_modify_pwd msg done)
  program_of Handler.get_buddy_config msg = some (ServerQueries.get_buddy_config msg done)
  program_of Handler.get_user_role msg = some (ServerQueries.get_user_role msg done)
  program_of Handler.set_friend_req msg = some (ServerUpdates.set_friend_req msg done)
  program_of Handler.set_friend_req_result msg = some (ServerUpdates.set_friend_req_result msg done)
  program_of Handler.set_friend_manage msg =
      some (ServerUpdates.set_friend_manage formats redis msg done)
  program_of Handler.set_add_recent_chat msg = some (ServerUpdates.set_add_recent_chat msg done)
  program_of Handler.set_del_recent_chat msg = some (ServerUpdates.set_del_recent_chat msg done)
  program_of Handler.set_online_report msg = some (ServerUpdates.set_online_report msg done)
  program_of Handler.set_msg_report msg = some (ServerUpdates.set_msg_report msg done)
  program_of Handler.set_recent_chat msg = some (Buddy.set_recent_chat msg done)
  program_of Handler.get_frequent_chat msg = some (Buddy.get_frequent_chat msg done)
  program_of Handler.get_single_user_info msg =
      some (Buddy.get_single_user_info formats redis msg done)
  program_of Handler.set_user_info msg = some (Buddy.set_user_info formats redis msg done)
  program_of Handler.set_user_avatar msg = some (Buddy.set_user_avatar formats redis msg done)
  program_of Handler.set_user_sign_info msg = some (Buddy.set_user_sign_info formats redis msg done)
  program_of Handler.set_friend_remark msg =
      some (Buddy.set_friend_remark formats redis (parsed_or left msg) done)
  program_of Handler.get_friend_req_list msg = some (BuddyRequests.get_friend_req_list msg done)
  program_of Handler.get_group_list msg = some (GroupQueries.get_group_list msg done)
  program_of Handler.get_group_info msg = some (GroupQueries.get_group_info msg done)
  program_of Handler.get_group_members msg = some (GroupQueries.get_group_members msg done)
  program_of Handler.set_group_list msg = some (GroupUpdates.set_group_list msg done)
  program_of Handler.set_group_disturb msg = some (GroupUpdates.set_group_disturb msg done)
  program_of Handler.set_group_owner msg = some (GroupUpdates.set_group_owner msg done)
  program_of Handler.set_group_info msg = some (GroupUpdates.set_group_info msg done)
  program_of Handler.set_group_create msg =
      some (GroupMembers.set_group_create formats redis msg done)
  program_of Handler.set_group_dissolve msg =
      some (GroupMembers.set_group_dissolve formats redis msg done)
  program_of Handler.set_group_change msg =
      some (GroupMembers.set_group_change formats redis msg done)
  program_of Handler.set_offline_msg_data msg =
      some (MessageUpdates.set_offline_msg_data formats msg done)
  program_of Handler.set_online_msg_data msg =
      some (MessageUpdates.set_online_msg_data formats msg done)
  program_of Handler.set_recall_msg_data msg =
      some (MessageUpdates.set_recall_msg_data formats msg done)
  program_of Handler.set_receipt_status msg = some (MessageUpdates.set_receipt_status msg done)
  program_of Handler.get_receipt_list msg = some (MessageUpdates.get_receipt_list msg done)
  program_of Handler.get_offline_msg msg = some (MessageQueries.get_offline_msg msg done)
  program_of Handler.get_history_msg msg = some (MessageQueries.get_history_msg msg done)
  program_of Handler.get_latest_msg_id msg = some (MessageQueries.get_latest_msg_id msg done)
  program_of Handler.get_msg_by_id msg = some (MessageQueries.get_msg_by_id msg done)
  program_of Handler.get_offline_msg_cnt msg = some (MessageCounts.get_offline_msg_cnt msg done)
  program_of Handler.get_group_offline_msg_cnt msg =
      some (MessageCounts.get_group_offline_msg_cnt msg done)
  program_of Handler.get_register_rsp msg = none
  program_of Handler.get_heart_beat msg = none
  program_of Handler.get_user_state msg = none
  program_of Handler.get_router_table msg = none
