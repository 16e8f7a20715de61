-- ===== src/HandlerMap.antt =====
-- src/handler_map.cpp: which handler a command of the TCP protocol is given to. The numbers of the
-- commands are those of protobuf/IM.BaseDefine.proto. The handlers themselves stand by their names.
pub mod Lookup
use db_proxy_server.Prelude.{ℕ, true, false, Option, none, some, List, [], ◌∷◌, ◌%◌, ◌^◌, ◌==◌}

pub data Handler : Type 0 where
  set_offline_msg_data set_online_msg_data set_recall_msg_data set_receipt_status : Handler
  get_receipt_list get_offline_msg_cnt get_group_offline_msg_cnt get_history_msg get_offline_msg :
      Handler
  get_latest_msg_id get_msg_by_id set_recent_chat get_frequent_chat get_single_user_info : Handler
  set_user_info set_user_avatar set_friend_remark set_user_sign_info get_friend_req_list : Handler
  get_login_result set_modify_pwd get_buddy_config set_friend_req set_friend_req_result : Handler
  set_friend_manage set_add_recent_chat set_del_recent_chat set_online_report set_msg_report :
      Handler
  get_user_role get_register_rsp get_heart_beat get_user_state get_router_table get_group_list :
      Handler
  set_group_list set_group_disturb set_group_owner get_group_info set_group_info : Handler
  get_group_members set_group_create set_group_dissolve set_group_change update_user_id : Handler
  update_user_info update_user_friend_list update_user_group_list update_group_member_list : Handler
  update_org_tree : Handler

-- `m_handler_map.insert(make_pair(uint32_t(...), ...))`, in the order of the constructor.
abbrev pub registrations : List (ℕ × Handler)
registrations =
    (0x0316, set_offline_msg_data)
    ∷ (0x0317, set_online_msg_data)
    ∷ (0x031b, set_recall_msg_data)
    ∷ (0x0303, set_receipt_status)
    ∷ (0x0306, get_receipt_list)
    ∷ (0x030a, get_offline_msg_cnt)
    ∷ (0x0319, get_group_offline_msg_cnt)
    ∷ (0x030c, get_history_msg)
    ∷ (0x030e, get_offline_msg)
    ∷ (0x0310, get_latest_msg_id)
    ∷ (0x0312, get_msg_by_id)
    ∷ (0x0220, set_recent_chat)
    ∷ (0x0205, get_frequent_chat)
    ∷ (0x0207, get_single_user_info)
    ∷ (0x0214, set_user_info)
    ∷ (0x020f, set_user_avatar)
    ∷ (0x0218, set_friend_remark)
    ∷ (0x0212, set_user_sign_info)
    ∷ (0x021a, get_friend_req_list)
    ∷ (0x071b, get_login_result)
    ∷ (0x0727, set_modify_pwd)
    ∷ (0x0719, get_buddy_config)
    ∷ (0x071e, set_friend_req)
    ∷ (0x0725, set_friend_req_result)
    ∷ (0x0721, set_friend_manage)
    ∷ (0x0723, set_add_recent_chat)
    ∷ (0x0726, set_del_recent_chat)
    ∷ (0x0729, set_online_report)
    ∷ (0x072a, set_msg_report)
    ∷ (0x072b, get_user_role)
    ∷ (0x2202, get_register_rsp)
    ∷ (0x0701, get_heart_beat)
    ∷ (0x0802, get_user_state)
    ∷ (0x2207, get_router_table)
    ∷ (0x0401, get_group_list)
    ∷ (0x0417, set_group_list)
    ∷ (0x041c, set_group_disturb)
    ∷ (0x0419, set_group_owner)
    ∷ (0x0403, get_group_info)
    ∷ (0x0413, set_group_info)
    ∷ (0x0405, get_group_members)
    ∷ (0x0407, set_group_create)
    ∷ (0x0409, set_group_dissolve)
    ∷ (0x040c, set_group_change)
    ∷ (0x090d, update_user_id)
    ∷ (0x0903, update_user_info)
    ∷ (0x0905, update_user_friend_list)
    ∷ (0x0909, update_user_group_list)
    ∷ (0x090b, update_group_member_list)
    ∷ (0x0911, update_org_tree)
    ∷ []

-- A key is narrowed to uint16_t. `map::insert` leaves an entry that is there.
unfoldable pub find : ℕ → List (ℕ × Handler) → Option Handler
find key [] = none
find key ((k, h) ∷ rest) = elim (k % 2 ^ 16 == key) [ true ↦ some h | false ↦ find key rest ]

-- handler_map::get_handler on a uint16_t.
unfoldable pub get_handler : ℕ → Option Handler
unfolding find
get_handler cmd_id = find cmd_id registrations
