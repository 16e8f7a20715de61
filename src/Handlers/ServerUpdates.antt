-- ===== src/Handlers/ServerUpdates.antt =====
-- src/handler_server.cpp: the handlers that store what the server sends. A handler is given the parsed
-- message, none when it does not parse. Runs of blanks in a text of SQL stand as one blank.
use db_proxy_server.Prelude.{ℕ, ◌==◌, Bool, Option, none, some, [], ◌∷◌, ◌++◌, if◌then◌else◌}
use db_proxy_server.Handlers.Program.{
  Cell, num, unset, lit, Text, end, set_field, Request, number_of, items_of, amended, echoed, init,
  bind, execute, free, respond, delete_task, Program, command, Body, ◌>>=◌, ◌>>◌, pure, call, test,
  unless, closing, scope, each, bind_all, Formats, attempt, field, byte_field, text_field, sharded,
}
use db_proxy_server.Handlers.Cache.{redis_user_friend_list}

-- Neither a failed execute stops the handler; the response is the request under another command.
unfoldable pub set_friend_req : {R : Type 0} → Option Request → Body R (Unit {0})
set_friend_req none = call (free 0)
set_friend_req (some msg_data) = scope 0 λ leave. do
  let company_id = field msg_data "req_company_id"
  let user_id = field msg_data "req_user_id"
  let dest_company_id = field msg_data "dest_company_id"
  let dest_user_id = field msg_data "dest_user_id"
  _ ←
      attempt (leave tt) 0
        (lit
            "delete from t_im_user_friend_req where company_id = ? and user_id = ? and dest_company_id = ? and dest_id = ?"
          ∷ [])
        (company_id ∷ user_id ∷ dest_company_id ∷ dest_user_id ∷ [])
  call (free 0)
  _ ←
      attempt (leave tt) 0
        (lit
            "insert into t_im_user_friend_req (company_id, user_id, dest_company_id, dest_id, req_stat, req_result, remark, create_time) values (?, ?, ?, ?, ?, ?, ?, ?)"
          ∷ [])
        (company_id
          ∷ user_id
          ∷ dest_company_id
          ∷ dest_user_id
          ∷ byte_field msg_data "req_stat"
          ∷ num 1
          ∷ text_field msg_data "opt_remark"
          ∷ field msg_data "create_time"
          ∷ [])
  call (respond (echoed 0x071f))

-- `delete ptask` and `statement.free()`.
abbrev pub delete_and_free : {R : Type 0} → Body R (Unit {0})
delete_and_free = call delete_task >> call (free 0)

unfoldable pub set_friend_req_result : {R : Type 0} → Option Request → Body R (Unit {0})
set_friend_req_result none = delete_and_free
set_friend_req_result (some msg_data) = closing delete_and_free λ leave. do
  _ ←
      attempt (leave tt) 0
        (lit
            "update t_im_user_friend_req set req_result = ? where company_id = ? and user_id = ? and dest_company_id = ? and dest_id = ?"
          ∷ [])
        (field msg_data "req_stat"
          ∷ field msg_data "company_id"
          ∷ field msg_data "user_id"
          ∷ field msg_data "dest_company_id"
          ∷ field msg_data "dest_user_id"
          ∷ [])
  pure tt

-- Insert user `b` among the friends of `a`, or take it back.
abbrev pub add_friend_sql : ℕ → Text
add_friend_sql company_id =
    lit "insert into " ∷ sharded "t_im_user_friend_" company_id
    ++ lit
        " (company_id, user_id, friend_company_id, friend_user_id, update_time) values (?, ?, ?, ?, ?) on duplicate key update is_delete = 0, update_time = ?"
      ∷ []

abbrev pub del_friend_sql : ℕ → Text
del_friend_sql company_id =
    lit "update " ∷ sharded "t_im_user_friend_" company_id
    ++ lit
        " set is_delete = 1, update_time = ? where company_id = ? and user_id = ? and friend_company_id = ? and friend_user_id = ?"
      ∷ []

module _ (formats : Formats) (redis : Bool) where
  -- One of the equal blocks of set_friend_manage, for one of the two users. A break leaves the block of
  -- the statement, and its end finds the statement closed.
  unfoldable pub add_friend :
      {R : Type 0} → (Unit {0} → Program R) → ℕ → ℕ → ℕ → ℕ → Cell → Body R (Unit {0})
  add_friend leave company_id user_id friend_company_id friend_user_id update_time = do
    _ ← attempt (command (free 0) (λ _. leave tt)) 0 (add_friend_sql company_id) (
        num company_id
        ∷ num user_id
        ∷ num friend_company_id
        ∷ num friend_user_id
        ∷ update_time
        ∷ update_time
        ∷ [])
    _ ← redis_user_friend_list formats redis company_id user_id
    call (free 0)

  unfoldable pub del_friend :
      {R : Type 0} → (Unit {0} → Program R) → ℕ → ℕ → ℕ → ℕ → Cell → Body R (Unit {0})
  del_friend leave company_id user_id friend_company_id friend_user_id update_time = do
    _ ← attempt (command (free 0) (λ _. leave tt)) 0 (del_friend_sql company_id) (
        update_time
        ∷ num company_id
        ∷ num user_id
        ∷ num friend_company_id
        ∷ num friend_user_id
        ∷ [])
    _ ← redis_user_friend_list formats redis company_id user_id
    call (free 0)

  -- OPT_ADD_FRQUENT_CONTACT 1, OPT_DEL_FRQUENT_CONTACT 2, OPT_SINGLE_ADD_FRQUENT_CONTACT 4.
  -- OPT_RESULT_SUCCESS is 1 and OPT_RESULT_FAIL is 2.
  unfoldable pub set_friend_manage : {R : Type 0} → Option Request → Body R (Unit {0})
  unfolding add_friend del_friend
  set_friend_manage none = pure tt
  set_friend_manage (some msg_data) = closing (pure tt) λ leave. do
    let opt_type = number_of msg_data "opt_type"
    let company_id = number_of msg_data "req_company_id"
    let user_id = number_of msg_data "req_user_id"
    let friend_company_id = number_of msg_data "dest_company_id"
    let friend_user_id = number_of msg_data "dest_user_id"
    let update_time = field msg_data "update_time"
    result ←
        test (1 == opt_type)
          (do
            add_friend leave company_id user_id friend_company_id friend_user_id update_time
            add_friend leave friend_company_id friend_user_id company_id user_id update_time
            pure 1)
          (test (2 == opt_type)
            (do
              del_friend leave company_id user_id friend_company_id friend_user_id update_time
              del_friend leave friend_company_id friend_user_id company_id user_id update_time
              pure 1)
            (test (4 == opt_type)
              (do
                add_friend leave company_id user_id friend_company_id friend_user_id update_time
                pure 1)
              (pure 2)))
    call (respond (amended 0x0722 (set_field "result" (num result) end)))

-- A round of set_add_recent_chat: the statement is not freed in front of the next init. A failed
-- init ends the loop.
unfoldable pub add_recent_chat : {R : Type 0} → Request → Program R → Request → Body R (Unit {0})
add_recent_chat msg_data out recent_info = do
  let company_id = number_of msg_data "req_company_id"
  let update_time = field recent_info "update_time"
  _ ←
      attempt out 0
        (lit "insert into " ∷ sharded "t_im_user_recent_chat_" company_id
          ++ lit
              " (company_id, user_id, chat_company_id, chat_user_id, session_type, update_time) values (?, ?, ?, ?, ?, ?) on duplicate key update update_time = ?"
            ∷ [])
        (num company_id
          ∷ field msg_data "req_user_id"
          ∷ field recent_info "company_id"
          ∷ field recent_info "user_id"
          ∷ num 1
          ∷ update_time
          ∷ update_time
          ∷ [])
  pure tt

unfoldable pub set_add_recent_chat : {R : Type 0} → Option Request → Body R (Unit {0})
unfolding add_recent_chat
set_add_recent_chat none = call (free 0)
set_add_recent_chat (some msg_data) = scope 0 λ leave. do
  each (items_of msg_data "recent_contact") (add_recent_chat msg_data)
  call (respond (echoed 0x0724))

-- OPT_DEL_RECENT_CONTACT 3 and OPT_DEL_RECENT_CONTACT_GROUP 5: another type leaves the last parameter
-- unbound.
unfoldable pub set_del_recent_chat : {R : Type 0} → Option Request → Body R (Unit {0})
set_del_recent_chat none = delete_and_free
set_del_recent_chat (some msg_data) = closing delete_and_free λ leave. do
  let opt_type = number_of msg_data "opt_type"
  let company_id = number_of msg_data "req_company_id"
  unless (leave tt) (
      call (
        init 0 (
          lit "delete from " ∷ sharded "t_im_user_recent_chat_" company_id
          ++ lit
              " where company_id = ? and user_id = ? and chat_company_id = ? and chat_user_id = ? and session_type = ?"
            ∷ [])))
  bind_all 0 (
      num company_id
      ∷ field msg_data "req_user_id"
      ∷ field msg_data "dest_company_id"
      ∷ field msg_data "dest_user_id"
      ∷ [])
  test (3 == opt_type) (call (bind 0 4 (num 1)))
      (test (5 == opt_type) (call (bind 0 4 (num 2))) (pure tt))
  _ ← call (execute 0)
  pure tt

unfoldable pub set_online_report : {R : Type 0} → Option Request → Body R (Unit {0})
set_online_report none = delete_and_free
set_online_report (some msg_data) = closing delete_and_free λ leave. do
  _ ←
      attempt (leave tt) 0
        (lit
            "insert into t_im_online_report (company_id, node_id, online_count, online_peek) values (?, ?, ?, ?)"
          ∷ [])
        (field msg_data "company_id"
          ∷ field msg_data "node_id"
          ∷ field msg_data "online_count"
          ∷ field msg_data "online_peek"
          ∷ [])
  pure tt

-- SESSION_TYPE_SINGLE 1, SESSION_TYPE_MULTICHAT 2 and SESSION_TYPE_ORGGROUP 3: for another type the
-- variable has no value.
abbrev pub report_type : ℕ → Cell
report_type n = if n == 1 then num 1 else if n == 2 then num 2 else if n == 3 then num 3 else unset

unfoldable pub set_msg_report : {R : Type 0} → Option Request → Body R (Unit {0})
set_msg_report none = delete_and_free
set_msg_report (some msg_data) = closing delete_and_free λ leave. do
  _ ←
      attempt (leave tt) 0
        (lit
            "insert into t_im_msg_report (company_id, session_type, node_id, online_count, offline_count) values (?, ?, ?, ?, ?)"
          ∷ [])
        (field msg_data "company_id"
          ∷ report_type (number_of msg_data "session_type")
          ∷ field msg_data "node_id"
          ∷ field msg_data "online_count"
          ∷ field msg_data "offline_count"
          ∷ [])
  pure tt
