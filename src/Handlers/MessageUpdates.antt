-- ===== src/Handlers/MessageUpdates.antt =====
-- src/handler_msg.cpp: the handlers that store messages. A handler is given the parsed message, none
-- when it does not parse. Runs of blanks in a text of SQL stand as one blank.
use db_proxy_server.Prelude.{ℕ, ◌==◌, ◌||◌, Option, none, some, List, [], ◌∷◌, ◌++◌, if◌then◌else◌}
use db_proxy_server.Handlers.Program.{
  Cell, num, text, lit, Text, Built, end, set_field, set_fields, Request, number_of, item_of,
  rewritten, Column, long, longlong, init, bind, execute, query, get_result, get_num_rows,
  fetch_all, free, respond, now, Body, ◌>>=◌, ◌>>◌, pure, call, test, unless, closing, scope,
  bind_all, columns, rounds, declared, at, add_timed, Formats, attempt, field, text_field,
}
use db_proxy_server.Handlers.ServerUpdates.{delete_and_free}
use db_proxy_server.Handlers.Buddy.{is_more_data}

abbrev pub message_cells : Request → List Cell
message_cells msg_array =
    text_field msg_array "msg_id"
    ∷ field msg_array "from_company_id"
    ∷ field msg_array "from_user_id"
    ∷ field msg_array "to_company_id"
    ∷ field msg_array "to_user_id"
    ∷ field msg_array "create_time"
    ∷ []

abbrev pub insert_chat_msg : Text
insert_chat_msg =
    lit
      "insert into t_im_chat_msg(msg_id, from_company_id, from_user_id, to_company_id, to_user_id, create_time, msg_data) values(?, ?, ?, ?, ?, ?, ?)"
    ∷ []

module _ (formats : Formats) where
  open formats use {serialize_part}

  -- SESSION_TYPE_SINGLE 1, SESSION_TYPE_MULTICHAT 2, SESSION_TYPE_ORGGROUP 3.
  unfoldable pub set_offline_msg_data : {R : Type 0} → Option Request → Body R (Unit {0})
  set_offline_msg_data none = delete_and_free
  set_offline_msg_data (some msg_data) = closing delete_and_free λ leave. do
    let msg_array = item_of msg_data "msg_data" 0
    test (1 == number_of msg_array "session_type")
        (do
          _ ←
              attempt (leave tt) 0 insert_chat_msg
                (message_cells msg_array ++ text (serialize_part msg_array) ∷ [])
          call (free 0)
          _ ←
              attempt (leave tt) 0
                (lit
                    "insert into t_im_chat_offline_msg(msg_id, from_company_id, from_user_id, to_company_id, to_user_id, create_time) values(?, ?, ?, ?, ?, ?)"
                  ∷ [])
                (message_cells msg_array)
          pure tt)
        (pure tt)

  -- The text stays empty for another type of session.
  abbrev pub online_sql : ℕ → Text
  online_sql session_type =
      if session_type == 1
      then insert_chat_msg
      else if session_type == 2
      then lit
          "insert into t_im_group_msg(msg_id, from_company_id, from_user_id, to_company_id, to_group_id, create_time, msg_data) values(?, ?, ?, ?, ?, ?, ?)"
        ∷ []
      else if session_type == 3
      then lit
          "insert into t_im_orggroup_msg(msg_id, from_company_id, from_user_id, to_company_id, to_org_id, create_time, msg_data) values(?, ?, ?, ?, ?, ?, ?)"
        ∷ []
      else []

  unfoldable pub set_online_msg_data : {R : Type 0} → Option Request → Body R (Unit {0})
  set_online_msg_data none = delete_and_free
  set_online_msg_data (some msg_data) = closing delete_and_free λ leave. do
    let msg_array = item_of msg_data "msg_data" 0
    _ ←
        attempt (leave tt) 0 (online_sql (number_of msg_array "session_type"))
          (message_cells msg_array ++ text (serialize_part msg_array) ∷ [])
    pure tt

  -- The id of the message that is recalled: msg_content(0).msg_data().
  abbrev pub recalled_id : Request → Cell
  recalled_id msg_array = text_field (item_of msg_array "msg_content" 0) "msg_data"

  unfoldable pub set_recall_msg_data : {R : Type 0} → Option Request → Body R (Unit {0})
  set_recall_msg_data none = delete_and_free
  set_recall_msg_data (some msg_data) = closing delete_and_free λ leave. do
    let msg_array = item_of msg_data "msg_data" 0
    let session_type = number_of msg_array "session_type"
    let msg_id = text_field msg_array "msg_id"
    sql ←
        test (1 == session_type)
          (do
            _ ←
                attempt (leave tt) 0
                  (lit "update t_im_chat_offline_msg set msg_id = ? where msg_id = ?" ∷ [])
                  (msg_id ∷ recalled_id msg_array ∷ [])
            call (free 0)
            pure (lit "update t_im_chat_msg set msg_data = ?, msg_id = ? where msg_id = ?" ∷ []))
          (test (2 == session_type)
            (pure (lit "update t_im_group_msg set msg_data = ?, msg_id = ? where msg_id = ?" ∷ []))
            (test (3 == session_type)
              (pure
                (lit "update t_im_orggroup_msg set msg_data = ?, msg_id = ? where msg_id = ?" ∷ []))
              (pure [])))
    _ ←
        attempt (leave tt) 0 sql
          (text (serialize_part msg_array) ∷ msg_id ∷ recalled_id msg_array ∷ [])
    pure tt

-- Another type of session prepares nothing.
unfoldable pub set_receipt_status : {R : Type 0} → Option Request → Body R (Unit {0})
set_receipt_status none = delete_and_free
set_receipt_status (some msg_data) = closing delete_and_free λ leave. do
  let session_type = number_of msg_data "session_type"
  test (1 == session_type)
      (unless (leave tt) (
        call (
          init 0 (
            lit
              "update t_im_chat_msg set status = 1 where msg_id = ? and from_company_id = ? and from_user_id = ? and to_company_id = ? and to_user_id = ?"
            ∷ []))))
      (test ((2 == session_type) || (3 == session_type))
        (do
          unless (leave tt) (
              call (
                init 0 (
                  lit
                    "insert into t_im_receipt_msg(msg_id, from_company_id, from_user_id, to_company_id, to_user_id, update_time) values(?, ?, ?, ?, ?, ?) "
                  ∷ [])))
          update_time ← call now
          call (bind 0 5 (num update_time)))
        (pure tt))
  bind_all 0 (
      text_field msg_data "msg_id"
      ∷ field msg_data "from_company_id"
      ∷ field msg_data "from_user_id"
      ∷ field msg_data "to_company_id"
      ∷ field msg_data "to_user_id"
      ∷ [])
  _ ← call (execute 0)
  pure tt

abbrev pub receipt_columns : List Column
receipt_columns = long 4 ∷ long 4 ∷ longlong 8 ∷ []

abbrev pub receipt_user : List Cell → Built
receipt_user v = set_fields (("company_id", at v 0) ∷ ("user_id", at v 1) ∷ []) end

unfoldable pub get_receipt_list : {R : Type 0} → Option Request → Body R (Unit {0})
get_receipt_list none = call (free 0)
get_receipt_list (some msg_data) = scope 0 λ leave. do
  let msg_id = text_field msg_data "msg_id"
  unless (leave tt) (
      call (
        init 0 (
          lit
            "select to_company_id, to_user_id, update_time from t_im_receipt_msg where msg_id = ? and from_company_id = ? and from_user_id = ? and update_time < ? order by update_time desc limit 0, 100"
          ∷ [])))
  bind_all 0 (msg_id ∷ field msg_data "company_id" ∷ field msg_data "user_id" ∷ [])
  let asked = number_of msg_data "update_time"
  update_time ← test (asked == 0) (call now) (pure asked)
  call (bind 0 3 (num update_time))
  unless (leave tt) (call (query 0))
  columns 0 receipt_columns
  unless (leave tt) (call (get_result 0))
  n ← call (get_num_rows 0)
  rows ← call (fetch_all 0)
  call (
      respond (
        rewritten 0x0307 (
          set_fields
            (("msg_id", msg_id)
              ∷ ("group_company_id", field msg_data "group_company_id")
              ∷ ("group_id", field msg_data "group_id")
              ∷ [])
            (add_timed "receipt_user_list" receipt_user 2
              (rounds (λ v. v) (declared receipt_columns) rows)
              (set_field "is_more_data" (is_more_data n) end)))))
