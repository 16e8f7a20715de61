-- ===== src/Handlers/Buddy.antt =====
-- src/handler_buddy.cpp: the handlers of users and friends. A handler is given the parsed message, none
-- when it does not parse. Runs of blanks in a text of SQL stand as one blank.
use db_proxy_server.Prelude.{
  ℕ, ◌%◌, ◌^◌, ◌==◌, Bool, not, Option, none, some, List, [], ◌∷◌, ◌++◌, if◌then◌else◌,
}
use db_proxy_server.Handlers.Program.{
  Cell, num, lit, Built, end, set_field, set_fields, Request, number_of, item_of, items_of,
  rewritten, Column, tiny, long, longlong, string, init, bind, execute, get_num_rows, fetch_all,
  free, respond, now, time, Program, command, Body, ◌>>=◌, ◌>>◌, pure, call, test, unless, fetch_or,
  scope, gather, bind_all, bind_from, fill, rounds, declared, at, add_each, add_timed, Formats,
  attempt, listing, field, text_field, sharded,
}
use db_proxy_server.Handlers.CacheTables.{user_info_sql, user_info, user_info_columns}
use db_proxy_server.Handlers.Cache.{redis_user_info, redis_user_friend_list}

-- `is_more_data`, of the number of rows.
abbrev pub is_more_data : ℕ → Cell
is_more_data rows = if rows == 100 then num 1 else num 0

abbrev pub list_item_fixtop : ℕ
list_item_fixtop = 3

-- The test of the first `if` assigns LIST_ITEM_FIXTOP, 3, to `type`. LIST_ITEM_UNFIXTOP is 4.
unfoldable pub set_recent_chat : {R : Type 0} → Option Request → Body R (Unit {0})
set_recent_chat none = call (free 0)
set_recent_chat (some msg_data) = scope 0 λ leave. do
  let company_id = number_of msg_data "company_id"
  let user_id = field msg_data "user_id"
  let dest_company_id = field msg_data "dest_company_id"
  let dest_user_id = field msg_data "dest_user_id"
  let type = list_item_fixtop
  test (not (type == 0))
      (do
        unless (leave tt) (
            call (
              init 0 (
                lit "insert into " ∷ sharded "t_im_user_recent_chat_" company_id
                ++ lit
                    "(company_id, user_id, chat_company_id, chat_user_id, session_type, order_value, update_time) values (?, ?, ?, ?, ?, ?) on duplicate key update order_value = ?, update_time = ?"
                  ∷ [])))
        bind_all 0 (num company_id ∷ user_id ∷ dest_company_id ∷ dest_user_id ∷ num 1 ∷ [])
        seconds ← call time
        call (bind 0 5 (num (seconds % 2 ^ 32)))
        update_time ← call now
        bind_from 0 6 (num update_time ∷ num (seconds % 2 ^ 32) ∷ num update_time ∷ [])
        unless (leave tt) (call (execute 0)))
      (test (type == 4)
        (do
          ok ←
              attempt (leave tt) 0
                (lit "delete from " ∷ sharded "t_im_user_recent_chat_" company_id
                  ++ lit
                      " where company_id = ? and user_id = ? and chat_company_id = ? and chat_user_id =?"
                    ∷ [])
                (num company_id ∷ user_id ∷ dest_company_id ∷ dest_user_id ∷ [])
          unless (leave tt) (pure ok))
        (pure tt))
  call (
      respond (
        rewritten 0x0418 (
          set_fields
            (("company_id", dest_company_id)
              ∷ ("user_id", dest_user_id)
              ∷ ("result_code", num 1)
              ∷ ("type", num type)
              ∷ ("session_type", field msg_data "session_type")
              ∷ [])
            end)))

abbrev pub frequent_columns : List Column
frequent_columns = long 4 ∷ long 4 ∷ tiny 1 ∷ string 100 ∷ longlong 8 ∷ string 100 ∷ tiny 1 ∷ []

abbrev pub frequent_item : List Cell → Built
frequent_item v =
    set_fields
      (("company_id", at v 0)
        ∷ ("contact_id", at v 1)
        ∷ ("is_delete", at v 2)
        ∷ ("contact_name", at v 5)
        ∷ ("user_gender", at v 6)
        ∷ ("contact_nick_name", at v 3)
        ∷ ("last_update_time", at v 4)
        ∷ [])
      end

unfoldable pub get_frequent_chat : {R : Type 0} → Option Request → Body R (Unit {0})
get_frequent_chat none = call (free 0)
get_frequent_chat (some msg_data) = scope 0 λ leave. do
  let company_id = number_of msg_data "company_id"
  listing (leave tt) 0
      (lit
            "select a.friend_company_id, a.friend_user_id, a.is_delete, a.remark, a.update_time, b.name, b.sex from "
          ∷ sharded "t_im_user_friend_" company_id
        ++ lit " as a, " ∷ sharded "t_im_user_vcard_" company_id
        ++ lit
            " as b where a.company_id = ? and a.user_id = ? and a.friend_company_id = b.company_id and a.friend_user_id = b.user_id and a.update_time > ? order by a.update_time asc limit 0, 100"
          ∷ [])
      (num company_id ∷ field msg_data "user_id" ∷ field msg_data "update_time" ∷ [])
      frequent_columns
  n ← call (get_num_rows 0)
  rows ← call (fetch_all 0)
  call (
      respond (
        rewritten 0x0206 (
          add_timed "frequent_baseinfo_list" frequent_item 4
            (rounds (λ v. v) (declared frequent_columns) rows)
            (set_field "is_more_data" (is_more_data n) end))))

module _ (formats : Formats) (redis : Bool) where
  open formats use {write_json}

  -- A round of get_single_user_info, with a statement of its own. A failing step ends the loop.
  unfoldable pub single_user_info :
      {R : Type 0} → (List Built → Program R) → Request → Body R (List Built)
  single_user_info stop user_item = do
    let company_id = number_of user_item "company_id"
    let user_id = field user_item "user_id"
    let out = command (free 1) (λ _. stop [])
    listing out 1 (user_info_sql company_id)
        (num company_id ∷ user_id ∷ num company_id ∷ num company_id ∷ user_id ∷ [])
        user_info_columns
    row ← fetch_or out 1
    let v = fill (declared user_info_columns) row
    call (free 1)
    pure (user_info write_json company_id user_id v (at v 17) ∷ [])

  unfoldable pub get_single_user_info : {R : Type 0} → Option Request → Body R (Unit {0})
  unfolding single_user_info
  get_single_user_info none = call (free 0)
  get_single_user_info (some msg_data) = scope 0 λ leave. do
    users ← gather (items_of msg_data "user_id_list") single_user_info []
    call (respond (rewritten 0x0208 (add_each "user_info_list" (λ b. b) users end)))

  unfoldable pub set_user_info : {R : Type 0} → Option Request → Body R (Unit {0})
  set_user_info none = call (free 0)
  set_user_info (some msg_data) = scope 0 λ leave. do
    let company_id = number_of msg_data "from_company_id"
    let user_id = number_of msg_data "from_user_id"
    let user_info = item_of msg_data "user_info" 0
    unless (leave tt) (
        call (
          init 0 (
            lit "update " ∷ sharded "t_im_user_vcard_" company_id
            ++ lit
                " set name = ?, english_name = ?, nick_name = ?, birthday = ?, sex = ?, email = ?, mobile = ?, tel = ?, sign_info = ?, head_img = ?, head_update_time = ?, update_time = ? where company_id = ? and user_id = ? "
              ∷ [])))
    bind_all 0 (
        text_field user_info "user_real_name"
        ∷ text_field user_info "user_english_name"
        ∷ text_field user_info "user_nick_name"
        ∷ field user_info "user_borndate"
        ∷ field user_info "user_gender"
        ∷ text_field user_info "email"
        ∷ text_field user_info "user_mobile"
        ∷ text_field user_info "user_tel"
        ∷ text_field user_info "sign_info"
        ∷ text_field user_info "avatar_url"
        ∷ field user_info "avatar_update_time"
        ∷ [])
    update_time ← call now
    bind_from 0 11 (num update_time ∷ num company_id ∷ num user_id ∷ [])
    ok ← call (execute 0)
    call (
        respond (
          rewritten 0x0215 (
            set_fields
              (("result", num (if ok then 1 else 2)) ∷ ("update_time", num update_time) ∷ []) end)))
    _ ← redis_user_info formats redis company_id user_id
    pure tt

  unfoldable pub set_user_avatar : {R : Type 0} → Option Request → Body R (Unit {0})
  set_user_avatar none = call (free 0)
  set_user_avatar (some msg_data) = scope 0 λ leave. do
    let company_id = number_of msg_data "company_id"
    let user_id = number_of msg_data "user_id"
    unless (leave tt) (
        call (
          init 0 (
            lit "update " ∷ sharded "t_im_user_vcard_" company_id
            ++ lit
                " set head_img = ?, update_time = ?, head_update_time = ? where company_id = ? and user_id = ?"
              ∷ [])))
    call (bind 0 0 (text_field msg_data "avatar_url"))
    update_time ← call now
    bind_from 0 1 (num update_time ∷ num update_time ∷ num company_id ∷ num user_id ∷ [])
    ok ← call (execute 0)
    call (
        respond (
          rewritten 0x0210 (
            set_fields
              (("result_code", num (if ok then 1 else 0)) ∷ ("update_time", num update_time) ∷ [])
              end)))
    _ ← redis_user_info formats redis company_id user_id
    pure tt

  unfoldable pub set_user_sign_info : {R : Type 0} → Option Request → Body R (Unit {0})
  set_user_sign_info none = call (free 0)
  set_user_sign_info (some msg_data) = scope 0 λ leave. do
    let company_id = number_of msg_data "company_id"
    let user_id = number_of msg_data "user_id"
    unless (leave tt) (
        call (
          init 0 (
            lit "update " ∷ sharded "t_im_user_vcard_" company_id
            ++ lit " set sign_info = ?, update_time = ? where company_id = ? and user_id = ?"
              ∷ [])))
    call (bind 0 0 (text_field msg_data "sign_info"))
    update_time ← call now
    bind_from 0 1 (num update_time ∷ num company_id ∷ num user_id ∷ [])
    ok ← call (execute 0)
    call (
        respond (
          rewritten 0x0213 (
            set_fields
              (("result_code", num (if ok then 1 else 0)) ∷ ("update_time", num update_time) ∷ [])
              end)))
    _ ← redis_user_info formats redis company_id user_id
    pure tt

  -- Whether ParseFromArray succeeds is not tested: `msg_data` is what it leaves. The text lacks an
  -- `and` and the suffix of the table.
  unfoldable pub set_friend_remark : {R : Type 0} → Request → Body R (Unit {0})
  set_friend_remark msg_data = scope 0 λ leave. do
    let company_id = number_of msg_data "company_id"
    let user_id = number_of msg_data "user_id"
    let remark = text_field msg_data "nick_name"
    let friend_company_id = field msg_data "dest_company_id"
    let friend_id = field msg_data "dest_user_id"
    unless (leave tt) (
        call (
          init 0 (
            lit
              "update t_im_user_friend set remark = ?, update_time = ? where company_id = ? and user_id = ? and friend_company_id = ? friend_id = ?"
            ∷ [])))
    call (bind 0 0 remark)
    update_time ← call now
    bind_from 0 1
        (num update_time ∷ num company_id ∷ num user_id ∷ friend_company_id ∷ friend_id ∷ [])
    _ ← call (execute 0)
    call (
        respond (
          rewritten 0x0219 (
            set_fields
              (("company_id", num company_id)
                ∷ ("user_id", num user_id)
                ∷ ("dest_company_id", friend_company_id)
                ∷ ("dest_user_id", friend_id)
                ∷ ("nick_name", remark)
                ∷ ("update_time", num update_time)
                ∷ [])
              end)))
    call (free 0)
    _ ← redis_user_friend_list formats redis company_id user_id
    pure tt
