-- ===== src/Handlers/GroupUpdates.antt =====
-- src/handler_group.cpp: the handlers that change groups. A handler is given the parsed message, none
-- when it does not parse. Runs of blanks in a text of SQL stand as one blank.
use Prim.Native.String.{String}
use db_proxy_server.Prelude.{
  ℕ, ◌%◌, ◌^◌, ◌==◌, not, Option, none, some, List, [], ◌∷◌, ◌++◌, if◌then◌else◌,
}
use db_proxy_server.Handlers.Program.{
  Cell, num, unset, lit, end, set_fields, Request, number_of, rewritten, long, init, bind, execute,
  fetch, fetch_all, free, respond, now, time, Program, command, Body, ◌>>=◌, ◌>>◌, pure, call, test,
  unless, scope, each, bind_all, bind_from, rounds, at, add_each, attempt, listing, field,
  byte_field, text_field, value_of, sharded,
}
use db_proxy_server.Handlers.Buddy.{list_item_fixtop}
use db_proxy_server.Handlers.GroupQueries.{group_info, group_info_sql, group_info_columns, found}

abbrev pub one_group : String
one_group =
    " where company_id = ? and user_id = ? and friend_company_id = ? and friend_group_id = ?"

-- The blocks of set_group_list behind the tests on `type`, which differ in what they set.
unfoldable pub set_group_item :
    {R : Type 0} → (Unit {0} → Program R) → ℕ → List Cell → String → Body R (Unit {0})
set_group_item leave company_id rest assignment = do
  unless (leave tt) (
      call (
        init 0 (
          lit "update " ∷ sharded "t_im_user_group_" company_id
          ++ lit assignment ∷ lit one_group ∷ [])))
  update_time ← call now
  bind_all 0 (num update_time ∷ num company_id ∷ rest)
  unless (leave tt) (call (execute 0))

-- The test of the first `if` assigns LIST_ITEM_FIXTOP, 3, to `type`. LIST_ITEM_UNFIXTOP is 4,
-- LIST_ITEM_SHOW 1 and LIST_ITEM_HIDE 2.
unfoldable pub set_group_list : {R : Type 0} → Option Request → Body R (Unit {0})
unfolding set_group_item
set_group_list none = call (free 0)
set_group_list (some msg_data) = scope 0 λ leave. do
  let company_id = number_of msg_data "company_id"
  let dest_company_id = field msg_data "dest_company_id"
  let dest_user_id = field msg_data "dest_user_id"
  let rest = field msg_data "user_id" ∷ dest_company_id ∷ dest_user_id ∷ []
  let type = list_item_fixtop
  test (not (type == 0))
      (do
        unless (leave tt) (
            call (
              init 0 (
                lit "update " ∷ sharded "t_im_user_group_" company_id
                ++ lit " set order_value = ?, update_time = ?" ∷ lit one_group ∷ [])))
        seconds ← call time
        call (bind 0 0 (num (seconds % 2 ^ 32)))
        update_time ← call now
        bind_from 0 1 (num update_time ∷ num company_id ∷ rest)
        unless (leave tt) (call (execute 0)))
      (test (type == 4)
        (set_group_item leave company_id rest " set order_value = 0, update_time = ?")
        (test (type == 1) (set_group_item leave company_id rest " set is_show = 1, update_time = ?")
          (test (type == 2)
            (set_group_item leave company_id rest " set is_show = 0, update_time = ?") (pure tt))))
  call (
      respond (
        rewritten 0x0418 (
          set_fields
            (("company_id", dest_company_id)
              ∷ ("user_id", dest_user_id)
              ∷ ("result_code", num 1)
              ∷ ("type", num type)
              ∷ ("session_type", field msg_data "session_type")
              ∷ [])
            end)))

unfoldable pub set_group_disturb : {R : Type 0} → Option Request → Body R (Unit {0})
set_group_disturb none = call (free 0)
set_group_disturb (some msg_data) = scope 0 λ leave. do
  let company_id = number_of msg_data "company_id"
  let user_id = field msg_data "user_id"
  let group_company_id = field msg_data "group_company_id"
  let group_id = field msg_data "group_id"
  unless (leave tt) (
      call (
        init 0 (
          lit "update " ∷ sharded "t_im_user_group_" company_id
          ++ lit " set is_disturb = ?, update_time = ?" ∷ lit one_group ∷ [])))
  call (bind 0 0 (byte_field msg_data "not_disturb"))
  update_time ← call now
  bind_from 0 1 (num update_time ∷ num company_id ∷ user_id ∷ group_company_id ∷ group_id ∷ [])
  unless (leave tt) (call (execute 0))
  call (
      respond (
        rewritten 0x041d (
          set_fields
            (("company_id", num company_id)
              ∷ ("user_id", user_id)
              ∷ ("group_company_id", group_company_id)
              ∷ ("group_id", group_id)
              ∷ ("result_code", num 1)
              ∷ ("group_type", field msg_data "group_type")
              ∷ ("not_disturb", field msg_data "not_disturb")
              ∷ [])
            end)))

unfoldable pub set_group_owner : {R : Type 0} → Option Request → Body R (Unit {0})
set_group_owner none = call (free 0)
set_group_owner (some msg_data) = scope 0 λ leave. do
  let group_company_id = field msg_data "group_company_id"
  let group_id = field msg_data "group_id"
  let from_company_id = field msg_data "from_company_id"
  let from_user_id = field msg_data "from_user_id"
  let to_company_id = field msg_data "to_company_id"
  let to_user_id = field msg_data "to_user_id"
  unless (leave tt) (call (init 0 (lit "call set_group_owner(?, ?, ?, ?, ?, ?, ?)" ∷ [])))
  bind_all 0 (
      group_company_id ∷ group_id ∷ from_company_id ∷ from_user_id ∷ to_company_id ∷ to_user_id
      ∷ [])
  update_time ← call now
  call (bind 0 6 (num update_time))
  unless (leave tt) (call (execute 0))
  call (
      respond (
        rewritten 0x041a (
          set_fields
            (("group_company_id", group_company_id)
              ∷ ("group_id", group_id)
              ∷ ("from_company_id", from_company_id)
              ∷ ("from_user_id", from_user_id)
              ∷ ("to_company_id", to_company_id)
              ∷ ("to_user_id", to_user_id)
              ∷ ("group_type", field msg_data "group_type")
              ∷ ("result_code", num 1)
              ∷ [])
            end)))

-- The loop over the companies of the members in set_group_info, with a statement of its own.
unfoldable pub touch_company : {R : Type 0} → ℕ → ℕ → ℕ → Program R → List Cell → Body R (Unit {0})
touch_company update_time group_company_id group_id out v = do
  let leave = command (free 1) (λ _. out)
  ok ←
      attempt leave 1
        (lit "update " ∷ sharded "t_im_user_group_" (value_of (at v 0))
          ++ lit " set update_time = ? where friend_company_id = ? and friend_group_id = ?" ∷ [])
        (num update_time ∷ num group_company_id ∷ num group_id ∷ [])
  unless leave (pure ok)
  call (free 1)

-- The statement is not freed between the listing of the companies and that of the group.
unfoldable pub set_group_info : {R : Type 0} → Option Request → Body R (Unit {0})
unfolding touch_company
set_group_info none = call (free 0)
set_group_info (some msg_data) = scope 0 λ leave. do
  let group_id = number_of msg_data "group_id"
  let type = number_of msg_data "group_type"
  test (not (1 == type)) (λ k. leave tt) (pure tt)
  let group_company_id = number_of msg_data "group_company_id"
  unless (leave tt) (
      call (
        init 0 (
          lit "update " ∷ sharded "t_im_group_list_" group_company_id
          ++ lit
              " set group_name = ?, group_topic = ?, head_img = ?, head_update_time = ?, update_time = ? where company_id = ? and group_id = ?"
            ∷ [])))
  bind_all 0 (
      text_field msg_data "group_name"
      ∷ text_field msg_data "topic"
      ∷ text_field msg_data "group_avatar"
      ∷ [])
  update_time ← call now
  bind_from 0 3 (num update_time ∷ num update_time ∷ num group_company_id ∷ num group_id ∷ [])
  ok ← call (execute 0)
  call (free 0)
  listing (leave tt) 0
      (lit "select user_company_id from " ∷ sharded "t_im_group_member_" group_company_id
        ++ lit " where group_company_id = ? and group_id = ? group by user_company_id" ∷ [])
      (num group_company_id ∷ num group_id ∷ []) (long 4 ∷ [])
  rows ← call (fetch_all 0)
  each (rounds (λ v. v) (unset ∷ []) rows) (touch_company update_time group_company_id group_id)
  listing (leave tt) 0 (group_info_sql group_company_id)
      (num group_company_id ∷ num group_id ∷ num group_company_id ∷ num group_id ∷ [])
      group_info_columns
  row ← call (fetch 0)
  call (
      respond (
        rewritten 0x0414 (
          set_fields
            (("result_code", num (if ok then 1 else 2))
              ∷ ("group_type", num type)
              ∷ ("company_id", field msg_data "company_id")
              ∷ ("user_id", field msg_data "user_id")
              ∷ ("group_company_id", num group_company_id)
              ∷ ("group_id", num group_id)
              ∷ ("update_time", num update_time)
              ∷ [])
            (add_each "group_info" (λ b. b)
              (found (group_info group_company_id group_id type) group_info_columns row) end))))
