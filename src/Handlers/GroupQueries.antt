-- ===== src/Handlers/GroupQueries.antt =====
-- src/handler_group.cpp: the handlers that ask MySQL for groups. A handler is given the parsed message,
-- none when it does not parse. Runs of blanks in a text of SQL stand as one blank.
use db_proxy_server.Prelude.{ℕ, ◌==◌, not, Option, none, some, List, [], ◌∷◌, ◌++◌, set}
use db_proxy_server.Handlers.Program.{
  Cell, num, text, lit, Text, Built, end, set_field, set_fields, Request, number_of, items_of,
  rewritten, Column, tiny, long, longlong, string, get_num_rows, fetch, fetch_all, free, respond,
  Row, Program, Body, ◌>>=◌, ◌>>◌, pure, call, test, scope, gather, fill, rounds, declared, at,
  add_each, add_timed, listing, field, sharded,
}
use db_proxy_server.Handlers.Buddy.{is_more_data}

abbrev pub group_list_columns : List Column
group_list_columns =
    long 4
    ∷ long 4
    ∷ tiny 1
    ∷ tiny 1
    ∷ long 4
    ∷ long 4
    ∷ long 4
    ∷ longlong 8
    ∷ string 150
    ∷ string 150
    ∷ long 4
    ∷ tiny 1
    ∷ long 4
    ∷ string 255
    ∷ []

-- GROUP_TYPE_MULTICHAT is 1.
abbrev pub group_list_item : List Cell → Built
group_list_item v =
    set_fields
      (("company_id", at v 0)
        ∷ ("group_id", at v 1)
        ∷ ("is_delete", at v 2)
        ∷ ("fixtop_priority", at v 4)
        ∷ ("show", at v 6)
        ∷ ("not_disturb", at v 5)
        ∷ ("group_name", at v 8)
        ∷ ("topic", at v 9)
        ∷ ("group_avatar", at v 13)
        ∷ ("group_creator_id", at v 10)
        ∷ ("shield_status", at v 11)
        ∷ ("group_member_count", at v 12)
        ∷ ("group_type", num 1)
        ∷ ("update_time", at v 7)
        ∷ [])
      end

-- memset of name, topic and head_img.
abbrev pub clear_texts : List Cell → List Cell
clear_texts v = set (set (set v 8 (text [])) 9 (text [])) 13 (text [])

unfoldable pub get_group_list : {R : Type 0} → Option Request → Body R (Unit {0})
get_group_list none = call (free 0)
get_group_list (some msg_data) = scope 0 λ leave. do
  let company_id = number_of msg_data "company_id"
  listing (leave tt) 0
      (lit
            "select a.friend_company_id, a.friend_group_id, a.is_delete, a.group_type, a.order_value, a.is_disturb, a.is_show, a.update_time, b.group_name, b.group_topic, b.owner_id, b.is_public, b.member_count, b.head_img from "
          ∷ sharded "t_im_user_group_" company_id
        ++ lit " as a, " ∷ sharded "t_im_group_list_" company_id
        ++ lit
            " as b where a.company_id = ? and a.user_id = ? and b.company_id = a.friend_company_id and b.group_id = a.friend_group_id and a.update_time > ? order by a.update_time asc limit 0, 100"
          ∷ [])
      (num company_id ∷ field msg_data "user_id" ∷ field msg_data "update_time" ∷ [])
      group_list_columns
  n ← call (get_num_rows 0)
  rows ← call (fetch_all 0)
  call (
      respond (
        rewritten 0x0402 (
          add_timed "group_info_list" group_list_item 7
            (rounds clear_texts (declared group_list_columns) rows)
            (set_field "is_more_data" (is_more_data n) end))))

abbrev pub group_info_columns : List Column
group_info_columns =
    long 4 ∷ string 150 ∷ string 150 ∷ tiny 1 ∷ long 4 ∷ string 255 ∷ longlong 8 ∷ []

abbrev pub group_info_sql : ℕ → Text
group_info_sql company_id =
    lit "select owner_id, group_name, group_topic, is_public, (select member_count from "
      ∷ sharded "group_member_count_" company_id
    ++ lit " where group_company_id = ? and group_id = ?), head_img, update_time from "
      ∷ sharded "t_im_group_list_" company_id
    ++ lit " where company_id = ? and group_id = ?" ∷ []

abbrev pub group_info : ℕ → ℕ → ℕ → List Cell → Built
group_info company_id group_id group_type v =
    set_fields
      (("company_id", num company_id)
        ∷ ("group_id", num group_id)
        ∷ ("update_time", at v 6)
        ∷ ("group_name", at v 1)
        ∷ ("topic", at v 2)
        ∷ ("group_avatar", at v 5)
        ∷ ("group_creator_id", at v 0)
        ∷ ("group_type", num group_type)
        ∷ ("shield_status", at v 3)
        ∷ ("group_member_count", at v 4)
        ∷ [])
      end

-- What a fetch that may fail adds: one message, or nothing.
abbrev pub found : (List Cell → Built) → List Column → Option Row → List Built
found build cols none = []
found build cols (some row) = build (fill (declared cols) row) ∷ []

-- A round of get_group_info: a group of another type is passed over, and the statement is not freed
-- in front of the next init. A failing step ends the loop.
unfoldable pub group_info_round :
    {R : Type 0} → (List Built → Program R) → Request → Body R (List Built)
group_info_round stop group_item = do
  let company_id = number_of group_item "company_id"
  let group_id = number_of group_item "group_id"
  let group_type = number_of group_item "group_type"
  test (not (1 == group_type)) (pure []) (do
    listing (stop []) 0 (group_info_sql company_id)
        (num company_id ∷ num group_id ∷ num company_id ∷ num group_id ∷ []) group_info_columns
    row ← call (fetch 0)
    pure (found (group_info company_id group_id group_type) group_info_columns row))

unfoldable pub get_group_info : {R : Type 0} → Option Request → Body R (Unit {0})
unfolding group_info_round
get_group_info none = call (free 0)
get_group_info (some msg_data) = scope 0 λ leave. do
  groups ← gather (items_of msg_data "group_item_list") group_info_round []
  call (respond (rewritten 0x0404 (add_each "group_info_list" (λ b. b) groups end)))

abbrev pub member_list_columns : List Column
member_list_columns = long 4 ∷ long 4 ∷ tiny 1 ∷ tiny 1 ∷ longlong 8 ∷ string 100 ∷ []

abbrev pub member_list_item : List Cell → Built
member_list_item v =
    set_fields
      (("company_id", at v 0)
        ∷ ("member_id", at v 1)
        ∷ ("is_delete", at v 2)
        ∷ ("member_name", at v 5)
        ∷ ("member_role", at v 3)
        ∷ [])
      end

unfoldable pub get_group_members : {R : Type 0} → Option Request → Body R (Unit {0})
get_group_members none = call (free 0)
get_group_members (some msg_data) = scope 0 λ leave. do
  let dest_company_id = number_of msg_data "dest_company_id"
  let dest_group_id = field msg_data "dest_group_id"
  test (not (1 == number_of msg_data "group_type")) (λ k. leave tt) (pure tt)
  listing (leave tt) 0
      (lit "select a.user_company_id, a.user_id, a.is_delete, a.role, a.update_time, b.name from "
          ∷ sharded "t_im_group_member_" dest_company_id
        ++ lit " as a, " ∷ sharded "t_im_user_vcard_" dest_company_id
        ++ lit
            " as b where a.group_company_id = ? and a.group_id = ? and a.user_company_id = b.company_id and a.user_id = b.user_id and a.update_time > ? order by a.update_time asc limit 0, 100"
          ∷ [])
      (num dest_company_id ∷ dest_group_id ∷ field msg_data "update_time" ∷ []) member_list_columns
  n ← call (get_num_rows 0)
  rows ← call (fetch_all 0)
  call (
      respond (
        rewritten 0x0406 (
          set_fields (("company_id", num dest_company_id) ∷ ("group_id", dest_group_id) ∷ []) (
            add_timed "group_member_list" member_list_item 4
              (rounds (λ v. v) (declared member_list_columns) rows)
              (set_field "is_more_data" (is_more_data n) end)))))
