-- ===== src/Handlers/GroupMembers.antt =====
-- src/handler_group.cpp: the handlers that create and dissolve a group and change its members. A
-- handler is given the parsed message, none when it does not parse.
use db_proxy_server.Prelude.{
  ℕ, ◌==◌, Bool, not, Option, none, some, List, [], ◌∷◌, ◌++◌, if◌then◌else◌,
}
use db_proxy_server.Handlers.Program.{
  Cell, num, lit, Text, Built, end, set_field, set_fields, add_message, Request, number_of, item_of,
  items_of, rewritten, Column, long, init, bind, execute, fetch_all, free, respond, now, Program,
  Body, ◌>>=◌, ◌>>◌, pure, call, test, unless, scope, each, bind_all, bind_from, rounds, declared,
  at, add_each, Formats, listing, field, text_field, value_of, sharded,
}
use db_proxy_server.Handlers.Cache.{redis_user_group_list, redis_group_member_list}

abbrev pub members_sql : ℕ → Text
members_sql company_id =
    lit "select user_company_id, user_id from " ∷ sharded "t_im_group_member_" company_id
    ++ lit " where group_company_id = ? and group_id = ?" ∷ []

abbrev pub members_columns : List Column
members_columns = long 4 ∷ long 4 ∷ []

abbrev pub member_id : List Cell → Built
member_id v = set_fields (("company_id", at v 0) ∷ ("user_id", at v 1) ∷ []) end

abbrev pub result_of : Bool → ℕ
result_of ok = if ok then 1 else 2

module _ (formats : Formats) (redis : Bool) where
  -- A member of a new group, with the statement that was prepared in front of the loop.
  unfoldable pub create_member : {R : Type 0} → ℕ → ℕ → Program R → Request → Body R (Unit {0})
  create_member company_id group_id out member = do
    let member_company_id = number_of member "company_id"
    let member_user_id = number_of member "user_id"
    bind_all 0
        (num company_id ∷ num group_id ∷ num member_company_id ∷ num member_user_id ∷ num 2 ∷ [])
    update_time ← call now
    bind_from 0 5 (num update_time ∷ num update_time ∷ [])
    _ ← call (execute 0)
    _ ← redis_user_group_list formats redis member_company_id member_user_id
    pure tt

  unfoldable pub set_group_create : {R : Type 0} → Option Request → Body R (Unit {0})
  unfolding create_member
  set_group_create none = call (free 0)
  set_group_create (some msg_data) = scope 0 λ leave. do
    let owner_id = number_of msg_data "user_id"
    test (not (1 == number_of msg_data "group_type")) (λ k. leave tt) (pure tt)
    unless (leave tt) (call (init 0 (lit "call create_group(?, ?, ?, ?, ?, ?, ?, ?, ?)" ∷ [])))
    let company_id = number_of msg_data "company_id"
    let group_id = number_of msg_data "group_id"
    bind_all 0 (
        num company_id
        ∷ num group_id
        ∷ num owner_id
        ∷ text_field msg_data "group_name"
        ∷ text_field msg_data "topic"
        ∷ text_field msg_data "group_avatar"
        ∷ [])
    update_time ← call now
    bind_from 0 6 (num update_time ∷ num update_time ∷ num update_time ∷ [])
    ok ← call (execute 0)
    _ ← redis_user_group_list formats redis company_id owner_id
    call (free 0)
    unless (leave tt) (call (init 0 (lit "call group_member_add(?, ?, ?, ?, ?, ?, ?)" ∷ [])))
    each (items_of msg_data "member_id_list") (create_member company_id group_id)
    call (free 0)
    call (free 0)
    listing (leave tt) 0 (members_sql company_id) (num company_id ∷ num group_id ∷ [])
        members_columns
    rows ← call (fetch_all 0)
    call (
        respond (
          rewritten 0x0408 (
            set_fields
              (("result_code", num (result_of ok))
                ∷ ("company_id", num company_id)
                ∷ ("user_id", num owner_id)
                ∷ ("group_id", num group_id)
                ∷ ("group_type", field msg_data "group_type")
                ∷ ("memberlist_update_time", num update_time)
                ∷ [])
              (add_each "member_id_list" member_id (rounds (λ v. v) (declared members_columns) rows)
                end))))
    _ ← redis_group_member_list formats redis company_id group_id
    pure tt

  -- A row of the members of a group that was dissolved.
  unfoldable pub dissolved_member : {R : Type 0} → Program R → List Cell → Body R (Unit {0})
  dissolved_member out v = do
    _ ← redis_user_group_list formats redis (value_of (at v 0)) (value_of (at v 1))
    pure tt

  unfoldable pub set_group_dissolve : {R : Type 0} → Option Request → Body R (Unit {0})
  unfolding dissolved_member
  set_group_dissolve none = call (free 0)
  set_group_dissolve (some msg_data) = scope 0 λ leave. do
    let group_id = number_of msg_data "group_id"
    test (not (1 == number_of msg_data "group_type")) (λ k. leave tt) (pure tt)
    unless (leave tt) (call (init 0 (lit "call dissolve_group(?, ?, ?)" ∷ [])))
    let company_id = number_of msg_data "company_id"
    bind_all 0 (num company_id ∷ num group_id ∷ [])
    update_time ← call now
    call (bind 0 2 (num update_time))
    ok ← call (execute 0)
    call (
        respond (
          rewritten 0x040a (
            set_fields
              (("result_code", num (result_of ok))
                ∷ ("company_id", num company_id)
                ∷ ("group_id", num group_id)
                ∷ ("group_type", field msg_data "group_type")
                ∷ [])
              end)))
    _ ← redis_group_member_list formats redis company_id group_id
    call (free 0)
    listing (leave tt) 0 (members_sql company_id) (num company_id ∷ num group_id ∷ [])
        members_columns
    rows ← call (fetch_all 0)
    each (rounds (λ v. v) (declared members_columns) rows) dissolved_member

  abbrev pub member_cells : Request → List Cell
  member_cells member = field member "company_id" ∷ field member "user_id" ∷ []

  -- The loops of set_group_change, with the last value of `ret_temp`, none when it has no value.
  unfoldable pub change_members :
      {R : Type 0} → (ℕ → List Cell) → ℕ → List Request → Option Bool → Body R (Option Bool)
  change_members times i [] ret_temp = pure ret_temp
  change_members times i (member ∷ members) ret_temp = do
    bind_from 0 2 (member_cells member)
    update_time ← call now
    bind_from 0 i (times update_time)
    ok ← call (execute 0)
    _ ←
        redis_user_group_list formats redis (number_of member "company_id")
          (number_of member "user_id")
    change_members times i members (some ok)

  -- GROUP_MEMBER_OPT_ADD is 1 and GROUP_MEMBER_OPT_DEL is 2. A third type changes nothing.
  unfoldable pub change_group :
      {R : Type 0} → (Unit {0} → Program R) → ℕ → Cell → Cell → List Request → Body R (Option Bool)
  unfolding change_members
  change_group leave change_type group_company_id group_id members = do
    test (1 == change_type)
        (do
          unless (leave tt) (call (init 0 (lit "call group_member_add(?, ?, ?, ?, ?, ?, ?)" ∷ [])))
          bind_all 0 (group_company_id ∷ group_id ∷ [])
          call (bind 0 4 (num 2))
          change_members (λ t. num t ∷ num t ∷ []) 5 members none)
        (test (2 == change_type)
          (do
            unless (leave tt) (call (init 0 (lit "call exit_group(?, ?, ?, ?, ?)" ∷ [])))
            bind_all 0 (group_company_id ∷ group_id ∷ [])
            change_members (λ t. num t ∷ []) 4 members none)
          (pure none))

  -- `ret_temp` without a value is told from 0 and from 1.
  abbrev pub result_field : Option Bool → Built → Built
  result_field none rest = rest
  result_field (some ok) rest = set_field "result_code" (num (result_of ok)) rest

  abbrev pub changed_member : Request → Built
  changed_member r =
      set_fields (("company_id", field r "company_id") ∷ ("user_id", field r "user_id") ∷ []) end

  -- The response of set_group_change, and the list of members in redis.
  unfoldable pub answer_change : {R : Type 0} → Request → Option Bool → Body R (Unit {0})
  answer_change msg_data ret_temp = do
    let group_item = item_of msg_data "group_item_info" 0
    let group_company_id = number_of group_item "company_id"
    let group_id = number_of group_item "group_id"
    let members = items_of msg_data "member_id_list"
    call (
        respond (
          rewritten 0x040d (
            set_fields
              (("user_id", field msg_data "user_id")
                ∷ ("change_type", field msg_data "change_type")
                ∷ [])
              (result_field ret_temp (
                add_message "group_item_info"
                  (set_fields
                    (("company_id", num group_company_id)
                      ∷ ("group_id", num group_id)
                      ∷ ("group_type", field group_item "group_type")
                      ∷ ("update_time", field group_item "update_time")
                      ∷ [])
                    end)
                  (add_each "chg_user_id_list" changed_member members end))))))
    _ ← redis_group_member_list formats redis group_company_id group_id
    pure tt

  unfoldable pub set_group_change : {R : Type 0} → Option Request → Body R (Unit {0})
  unfolding change_group answer_change
  set_group_change none = call (free 0)
  set_group_change (some msg_data) = scope 0 λ leave. do
    let group_item = item_of msg_data "group_item_info" 0
    ret_temp ←
        change_group leave (number_of msg_data "change_type") (field group_item "company_id")
          (field group_item "group_id") (items_of msg_data "member_id_list")
    answer_change msg_data ret_temp
