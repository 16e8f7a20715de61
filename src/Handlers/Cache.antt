-- ===== src/Handlers/Cache.antt =====
-- src/handler_cache.cpp: the functions that put a listing of MySQL into redis. `redis` is false for
-- NULL. Their statement has the number 2, those of the handlers 0 and 1.
use db_proxy_server.Prelude.{ℕ, zero, suc, ◌==◌, Option, none, some, Bool, [], ◌∷◌, if◌then◌else◌}
use db_proxy_server.Handlers.Program.{
  num, text, Text, Built, end, set_fields, Request, number_of, text_of, items_of, rewritten,
  fetch_all, set_redis, respond, Body, ◌>>=◌, ◌>>◌, pure, call, test, fetch_or, scope, fill, rounds,
  declared, at, add_each, add_cells, Formats, listing,
}
use db_proxy_server.Handlers.CacheTables.{
  is_empty, key1, key2, user_id_columns, user_id_sql, user_list, user_info_columns, user_info_sql,
  user_info, friend_columns, friend_sql, friend_item, group_columns, group_sql, group_item,
  clear_remark, member_columns, member_sql, member_item, org_columns, org_sql, org_node,
}

module _ (formats : Formats) (redis : Bool) where
  open formats use {serialize, write_json}

  -- The end of each block: an empty value is set all the same, with `ret` 1.
  unfoldable pub save : {R : Type 0} → Text → Built → Body R ℕ
  save key built = do
    let value = serialize built
    test redis (do call (set_redis key value); pure (if is_empty value then 1 else 0)) (pure 1)

  unfoldable pub redis_user_id : {R : Type 0} → ℕ → Body R ℕ
  unfolding save
  redis_user_id company_id = scope 2 λ leave. do
    listing (leave 1) 2 (user_id_sql company_id) (num company_id ∷ []) user_id_columns
    rows ← call (fetch_all 2)
    save (key1 "cul_" company_id) (user_list (rounds (λ v. v) (declared user_id_columns) rows))

  -- A fetch that fails leaves the block with `ret` 0.
  unfoldable pub redis_user_info : {R : Type 0} → ℕ → ℕ → Body R ℕ
  unfolding save
  redis_user_info company_id user_id = scope 2 λ leave. do
    listing (leave 1) 2 (user_info_sql company_id)
        (num company_id ∷ num user_id ∷ num company_id ∷ num company_id ∷ num user_id ∷ [])
        user_info_columns
    row ← fetch_or (leave 0) 2
    save (key2 "ui_" company_id user_id) (
        let v = fill (declared user_info_columns) row in
        user_info write_json company_id (num user_id) v (at v 17))

  unfoldable pub redis_user_friend_list : {R : Type 0} → ℕ → ℕ → Body R ℕ
  unfolding save
  redis_user_friend_list company_id user_id = scope 2 λ leave. do
    listing (leave 1) 2 (friend_sql company_id) (num company_id ∷ num user_id ∷ []) friend_columns
    rows ← call (fetch_all 2)
    save (key2 "uf_" company_id user_id)
        (add_each "friend_list" friend_item (rounds (λ v. v) (declared friend_columns) rows) end)

  unfoldable pub redis_user_group_list : {R : Type 0} → ℕ → ℕ → Body R ℕ
  unfolding save
  redis_user_group_list company_id user_id = scope 2 λ leave. do
    listing (leave 1) 2 (group_sql company_id) (num company_id ∷ num user_id ∷ []) group_columns
    rows ← call (fetch_all 2)
    save (key2 "ugl_" company_id user_id) (
        add_each "group_list" group_item (rounds (clear_remark 6) (declared group_columns) rows)
          end)

  unfoldable pub redis_group_member_list : {R : Type 0} → ℕ → ℕ → Body R ℕ
  unfolding save
  redis_group_member_list company_id group_id = scope 2 λ leave. do
    listing (leave 1) 2 (member_sql company_id) (num company_id ∷ num group_id ∷ []) member_columns
    rows ← call (fetch_all 2)
    save (key2 "gml_" company_id group_id) (
        add_each "member_list" member_item (rounds (clear_remark 3) (declared member_columns) rows)
          end)

  unfoldable pub redis_org_tree : {R : Type 0} → ℕ → Body R ℕ
  unfolding save
  redis_org_tree company_id = scope 2 λ leave. do
    listing (leave 1) 2 (org_sql company_id) (num company_id ∷ []) org_columns
    rows ← call (fetch_all 2)
    save (key1 "org_" company_id)
        (add_each "org_node_list" org_node (rounds (λ v. v) (declared org_columns) rows) end)

  -- The handlers. A message that does not parse ends one with nothing done. DB_UPDATE_DATA_SUCCESS
  -- is 1 and DB_UPDATE_DATA_FAIL is 3.
  unfoldable pub update_result : ℕ → ℕ
  update_result zero = 1
  update_result (suc ret) = 3

  abbrev pub attach : Request → Built
  attach msg_data =
      add_cells "attach_data" (λ r. text (text_of r "")) (items_of msg_data "attach_data") end

  unfoldable pub update_user_id : {R : Type 0} → Option Request → Body R (Unit {0})
  unfolding update_result
  update_user_id none = pure tt
  update_user_id (some msg_data) = do
    let company_id = number_of msg_data "company_id"
    ret ← redis_user_id company_id
    call (
        respond (
          rewritten 0x090e (
            set_fields
              (("update_ret", num (update_result ret))
                ∷ ("company_id", num company_id)
                ∷ ("opt_id", num (number_of msg_data "opt_id"))
                ∷ [])
              (attach msg_data))))

  unfoldable pub update_user_info : {R : Type 0} → Option Request → Body R (Unit {0})
  unfolding update_result
  update_user_info none = pure tt
  update_user_info (some msg_data) = do
    let company_id = number_of msg_data "company_id"
    let user_id = number_of msg_data "user_id"
    ret ← redis_user_info company_id user_id
    call (
        respond (
          rewritten 0x0904 (
            set_fields
              (("update_ret", num (update_result ret))
                ∷ ("company_id", num company_id)
                ∷ ("user_id", num user_id)
                ∷ ("opt_id", num (number_of msg_data "opt_id"))
                ∷ [])
              end)))

  unfoldable pub update_user_friend_list : {R : Type 0} → Option Request → Body R (Unit {0})
  unfolding update_result
  update_user_friend_list none = pure tt
  update_user_friend_list (some msg_data) = do
    let company_id = number_of msg_data "company_id"
    let user_id = number_of msg_data "user_id"
    ret ← redis_user_friend_list company_id user_id
    call (
        respond (
          rewritten 0x0906 (
            set_fields
              (("company_id", num company_id)
                ∷ ("user_id", num user_id)
                ∷ ("update_ret", num (update_result ret))
                ∷ ("opt_id", num (number_of msg_data "opt_id"))
                ∷ [])
              (attach msg_data))))

  unfoldable pub update_user_group_list : {R : Type 0} → Option Request → Body R (Unit {0})
  unfolding update_result
  update_user_group_list none = pure tt
  update_user_group_list (some msg_data) = do
    let company_id = number_of msg_data "company_id"
    let user_id = number_of msg_data "user_id"
    ret ← redis_user_group_list company_id user_id
    call (
        respond (
          rewritten 0x090a (
            set_fields
              (("company_id", num company_id)
                ∷ ("user_id", num user_id)
                ∷ ("update_ret", num (update_result ret))
                ∷ ("opt_id", num (number_of msg_data "opt_id"))
                ∷ [])
              (attach msg_data))))

  -- Only opt_id 1 lists the members: `result` stays at failure for any other.
  unfoldable pub update_group_member_list : {R : Type 0} → Option Request → Body R (Unit {0})
  unfolding update_result
  update_group_member_list none = pure tt
  update_group_member_list (some msg_data) = do
    let company_id = number_of msg_data "company_id"
    let group_id = number_of msg_data "group_id"
    let opt_id = number_of msg_data "opt_id"
    result ←
        test (1 == opt_id)
          (do ret ← redis_group_member_list company_id group_id; pure (update_result ret)) (pure 3)
    call (
        respond (
          rewritten 0x090c (
            set_fields
              (("company_id", num company_id)
                ∷ ("group_id", num group_id)
                ∷ ("update_ret", num result)
                ∷ ("opt_id", num opt_id)
                ∷ [])
              (attach msg_data))))

  unfoldable pub update_org_tree : {R : Type 0} → Option Request → Body R (Unit {0})
  unfolding update_result
  update_org_tree none = pure tt
  update_org_tree (some msg_data) = do
    let company_id = number_of msg_data "company_id"
    ret ← redis_org_tree company_id
    call (
        respond (
          rewritten 0x0912 (
            set_fields
              (("update_ret", num (update_result ret)) ∷ ("company_id", num company_id) ∷ [])
              (attach msg_data))))
