-- ===== src/Handlers/CacheTables.antt =====
-- src/handler_cache.cpp: the tables that are listed for redis, their columns, the texts of SQL
-- (runs of blanks stand as one blank) and the messages that are built of the rows.
use Prim.Native.String.{String}
use db_proxy_server.Prelude.{ℕ, Bool, true, false, List, [], ◌∷◌, ◌++◌, if◌then◌else◌, set}
use db_proxy_server.Handlers.Program.{
  Cell, num, text, lit, digits, Text, Built, end, set_field, set_fields, Column, tiny, long,
  longlong, string, at, add_cells, sharded, is_num,
}

abbrev pub is_empty : List ℕ → Bool
is_empty [] = true
is_empty (b ∷ bs) = false

abbrev pub key1 : String → ℕ → Text
key1 prefix a = lit prefix ∷ digits a ∷ []

abbrev pub key2 : String → ℕ → ℕ → Text
key2 prefix a b = lit prefix ∷ digits a ∷ lit "_" ∷ digits b ∷ []

abbrev pub user_id_columns : List Column
user_id_columns = long 4 ∷ []

abbrev pub user_id_sql : ℕ → Text
user_id_sql company_id =
    lit "select user_id from " ∷ sharded "t_im_user_vcard_" company_id
    ++ lit " where company_id = ?" ∷ []

-- CompanyUserList, of the rounds of the loop over the rows.
abbrev pub user_list : List (List Cell) → Built
user_list vars = add_cells "user_id" (λ v. at v 0) vars end

abbrev pub user_info_columns : List Column
user_info_columns =
    long 4
    ∷ long 4
    ∷ string 100
    ∷ string 100
    ∷ long 4
    ∷ string 100
    ∷ string 100
    ∷ string 100
    ∷ long 4
    ∷ long 4
    ∷ string 100
    ∷ string 25
    ∷ string 30
    ∷ string 255
    ∷ string 255
    ∷ longlong 8
    ∷ long 4
    ∷ longlong 8
    ∷ []

-- The text is shared by three handlers, one of which lists two columns more.
abbrev pub user_info_with : String → ℕ → Text
user_info_with head company_id =
    lit
        " select `node`.`node_id`,`hvnd`.`node_id` as `parent_id`,`hvnd`.`node_name`,`node`.`title`, "
      ∷ lit "`tbuser`.`work_id`,`tbuser`.`name`,`tbuser`.`english_name`,`tbuser`.`nick_name`, "
      ∷ lit "`tbuser`.`birthday`,`tbuser`.`sex`,`tbuser`.`email`,`tbuser`.`mobile`, "
      ∷ lit "`tbuser`.`tel`,`tbuser`.`sign_info`,`tbuser`.`head_img`, "
      ∷ lit head
      ∷ lit
          "from ( SELECT `node`.`node_id`,`node`.`user_id`,`node`.`title`, `node`.`lft`,`node`.`rgh`, count(1) as `depth` "
      ∷ lit "FROM `"
      ∷ sharded "t_im_org_" company_id
    ++ lit "` AS `node` left join `" ∷ sharded "t_im_org_" company_id
    ++ lit "` AS `parent` ON `parent`.`lft` <= `node`.`lft` and `node`.`rgh` <= `parent`.`rgh` "
      ∷ lit "WHERE `node`.`company_id` = ? AND `node`.`user_id` = ? "
      ∷ lit
          "GROUP BY `node`.`node_id`,`node`.`node_id`,`node`.`user_id`,`node`.`title`, `node`.`lft`,`node`.`rgh` ) AS `node`, "
      ∷ lit
          "( SELECT `node`.`node_id`, `node`.`node_name`, `node`.`lft`,`node`.`rgh`, count(1) as `depth` "
      ∷ lit "FROM `"
      ∷ sharded "t_im_org_" company_id
    ++ lit "` AS `node` left join `" ∷ sharded "t_im_org_" company_id
    ++ lit "` AS `parent` ON `parent`.`lft` <= `node`.`lft` and `node`.`rgh` <= `parent`.`rgh` "
      ∷ lit "WHERE `node`.`company_id` = ? "
      ∷ lit
          "GROUP BY `node`.`node_id`, `node`.`node_name`, `node`.`lft`,`node`.`rgh` ) AS `hvnd`, `"
      ∷ sharded "t_im_user_vcard_" company_id
    ++ lit
        "` AS `tbuser` where `hvnd`.`lft` <`node`.`lft` AND `node`.`rgh` < `hvnd`.`rgh` and `node`.`depth` = `hvnd`.`depth` + 1 AND "
      ∷ lit "`tbuser`.`company_id` = ? AND `tbuser`.`user_id` = ? order by `node`.`lft` ASC "
      ∷ []

abbrev pub user_info_sql : ℕ → Text
user_info_sql =
    user_info_with "`tbuser`.`head_update_time`,`tbuser`.`status`,`tbuser`.`update_time` "

-- UserInfo, of the variables of the columns up to status, and update_time. `pos_json` holds the text of an array of one object.
abbrev pub user_info : (List (List (String × Cell)) → List ℕ) → ℕ → Cell → List Cell → Cell → Built
user_info write_json company_id user_id v update_time =
    set_fields
      (("company_id", num company_id)
        ∷ ("user_id", user_id)
        ∷ ("work_id", at v 4)
        ∷ ("user_real_name", at v 5)
        ∷ ("user_english_name", at v 6)
        ∷ ("user_nick_name", at v 7)
        ∷ ("pos_json", text (write_json (pos_json ∷ [])))
        ∷ ("user_borndate", at v 8)
        ∷ ("user_gender", at v 9)
        ∷ ("email", at v 10)
        ∷ ("user_mobile", at v 11)
        ∷ ("user_tel", at v 12)
        ∷ ("sign_info", at v 13)
        ∷ ("avatar_url", at v 14)
        ∷ ("avatar_update_time", at v 15)
        ∷ ("status", at v 16)
        ∷ ("update_time", update_time)
        ∷ [])
      end
  where
    pos_json : List (String × Cell)
    pos_json =
        ("parent_id", at v 1)
        ∷ ("node_id", at v 0)
        ∷ ("department", at v 2)
        ∷ ("title", at v 3)
        ∷ []

abbrev pub friend_columns : List Column
friend_columns = long 4 ∷ long 4 ∷ tiny 1 ∷ tiny 1 ∷ tiny 1 ∷ string 100 ∷ longlong 8 ∷ []

abbrev pub friend_sql : ℕ → Text
friend_sql company_id =
    lit
        "select friend_company_id, friend_user_id, is_delete, is_fixtop, fix_order, remark, update_time from "
      ∷ sharded "t_im_user_friend_" company_id
    ++ lit " where company_id = ? and user_id = ?" ∷ []

abbrev pub friend_item : List Cell → Built
friend_item v =
    set_fields
      (("company_id", at v 0)
        ∷ ("user_id", at v 1)
        ∷ ("is_delete", at v 2)
        ∷ ("is_fixtop", at v 3)
        ∷ ("fix_order", at v 4)
        ∷ ("remark", at v 5)
        ∷ ("update_time", at v 6)
        ∷ [])
      end

abbrev pub group_columns : List Column
group_columns = long 4 ∷ long 4 ∷ tiny 1 ∷ tiny 1 ∷ tiny 1 ∷ tiny 1 ∷ string 100 ∷ longlong 8 ∷ []

abbrev pub group_sql : ℕ → Text
group_sql company_id =
    lit
        "select friend_company_id, friend_group_id, is_delete, group_type, is_fixtop, fix_order, remark, update_time from "
      ∷ sharded "t_im_user_group_" company_id
    ++ lit " where company_id = ? and user_id = ?" ∷ []

-- GROUP_TYPE_NORMAL 1, GROUP_TYPE_TMP 2 and GROUP_TYPE_ORG 3: another value sets no type.
abbrev pub group_type : Cell → Built → Built
group_type v rest =
    if is_num 1 v
    then set_field "group_type" (num 1) rest
    else if is_num 2 v
    then set_field "group_type" (num 2) rest
    else if is_num 3 v
    then set_field "group_type" (num 3) rest
    else rest

abbrev pub group_item : List Cell → Built
group_item v = set_fields (("company_id", at v 0) ∷ ("group_id", at v 1) ∷ []) (
    group_type (at v 3) (
      set_fields
        (("is_fixtop", at v 4)
          ∷ ("fix_order", at v 5)
          ∷ ("remark", at v 6)
          ∷ ("update_time", at v 7)
          ∷ ("is_delete", at v 2)
          ∷ [])
        end))

-- memset(remark, 0, 100) at the end of a round.
abbrev pub clear_remark : ℕ → List Cell → List Cell
clear_remark i v = set v i (text [])

abbrev pub member_columns : List Column
member_columns = long 4 ∷ long 4 ∷ tiny 1 ∷ string 100 ∷ tiny 1 ∷ longlong 8 ∷ []

abbrev pub member_sql : ℕ → Text
member_sql company_id =
    lit "select user_company_id, user_id, is_delete, user_remark, role, update_time from "
      ∷ sharded "t_im_group_member_" company_id
    ++ lit " where group_company_id = ? and group_id = ?" ∷ []

abbrev pub member_item : List Cell → Built
member_item v =
    set_fields
      (("company_id", at v 0)
        ∷ ("member_id", at v 1)
        ∷ ("is_delete", at v 2)
        ∷ ("member_remark", at v 3)
        ∷ ("member_role", at v 4)
        ∷ ("update_time", at v 5)
        ∷ [])
      end

abbrev pub org_columns : List Column
org_columns = long 4 ∷ long 4 ∷ long 4 ∷ long 4 ∷ long 4 ∷ []

abbrev pub org_sql : ℕ → Text
org_sql company_id =
    lit "select node_id, user_id, lft, rgh, node_type from " ∷ sharded "t_im_org_" company_id
    ++ lit " where company_id = ? order by lft asc" ∷ []

-- A node has the id of its node or of its user by its type, and none for a third type.
abbrev pub org_id : List Cell → Built → Built
org_id v rest =
    if is_num 0 (at v 4)
    then set_field "id" (at v 0) rest
    else if is_num 1 (at v 4)
    then set_field "id" (at v 1) rest
    else rest

abbrev pub org_node : List Cell → Built
org_node v =
    org_id v (set_fields (("lvalue", at v 2) ∷ ("rvalue", at v 3) ∷ ("type", at v 4) ∷ []) end)
