-- ===== src/Handlers/ServerQueries.antt =====
-- src/handler_server.cpp: the handlers that ask MySQL for the server (login, password, configuration
-- and roles). A handler is given the parsed message, none when it does not parse.
use db_proxy_server.Prelude.{
  ℕ, ◌==◌, Bool, true, false, ◌&&◌, Option, none, some, List, [], ◌∷◌, ◌++◌, if◌then◌else◌, take,
  length,
}
use db_proxy_server.Handlers.Program.{
  Cell, num, text, unset, lit, Text, Built, end, set_field, set_fields, add_message, Request,
  number_of, text_of, rewritten, Column, long, longlong, string, fetch_all, free, respond, Row,
  Program, command, Body, ◌>>=◌, ◌>>◌, pure, call, test, fetch_or, scope, gather, fill, rounds,
  declared, at, add_each, Formats, attempt, listing, field, text_field, sharded, is_num,
}
use db_proxy_server.Handlers.CacheTables.{user_info_with, user_info, user_info_columns}

-- The bytes in front of the first 0, of an array of char or of c_str().
abbrev pub c_bytes : List ℕ → List ℕ
c_bytes [] = []
c_bytes (b ∷ bs) = let rest = c_bytes bs in if b == 0 then [] else b ∷ rest

abbrev pub bytes_eq : List ℕ → List ℕ → Bool
bytes_eq [] [] = true
bytes_eq [] (c ∷ cs) = false
bytes_eq (b ∷ bs) [] = false
bytes_eq (b ∷ bs) (c ∷ cs) = (b == c) && bytes_eq bs cs

abbrev pub bytes_of : Cell → List ℕ
bytes_of (text t) = t
bytes_of (num n) = []
bytes_of unset = []

-- `0 == strcmp(a, b)` and `0 == strncmp(a, b, n)`.
unfoldable pub strcmp_eq : List ℕ → List ℕ → Bool
strcmp_eq a b = bytes_eq (c_bytes a) (c_bytes b)

unfoldable pub strncmp_eq : List ℕ → List ℕ → ℕ → Bool
strncmp_eq a b n = bytes_eq (take n (c_bytes a ++ 0 ∷ [])) (take n (c_bytes b ++ 0 ∷ []))

-- The two columns that the login lists between `status` and `update_time`.
abbrev pub login_info_sql : ℕ → Text
login_info_sql =
    user_info_with
      "`tbuser`.`head_update_time`,`tbuser`.`status`,`tbuser`.`pc_offline_time`,`tbuser`.`mobile_offline_time`,`tbuser`.`update_time` "

abbrev pub login_info_columns : List Column
login_info_columns = take 17 user_info_columns ++ longlong 8 ∷ longlong 8 ∷ longlong 8 ∷ []

-- RESULT_LOGIN_SUCCESSED 1 and RESULT_LOGIN_USER_OR_PWS_ERROR 2.
abbrev pub result_code : ℕ → Built → Built
result_code n rest = set_field "result_code" (num n) rest

module _ (formats : Formats) where
  open formats use {write_json}

  -- get_login_result behind a password that is right: the listings of user_id and of the user, with a
  -- statement of their own.
  unfoldable pub login_user : {R : Type 0} → (Unit {0} → Program R) → ℕ → Cell → Body R Built
  login_user leave company_id name = do
    let out = command (free 1) (λ _. leave tt)
    listing out 1
        (lit "select user_id from " ∷ sharded "t_im_user_vcard_" company_id
          ++ lit " where company_id = ? and user_name = ? " ∷ [])
        (num company_id ∷ name ∷ []) (long 4 ∷ [])
    row ← fetch_or out 1
    let user_id = at (fill (unset ∷ []) row) 0
    call (free 1)
    listing out 1 (login_info_sql company_id)
        (num company_id ∷ user_id ∷ num company_id ∷ num company_id ∷ user_id ∷ [])
        login_info_columns
    row ← fetch_or out 1
    let v = fill (declared login_info_columns) row
    call (free 1)
    pure (
        result_code 1 (
          set_fields (("pc_last_offline_time", at v 17) ∷ ("phone_last_offline_time", at v 18) ∷ [])
            (add_message "user_info" (user_info write_json company_id user_id v (at v 19)) end)))

  -- The number of users with the name was 1.
  unfoldable pub login_password : {R : Type 0} → (Unit {0} → Program R) → ℕ → Request → Body R Built
  unfolding login_user strcmp_eq
  login_password leave company_id msg_data = do
    let name = text_field msg_data "user_name"
    call (free 0)
    listing (leave tt) 0
        (lit "select user_pwd from " ∷ sharded "t_im_user_vcard_" company_id
          ++ lit " where company_id = ? and user_name = ?" ∷ [])
        (num company_id ∷ name ∷ []) (string 64 ∷ [])
    row ← fetch_or (leave tt) 0
    let user_pwd = bytes_of (at (fill (text [] ∷ []) row) 0)
    test (strcmp_eq user_pwd (text_of msg_data "password")) (login_user leave company_id name)
        (pure (result_code 2 end))

  unfoldable pub get_login_result : {R : Type 0} → Option Request → Body R (Unit {0})
  unfolding login_password
  get_login_result none = call (free 0)
  get_login_result (some msg_data) = scope 0 λ leave. do
    let company_id = number_of msg_data "company_id"
    let name = text_field msg_data "user_name"
    listing (leave tt) 0
        (lit "select count(*) from " ∷ sharded "t_im_user_vcard_" company_id
          ++ lit " where company_id = ? and user_name = ? and status != 3" ∷ [])
        (num company_id ∷ name ∷ []) (long 4 ∷ [])
    row ← fetch_or (leave tt) 0
    let count = at (fill (unset ∷ []) row) 0
    rest ←
        test (is_num 0 count) (pure (result_code 2 end))
          (test (is_num 1 count) (login_password leave company_id msg_data) (pure end))
    call (
        respond (
          rewritten 0x071c (
            set_fields
              (("company_id", num company_id)
                ∷ ("user_name", name)
                ∷ ("password", text_field msg_data "password")
                ∷ ("client_type", field msg_data "client_type")
                ∷ ("online_status", field msg_data "online_status")
                ∷ [])
              rest)))

-- What a fetch makes of `length`: the length of the value, and NULL leaves it.
abbrev pub length_after : ℕ → Row → ℕ
length_after n [] = n
length_after n (none ∷ row) = n
length_after n (some v ∷ row) = length (bytes_of v)

-- OPT_RESULT_SUCCESS 1 and OPT_RESULT_FAIL 2.
unfoldable pub set_modify_pwd : {R : Type 0} → Option Request → Body R (Unit {0})
unfolding strncmp_eq
set_modify_pwd none = call (free 0)
set_modify_pwd (some msg_data) = scope 0 λ leave. do
  let company_id = number_of msg_data "company_id"
  let user_id = field msg_data "user_id"
  listing (leave tt) 0
      (lit "select user_pwd from " ∷ sharded "t_im_user_vcard_" company_id
        ++ lit " where company_id = ? and user_id = ?" ∷ [])
      (num company_id ∷ user_id ∷ []) (string 64 ∷ [])
  row ← fetch_or (leave tt) 0
  let user_pwd = bytes_of (at (fill (text [] ∷ []) row) 0)
  result ←
      test (strncmp_eq user_pwd (text_of msg_data "old_pswd") (length_after 64 row))
        (do
          call (free 0)
          _ ←
              attempt (leave tt) 0
                (lit "update " ∷ sharded "t_im_user_vcard_" company_id
                  ++ lit " set user_pwd = ? where company_id = ? and user_id = ?" ∷ [])
                (text_field msg_data "new_pswd" ∷ num company_id ∷ user_id ∷ [])
          pure 1)
        (pure 2)
  call (
      respond (
        rewritten 0x0728 (
          set_fields
            (("company_id", num company_id)
              ∷ ("user_id", user_id)
              ∷ ("result_code", num result)
              ∷ [])
            end)))

-- The columns are arrays of `new char[8 * 1024]`, without a value at first.
unfoldable pub get_buddy_config : {R : Type 0} → Option Request → Body R (Unit {0})
get_buddy_config none = call (free 0)
get_buddy_config (some msg_data) = scope 0 λ leave. do
  let company_id = field msg_data "company_id"
  let user_id = field msg_data "user_id"
  listing (leave tt) 0 (lit "select data from t_im_company_config where company_id = ?" ∷ [])
      (company_id ∷ []) (string 8192 ∷ [])
  row ← fetch_or (leave tt) 0
  let company_data_blob = at (fill (unset ∷ []) row) 0
  call (free 0)
  listing (leave tt) 0
      (lit "select data from t_im_user_config where company_id = ? and user_id = ?" ∷ [])
      (company_id ∷ user_id ∷ []) (string 8192 ∷ [])
  row ← fetch_or (leave tt) 0
  let user_data_blob = at (fill (unset ∷ []) row) 0
  call (
      respond (
        rewritten 0x071a (
          set_fields
            (("company_id", company_id)
              ∷ ("user_id", user_id)
              ∷ ("company_config", company_data_blob)
              ∷ ("user_config", user_data_blob)
              ∷ [])
            end)))

abbrev pub authority_columns : List Column
authority_columns =
    string 200 ∷ long 4 ∷ string 100 ∷ string 100 ∷ string 100 ∷ string 100 ∷ string 100 ∷ []

-- IMUserRole, of the rounds of the inner loop.
abbrev pub role_rounds : List (List Cell) → Built
role_rounds [] = end
role_rounds (v ∷ vs) = set_field "role_name" (at v 0) (
    add_message "authority"
      (set_fields
        (("auth_id", at v 1)
          ∷ ("auth_value", at v 2)
          ∷ ("ext_value1", at v 3)
          ∷ ("ext_value2", at v 4)
          ∷ ("ext_value3", at v 5)
          ∷ ("ext_value4", at v 6)
          ∷ [])
        end)
      (role_rounds vs))

abbrev pub role_item : Cell → List (List Cell) → Built
role_item role_id vs = set_field "role_id" role_id (role_rounds vs)

-- A round of the loop over the roles, with a statement of its own. A break ends the loop behind the
-- role that was added.
unfoldable pub role_authorities :
    {R : Type 0} → ℕ → (List Built → Program R) → List Cell → Body R (List Built)
role_authorities company_id stop role = do
  let role_id = at role 0
  let out = command (free 1) (λ _. stop (role_item role_id [] ∷ []))
  listing out 1
      (lit
            "select b.role_name, c.auth_id, c.auth_value, c.ext_value1, c.ext_value2, c.ext_value3, c.ext_value4 from "
          ∷ sharded "t_ids_role_dict_" company_id
        ++ lit " as b, " ∷ sharded "t_ids_authority_value_" company_id
        ++ lit
            " as c where b.company_id = ? and b.role_id = ? and c.company_id = b.company_id and c.role_id = b.role_id"
          ∷ [])
      (num company_id ∷ role_id ∷ []) authority_columns
  rows ← call (fetch_all 1)
  call (free 1)
  pure (role_item role_id (rounds (λ v. v) (declared authority_columns) rows) ∷ [])

unfoldable pub get_user_role : {R : Type 0} → Option Request → Body R (Unit {0})
unfolding role_authorities
get_user_role none = call (free 0)
get_user_role (some msg_data) = scope 0 λ leave. do
  let company_id = number_of msg_data "company_id"
  listing (leave tt) 0
      (lit "select role_id from " ∷ sharded "t_ids_user_role_" company_id
        ++ lit " where company_id = ? and user_id = ?" ∷ [])
      (num company_id ∷ field msg_data "user_id" ∷ []) (long 4 ∷ [])
  rows ← call (fetch_all 0)
  roles ← gather (rounds (λ v. v) (unset ∷ []) rows) (role_authorities company_id) []
  call (respond (rewritten 0x072c (add_each "role" (λ b. b) roles end)))
