-- ===== src/Handlers/MessageCounts.antt =====
-- src/handler_msg.cpp: get_offline_msg_cnt and get_group_offline_msg_cnt. A handler is given the parsed
-- message, none when it does not parse, which the first of them finds out behind its init. Runs of
-- blanks in a text of SQL stand as one blank.
use db_proxy_server.Prelude.{
  ℕ, if◌then◌else◌, leb, true, false, Option, none, some, List, [], ◌∷◌, ◌++◌,
}
use db_proxy_server.Handlers.Program.{
  num, number_of, value_of, sharded, is_num, listing, longlong, Cell, unset, lit, Text, Built, end,
  set_field, add_parsed, Request, rewritten, long, string, init, bind, query, get_result, fetch,
  fetch_all, free, column, respond, Program, command, Body, ◌>>=◌, ◌>>◌, call, unless, scope,
  bind_all, columns, fill, rounds, at, add_each, attempt, field,
}
use db_proxy_server.Handlers.MessageQueries.{blob_bytes}

abbrev pub count_sql : Text
count_sql =
    lit
      "select count(*) as cnt, msg_id from (select * from t_im_chat_offline_msg where to_company_id = ? and to_user_id = ? order by create_time desc) as test group by from_company_id, from_user_id"
    ∷ []

abbrev pub count_item : Cell → Cell → Built
count_item cnt blob = set_field "msg_cnt" cnt (add_parsed "lastest_msg_data" (blob_bytes blob) end)

-- The loop over the senders, whose rounds ask for the last message with a statement that was prepared in
-- front of the loop. A break ends it. `blob` is what msg_blob has of the round before.
unfoldable pub count_senders :
    {R : Type 0} → List (List Cell) → Cell → List Built → (List Built → Program R) → Program R
count_senders [] blob built k = k built
count_senders (v ∷ vs) blob built k = command (bind 1 0 (at v 1)) λ _. command (query 1) λ asked.
    elim asked [
      | false ↦ k built
      | true ↦ command (column 1 0 (string 8192)) λ _. command (get_result 1) λ stored.
          elim stored [
            | false ↦ k built
            | true ↦ command (fetch 1) λ row. elim row [
              | none ↦ count_senders vs blob built k
              | some r ↦
                  let now_held = at (fill (blob ∷ []) r) 0 in
                  count_senders vs now_held (built ++ (count_item (at v 0) now_held ∷ [])) k
            ]
          ]
    ]

-- Behind the parse.
unfoldable pub count_offline : {R : Type 0} → (Unit {0} → Program R) → Request → Body R (Unit {0})
unfolding count_senders
count_offline leave msg_data = do
  let to_company_id = field msg_data "from_company_id"
  let to_user_id = field msg_data "from_user_id"
  bind_all 0 (to_company_id ∷ to_user_id ∷ [])
  unless (leave tt) (call (query 0))
  columns 0 (long 4 ∷ string 32 ∷ [])
  unless (leave tt) (call (get_result 0))
  scope 1 λ out. do
    unless (out tt) (call (init 1 (lit "select msg_data from t_im_chat_msg where msg_id = ?" ∷ [])))
    rows ← call (fetch_all 0)
    infos ← count_senders (rounds (λ v. v) (unset ∷ unset ∷ []) rows) unset []
    call (free 0)
    _ ←
        attempt (out tt) 0
          (lit "delete from t_im_chat_offline_msg where to_company_id = ? and to_user_id = ?" ∷ [])
          (to_company_id ∷ to_user_id ∷ [])
    call (respond (rewritten 0x030b (add_each "offline_msg_list" (λ b. b) infos end)))

unfoldable pub get_offline_msg_cnt : {R : Type 0} → Option Request → Body R (Unit {0})
unfolding count_offline
get_offline_msg_cnt msg = scope 0 λ leave. do
  unless (leave tt) (call (init 0 count_sql))
  λ k. elim msg [ none ↦ leave tt | some msg_data ↦ count_offline leave msg_data k ]

-- The two texts of get_group_offline_msg_cnt that ask for the groups and for the organisations, and the
-- one that both loops prepare.
abbrev pub groups_sql : ℕ → Text
groups_sql to_company_id =
    lit "select friend_company_id, friend_group_id, (select pc_offline_time from "
      ∷ sharded "t_im_user_vcard_" to_company_id
    ++ lit " where company_id = ? and user_id = ?), (select mobile_offline_time from "
      ∷ sharded "t_im_user_vcard_" to_company_id
    ++ lit " where company_id = ? and user_id = ?) from " ∷ sharded "t_im_user_group_" to_company_id
    ++ lit " where company_id = ? and user_id = ? and is_delete = 0" ∷ []

abbrev pub orgs_sql : ℕ → Text
orgs_sql to_company_id =
    lit "select p.node_id from " ∷ sharded "t_im_org_" to_company_id
    ++ lit " as p, " ∷ sharded "t_im_org_" to_company_id
    ++ lit
        " as n where n.lft between p.lft and p.rgh and n.company_id = ? and n.user_id = ? and p.node_type = 0 and p.node_id != 0"
      ∷ []

abbrev pub group_count_sql : Text
group_count_sql =
    lit
      "select count(1) as cnt, msg_data from (select msg_data from t_im_group_msg where to_company_id = ? and to_group_id = ? and create_time >= ? order by create_time desc) as test"
    ∷ []

-- The later of the two times of a row of groups.
abbrev pub msg_time : List Cell → Cell
msg_time v =
    let pc_offline_time = value_of (at v 2) in
    let mobile_offline_time = value_of (at v 3) in
    num (if leb mobile_offline_time pc_offline_time then pc_offline_time else mobile_offline_time)

-- The rows of a count, without those that have 0.
abbrev pub group_infos : List (List Cell) → List Built
group_infos [] = []
group_infos (v ∷ vs) =
    let rest = group_infos vs in
    if is_num 0 (at v 0) then rest else count_item (at v 0) (at v 1) ∷ rest

-- What msg_blob has behind the rows.
abbrev pub last_blob : Cell → List (List Cell) → Cell
last_blob blob [] = blob
last_blob blob (v ∷ vs) = last_blob (at v 1) vs

-- The two loops of get_group_offline_msg_cnt, with what a round binds; `last` has the variables of the
-- round before. The statement of the rounds is not freed between them, and a break ends the loop.
unfoldable pub count_groups :
    {R : Type 0}
    → (List Cell → List Cell)
    → List (List Cell)
    → List Cell
    → Cell
    → List Built
    → (List Cell → Cell → List Built → Program R)
    → Program R
count_groups params [] last blob built k = k last blob built
count_groups params (v ∷ vs) last blob built k = bind_all 1 (params v) λ _.
    command (query 1) λ asked. elim asked [
      | false ↦ k v blob built
      | true ↦ columns 1 (long 4 ∷ string 8192 ∷ []) λ _. command (get_result 1) λ stored.
          elim stored [
            | false ↦ k v blob built
            | true ↦ command (fetch_all 1) λ rows.
                let shown = rounds (λ u. u) (unset ∷ blob ∷ []) rows in
                count_groups params vs v (last_blob blob shown) (built ++ group_infos shown) k
          ]
    ]

-- The second half of get_group_offline_msg_cnt: its loop binds the company and the times of the last
-- group.
unfoldable pub count_orgs :
    {R : Type 0} → Program R → ℕ → Cell → List Cell → Cell → List Built → Body R (Unit {0})
unfolding count_groups
count_orgs out to_company_id to_user_id last blob built = do
  call (free 0)
  listing out 0 (orgs_sql to_company_id) (num to_company_id ∷ to_user_id ∷ []) (long 4 ∷ [])
  call (free 1)
  unless out (call (init 1 group_count_sql))
  orgs ← call (fetch_all 0)
  λ k.
      count_groups (λ v. at last 0 ∷ at v 0 ∷ msg_time last ∷ [])
        (rounds (λ v. v) (unset ∷ []) orgs) (unset ∷ []) blob built
        λ last_org last_held infos.
          call (respond (rewritten 0x031a (add_each "offline_msg_list" (λ b. b) infos end))) k

unfoldable pub get_group_offline_msg_cnt : {R : Type 0} → Option Request → Body R (Unit {0})
unfolding count_groups count_orgs
get_group_offline_msg_cnt none = call (free 0)
get_group_offline_msg_cnt (some msg_data) = scope 0 λ leave. do
  let to_company_id = number_of msg_data "from_company_id"
  let to_user_id = field msg_data "from_user_id"
  let id = num to_company_id
  listing (leave tt) 0 (groups_sql to_company_id)
      (id ∷ to_user_id ∷ id ∷ to_user_id ∷ id ∷ to_user_id ∷ [])
      (long 4 ∷ long 4 ∷ longlong 8 ∷ longlong 8 ∷ [])
  scope 1 λ out. do
    unless (out tt) (call (init 1 group_count_sql))
    groups ← call (fetch_all 0)
    λ k.
        count_groups (λ v. at v 0 ∷ at v 1 ∷ msg_time v ∷ [])
          (rounds (λ v. v) (unset ∷ unset ∷ unset ∷ unset ∷ []) groups)
          (unset ∷ unset ∷ unset ∷ unset ∷ []) unset []
          λ last blob built. count_orgs (out tt) to_company_id to_user_id last blob built k
