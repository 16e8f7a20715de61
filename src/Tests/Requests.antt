-- ===== src/Tests/Requests.antt =====
-- Requests that the handlers are run on.
use db_proxy_server.Prelude.{◌+◌, ◌==◌, ◌≡◌, ◌≤◌, refl, true, none, some, List, [], ◌∷◌, arith}
use db_proxy_server.HandlerMap.{Handler}
use db_proxy_server.Handlers.Program.{
  Reply, rewritten, end, Cell, num, text, Request, blank, request, Command, init, bind, execute,
  query, get_result, get_num_rows, fetch, fetch_all, free, column, set_redis, respond, delete_task,
  now, time, Answer, Row, Formats, done,
}
use db_proxy_server.Handlers.CacheTables.{key1, key2}
use db_proxy_server.Handlers.Cache.{
  redis_user_id, redis_user_friend_list, redis_user_group_list, redis_group_member_list,
  redis_org_tree,
}
use db_proxy_server.Handlers.Cache.{update_user_id}
use db_proxy_server.Handlers.MessageQueries.{page}
use db_proxy_server.Handlers.Discipline.{marks, selected}
use db_proxy_server.Handlers.CacheTables.{user_info_sql}
use db_proxy_server.Handlers.GroupMembers.{set_group_create}
use db_proxy_server.Handlers.Dispatch.{program_of}
use db_proxy_server.Handlers.Kinds.{keeps, always_gives}
use db_proxy_server.Handlers.Run.{Event, World, run, obeys, gives_away}
use db_proxy_server.Handlers.Remarks.{IsShown, own, carried, remarks-IsShown, friend_remark_stays}
use db_proxy_server.Handlers.Counts.{DeletesFirst, unprepared, get_offline_msg_cnt-DeletesFirst}
use db_proxy_server.Handlers.Fields.{codes}
use db_proxy_server.Handlers.ServerQueries.{get_login_result, set_modify_pwd}
use db_proxy_server.Handlers.Keeps.{keeps-obeys, always_gives-gives_away}
use db_proxy_server.Handlers.Cached.{
  IsCached, user_id_value, friend_value, group_value, member_value, org_value, listings-IsCached,
}
use db_proxy_server.Handlers.Pages.{total, IsPage, page-IsPage}
use db_proxy_server.Handlers.MessageCounts.{get_offline_msg_cnt}

-- Every message is one byte.
abbrev formats : Formats
formats = record { serialize = λ b. 1 ∷ []; serialize_part = λ r. []; write_json = λ l. [] }

-- Every step succeeds, and each listing has the row that is given.
abbrev answer_row : Row → (c : Command) → Answer c
answer_row row (init s sql) = true
answer_row row (bind s i v) = tt
answer_row row (execute s) = true
answer_row row (query s) = true
answer_row row (get_result s) = true
answer_row row (get_num_rows s) = 1
answer_row row (fetch s) = some row
answer_row row (fetch_all s) = row ∷ []
answer_row row (free s) = tt
answer_row row (column s i c) = tt
answer_row row (set_redis key value) = tt
answer_row row (respond r) = tt
answer_row row delete_task = tt
answer_row row now = 1500000000000
answer_row row time = 1500000000

abbrev world : World
world = record {
  State = Unit {0};
  answer = λ s c. (answer_row (some (num 1) ∷ some (num 2) ∷ []) c, s);
}

abbrev member : Request
member = request (λ f. 7) (λ f. []) (λ f. 0) (λ f i. blank)

-- A new group with one member.
abbrev creation : Request
creation = request (λ f. 1) (λ f. []) (λ f. 1) (λ f i. member)

keeps-obeys_example :
    obeys (run world (set_group_create formats true (some creation) done) tt).1 ≡ true
unfolding keeps program_of
keeps-obeys_example =
    keeps-obeys formats true blank (set_group_create formats true (some creation) done)
      Handler.set_group_create (some creation) refl refl world tt

always_gives-gives_away_example :
    gives_away (run world (update_user_id formats true (some member) done) tt).1 ≡ true
unfolding always_gives program_of
always_gives-gives_away_example =
    always_gives-gives_away formats true blank (update_user_id formats true (some member) done)
      Handler.update_user_id (some member) refl refl world tt

listings-IsCached_example :
    IsCached
      (key1 "cul_" 5)
      (user_id_value formats true)
      (run world (redis_user_id formats true 5 done) tt)
    × IsCached
        (key2 "uf_" 5 7)
        (friend_value formats true)
        (run world (redis_user_friend_list formats true 5 7 done) tt)
    × IsCached
        (key2 "ugl_" 5 7)
        (group_value formats true)
        (run world (redis_user_group_list formats true 5 7 done) tt)
    × IsCached
        (key2 "gml_" 5 7)
        (member_value formats true)
        (run world (redis_group_member_list formats true 5 7 done) tt)
    × IsCached
        (key1 "org_" 5)
        (org_value formats true)
        (run world (redis_org_tree formats true 5 done) tt)
listings-IsCached_example = listings-IsCached formats true world tt 5 7

-- One message of three bytes.
abbrev blobs : List Cell
blobs = text (1 ∷ 2 ∷ 3 ∷ []) ∷ []

page-IsPage_example :
    (27 + total (page 27 blobs).0 ≤ 8192) × IsPage 27 blobs (page 27 blobs).0 (page 27 blobs).1
page-IsPage_example = page-IsPage 27 blobs (omega arith)

-- Two friends, the first with a remark.
abbrev with_remark : Row
with_remark = none ∷ none ∷ none ∷ none ∷ none ∷ some (text (65 ∷ [])) ∷ []

abbrev without_remark : Row
without_remark = some (num 1) ∷ some (num 2) ∷ []

-- MySQL has one row for every fetch.
abbrev holding : Row → World
holding row = record { State = Unit {0}; answer = λ s c. (answer_row row c, s) }

remarks-IsShown_example :
    IsShown formats
      (key2 "ugl_" 5 7)
      "group_list"
      "remark"
      (own 6)
      (run (holding with_remark) (redis_user_group_list formats true 5 7 done) tt).1
    × IsShown formats
        (key2 "gml_" 5 7)
        "member_list"
        "member_remark"
        (own 3)
        (run (holding with_remark) (redis_group_member_list formats true 5 7 done) tt).1
remarks-IsShown_example = remarks-IsShown formats true 5 7 (holding with_remark) tt

-- Of the two friends the second shows the remark of the first.
carried_remark :
    carried 5 (text []) (with_remark ∷ without_remark ∷ []) ≡ text (65 ∷ []) ∷ text (65 ∷ []) ∷ []
carried_remark = refl

friend_remark_stays_example :
    IsShown formats
      (key2 "uf_" 5 7)
      "friend_list"
      "remark"
      (carried 5 (text []))
      (run (holding with_remark) (redis_user_friend_list formats true 5 7 done) tt).1
friend_remark_stays_example = friend_remark_stays formats true 5 7 (holding with_remark) tt

-- A login that succeeds behind two rows.
login_answered :
    codes (run world (get_login_result formats (some member) done) tt).1 ≡ some (num 1) ∷ []
unfolding codes run get_login_result
login_answered = refl

-- A user who sends another old password than the stored one, which begins with it.
abbrev changing : Request
changing = request (λ f. 7) (λ f. 1 ∷ 2 ∷ 3 ∷ []) (λ f. 0) (λ f i. blank)

password_changed :
    codes (run (holding (some (text (1 ∷ 2 ∷ [])) ∷ [])) (set_modify_pwd (some changing) done) tt).1
    ≡ some (num 1) ∷ []
unfolding codes run set_modify_pwd
password_changed = refl

-- The query for the data of a user has five parameters, and eighteen columns.
marks-user_info_sql : marks (user_info_sql 3) ≡ 5
marks-user_info_sql = refl

selected-user_info_sql : selected (user_info_sql 3) ≡ 18
selected-user_info_sql = refl

get_offline_msg_cnt-DeletesFirst_example :
    DeletesFirst
      (num 7)
      (num 7)
      unprepared
      (run world (get_offline_msg_cnt (some member) done) tt).1
get_offline_msg_cnt-DeletesFirst_example = get_offline_msg_cnt-DeletesFirst member world tt

-- A query that fails in the first round: nothing is counted, and the deletion is executed.
abbrev answer_failing : Row → (c : Command) → Answer c
answer_failing row (query s) = s == 0
answer_failing row (init s sql) = answer_row row (init s sql)
answer_failing row (bind s i v) = tt
answer_failing row (execute s) = true
answer_failing row (get_result s) = true
answer_failing row (get_num_rows s) = 1
answer_failing row (fetch s) = some row
answer_failing row (fetch_all s) = row ∷ []
answer_failing row (free s) = tt
answer_failing row (column s i c) = tt
answer_failing row (set_redis key value) = tt
answer_failing row (respond r) = tt
answer_failing row delete_task = tt
answer_failing row now = 0
answer_failing row time = 0

abbrev responses : List Event → List Reply
responses [] = []
responses ((respond r, a) ∷ log) = r ∷ responses log
responses (_ ∷ log) = responses log

abbrev failing : World
failing = record {
  State = Unit {0};
  answer = λ s c. (answer_failing (some (num 3) ∷ some (text []) ∷ []) c, s);
}

uncounted :
    responses (run failing (get_offline_msg_cnt (some member) done) tt).1
    ≡ rewritten 0x030b end ∷ []
unfolding run get_offline_msg_cnt
uncounted = refl
