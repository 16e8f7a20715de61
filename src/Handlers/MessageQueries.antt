-- ===== src/Handlers/MessageQueries.antt =====
-- src/handler_msg.cpp: the handlers that list stored messages. A handler is given the parsed message,
-- none when it does not parse. Runs of blanks in a text of SQL stand as one blank.
use Prim.Native.String.{String}
use db_proxy_server.Prelude.{
  ℕ, ◌+◌, ◌==◌, Bool, true, false, Option, none, some, List, [], ◌∷◌, ◌++◌, map, if◌then◌else◌,
  length, ltb,
}
use db_proxy_server.Handlers.Program.{
  Cell, num, text, unset, lit, Text, Built, end, set_fields, add_parsed, Request, number_of,
  items_of, rewritten, string, init, bind, query, get_result, fetch, fetch_all, free, column,
  respond, Program, command, Body, ◌>>=◌, ◌>>◌, pure, call, test, unless, fetch_or, scope, bind_all,
  columns, fill, rounds, at, listing, field, text_field,
}
use db_proxy_server.Message.{header_len}

-- The two orders of the ends of a chat.
abbrev pub from_to : String
from_to = "(from_company_id = ? and from_user_id = ? and to_company_id = ? and to_user_id = ?)"

-- init and the binds, in the blocks behind the tests on the two times, where 0 stands for none. The
-- text of a chat is bracketed behind a time.
unfoldable pub ask_times :
    {R : Type 0} → (Unit {0} → Program R) → Text → Text → List Cell → ℕ → ℕ → Body R (Unit {0})
ask_times leave bare bracketed params create_time end_time = do
  let ask = λ (sql : Text) (params : List Cell). do
    unless (leave tt) (call (init 0 sql))
    bind_all 0 params
  test (0 == create_time)
      (test (0 == end_time) (ask (bare ++ lit " order by create_time desc" ∷ []) params) (
        ask (bracketed ++ lit " and create_time >= ? order by create_time desc" ∷ [])
          (params ++ num end_time ∷ [])))
      (test (0 == end_time)
        (ask (bracketed ++ lit " and create_time <= ? order by create_time desc" ∷ [])
          (params ++ num create_time ∷ []))
        (ask (bracketed ++ lit " and (create_time between ? and ?) order by create_time desc" ∷ [])
          (params ++ num end_time ∷ num create_time ∷ [])))

abbrev pub chat_sql : Text
chat_sql = lit from_to ∷ lit " or " ∷ lit from_to ∷ []

abbrev pub group_msg_sql : Text
group_msg_sql =
    lit "select msg_data from t_im_group_msg where to_company_id = ? and to_group_id = ?" ∷ []

abbrev pub orggroup_msg_sql : Text
orggroup_msg_sql =
    lit "select msg_data from t_im_orggroup_msg where to_company_id = ? and to_org_id = ?" ∷ []

-- SESSION_TYPE_SINGLE 1, SESSION_TYPE_MULTICHAT 2, SESSION_TYPE_ORGGROUP 3: the blocks that
-- get_offline_msg and get_history_msg share. Another type prepares nothing.
unfoldable pub ask_session : {R : Type 0} → (Unit {0} → Program R) → Request → Body R (Unit {0})
unfolding ask_times
ask_session leave msg_data = do
  let session_type = number_of msg_data "session_type"
  let create_time = number_of msg_data "latest_msg_time"
  let end_time = number_of msg_data "end_msg_time"
  let from_company_id = field msg_data "from_company_id"
  let from_user_id = field msg_data "from_user_id"
  let to_company_id = field msg_data "to_company_id"
  let to_user_id = field msg_data "to_user_id"
  test (1 == session_type)
      (ask_times leave (lit "select msg_data from t_im_chat_msg where " ∷ chat_sql)
        (lit "select msg_data from t_im_chat_msg where (" ∷ chat_sql ++ lit ")" ∷ [])
        (from_company_id ∷ from_user_id ∷ to_company_id ∷ to_user_id ∷ to_company_id ∷ to_user_id
          ∷ from_company_id ∷ from_user_id ∷ [])
        create_time end_time)
      (test (2 == session_type)
        (ask_times leave group_msg_sql group_msg_sql (to_company_id ∷ to_user_id ∷ []) create_time
          end_time)
        (test (3 == session_type)
          (ask_times leave orggroup_msg_sql orggroup_msg_sql (to_company_id ∷ to_user_id ∷ [])
            create_time end_time)
          (pure tt)))

-- `msg_length` behind a fetch, of 8 * 1024 before the first.
abbrev pub blob_length : Cell → ℕ
blob_length (text t) = length t
blob_length (num n) = 0
blob_length unset = 8192

abbrev pub blob_bytes : Cell → List ℕ
blob_bytes (text t) = t
blob_bytes (num n) = []
blob_bytes unset = []

-- The loop over the rows: the messages that fit into 8 * 1024 bytes behind `pack_length`, and
-- is_more_data.
unfoldable pub page : ℕ → List Cell → List Cell × Bool
page pack_length [] = ([], false)
page pack_length (blob ∷ blobs) =
    let (rest, more) = page (pack_length + blob_length blob) blobs in
    if ltb 8192 (pack_length + blob_length blob) then ([], true) else (blob ∷ rest, more)

abbrev pub add_blobs : String → List Cell → Built → Built
add_blobs f [] rest = rest
add_blobs f (b ∷ bs) rest = add_parsed f (blob_bytes b) (add_blobs f bs rest)

-- get_offline_msg and get_history_msg, which differ in the command of the response.
unfoldable pub list_messages : {R : Type 0} → ℕ → Option Request → Body R (Unit {0})
unfolding ask_session
list_messages cmd none = call (free 0)
list_messages cmd (some msg_data) = scope 0 λ leave. do
  ask_session leave msg_data
  unless (leave tt) (call (query 0))
  columns 0 (string 8192 ∷ [])
  unless (leave tt) (call (get_result 0))
  rows ← call (fetch_all 0)
  let blobs = map (λ v. at v 0) (rounds (λ v. v) (unset ∷ []) rows)
  let (kept, more) = page header_len blobs
  call (
      respond (
        rewritten cmd (
          add_blobs "msg_data_list" kept (
            set_fields
              (("company_id", field msg_data "to_company_id")
                ∷ ("user_id", field msg_data "to_user_id")
                ∷ ("session_type", field msg_data "session_type")
                ∷ ("is_more_data", num (if more then 1 else 0))
                ∷ [])
              end))))

unfoldable pub get_offline_msg : {R : Type 0} → Option Request → Body R (Unit {0})
unfolding list_messages
get_offline_msg = list_messages 0x030f

unfoldable pub get_history_msg : {R : Type 0} → Option Request → Body R (Unit {0})
unfolding list_messages
get_history_msg = list_messages 0x030d

-- The text stays empty for another type of session.
abbrev pub latest_sql : ℕ → Text
latest_sql session_type =
    if session_type == 1
    then lit
        "select msg_id from t_im_chat_msg where from_company_id = ? and from_user_id = ? and to_company_id = ? and to_user_id = ? order by create_time desc limit 1"
      ∷ []
    else if session_type == 2
    then lit
        "select msg_id from t_im_group_msg where from_company_id = ? and from_user_id = ? and to_company_id = ? and to_group_id = ? order by create_time desc limit 1"
      ∷ []
    else if session_type == 3
    then lit
        "select msg_id from t_im_orggroup_msg where from_company_id = ? and from_user_id = ? and to_company_id = ? and to_org_id = ? order by create_time desc limit 1"
      ∷ []
    else []

-- The column is an array of 32 char without a value at first, and all of it is sent.
unfoldable pub get_latest_msg_id : {R : Type 0} → Option Request → Body R (Unit {0})
get_latest_msg_id none = call (free 0)
get_latest_msg_id (some msg_data) = scope 0 λ leave. do
  let session_type = number_of msg_data "session_type"
  let from_company_id = field msg_data "from_company_id"
  let from_user_id = field msg_data "from_user_id"
  let to_company_id = field msg_data "to_company_id"
  let to_user_id = field msg_data "to_user_id"
  listing (leave tt) 0 (latest_sql session_type)
      (from_company_id ∷ from_user_id ∷ to_company_id ∷ to_user_id ∷ []) (string 32 ∷ [])
  row ← fetch_or (leave tt) 0
  call (
      respond (
        rewritten 0x0311 (
          set_fields
            (("from_company_id", from_company_id)
              ∷ ("from_user_id", from_user_id)
              ∷ ("session_type", num session_type)
              ∷ ("to_company_id", to_company_id)
              ∷ ("to_user_id", to_user_id)
              ∷ ("latest_msg_id", at (fill (unset ∷ []) row) 0)
              ∷ [])
            end)))

abbrev pub by_id_sql : ℕ → Text
by_id_sql session_type =
    if session_type == 1
    then lit "select msg_data from t_im_chat_msg where msg_id = ?" ∷ []
    else if session_type == 2
    then lit "select msg_data from t_im_group_msg where msg_id = ?" ∷ []
    else if session_type == 3
    then lit "select msg_data from t_im_orggroup_msg where msg_id = ?" ∷ []
    else []

-- A round of get_msg_by_id, with the statement that was prepared in front of the loop. A query that
-- fails goes on with the next id. `msg_blob` keeps what the round before it left.
unfoldable pub message_by_id :
    {R : Type 0} → List Request → Cell → List Cell → (List Cell → Program R) → Program R
message_by_id [] blob built k = k built
message_by_id (msg_id ∷ msg_ids) blob built k = command (bind 0 0 (text_field msg_id "")) λ _.
    command (query 0) λ asked.
      let skipped = message_by_id msg_ids blob built k in
      elim asked [
        | false ↦ skipped
        | true ↦ command (column 0 0 (string 8192)) λ _. command (get_result 0) λ stored.
            elim stored [
              | false ↦ k built
              | true ↦ command (fetch 0) λ row. elim row [
                | none ↦ skipped
                | some r ↦
                    let now_held = at (fill (blob ∷ []) r) 0 in
                    message_by_id msg_ids now_held (built ++ now_held ∷ []) k
              ]
            ]
      ]

unfoldable pub get_msg_by_id : {R : Type 0} → Option Request → Body R (Unit {0})
unfolding message_by_id
get_msg_by_id none = call (free 0)
get_msg_by_id (some msg_data) = scope 0 λ leave. do
  unless (leave tt) (call (init 0 (by_id_sql (number_of msg_data "session_type"))))
  blobs ← message_by_id (items_of msg_data "msg_id_list") unset []
  call (respond (rewritten 0x0313 (add_blobs "msg_data" blobs end)))
