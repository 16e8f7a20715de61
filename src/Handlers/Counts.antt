-- ===== src/Handlers/Counts.antt =====
-- The order of get_offline_msg_cnt of src/handler_msg.cpp.
use db_proxy_server.Prelude.{
  ℕ, ◌≡◌, refl, Bool, true, false, ◌&&◌, ◌==◌, Option, none, some, List, [], ◌∷◌, if◌then◌else◌,
  ltb,
}
use db_proxy_server.HttpTask.{text_eq}
use db_proxy_server.Handlers.Program.{
  Cell, lit, digits, raw, Text, Built, Request, field, Program, done, init, bind, execute, query,
  get_result, get_num_rows, fetch, fetch_all, free, column, set_redis, respond, delete_task, now,
  time, rounds, unset,
}
use db_proxy_server.Handlers.Run.{Event, World, run}
use db_proxy_server.Handlers.Results.{Leaves, Leaves-run}
use db_proxy_server.Handlers.MessageCounts.{count_senders, count_offline, get_offline_msg_cnt}

-- The text that deletes the offline messages of a user.
abbrev pub is_delete : Text → Bool
is_delete [] = false
is_delete (lit s ∷ []) =
    text_eq s "delete from t_im_chat_offline_msg where to_company_id = ? and to_user_id = ?"
is_delete (lit s ∷ p ∷ t) = false
is_delete (digits n ∷ t) = false
is_delete (raw b ∷ t) = false

-- The first statement of the handler: whether it was prepared with that text, and what was bound to its
-- first two parameters since.
pub record Prepared : Type 0 where
  pub deletes : Bool
  pub company : Option Cell
  pub user : Option Cell

abbrev pub on_bind : Prepared → ℕ → ℕ → Cell → Prepared
on_bind p s i v =
    if ltb 0 s
    then p
    else if i == 0
    then record p { company = some v }
    else if i == 1
    then record p { user = some v }
    else p

-- An execute of the deletion has the two cells as its parameters; another one goes on.
abbrev pub Executes : Cell → Cell → Prepared → Bool → Type 0 → Type 0
Executes c u p true rest = (p.company ≡ some c) × (p.user ≡ some u)
Executes c u p false rest = rest

-- No response comes in front of an execute of the deletion, and its parameters are those two cells.
abbrev pub DeletesFirst : Cell → Cell → Prepared → List Event → Type 0
DeletesFirst c u p [] = Unit {0}
DeletesFirst c u p ((respond r, a) ∷ log) = ⊥
DeletesFirst c u p ((init s sql, a) ∷ log) =
    DeletesFirst c u
      (if s == 0 then record { deletes = is_delete sql && a; company = none; user = none } else p)
      log
DeletesFirst c u p ((bind s i v, a) ∷ log) = DeletesFirst c u (on_bind p s i v) log
DeletesFirst c u p ((execute s, a) ∷ log) =
    Executes c u p (p.deletes && (s == 0)) (DeletesFirst c u p log)
DeletesFirst c u p ((query s, a) ∷ log) = DeletesFirst c u p log
DeletesFirst c u p ((get_result s, a) ∷ log) = DeletesFirst c u p log
DeletesFirst c u p ((get_num_rows s, a) ∷ log) = DeletesFirst c u p log
DeletesFirst c u p ((fetch s, a) ∷ log) = DeletesFirst c u p log
DeletesFirst c u p ((fetch_all s, a) ∷ log) = DeletesFirst c u p log
DeletesFirst c u p ((free s, a) ∷ log) = DeletesFirst c u p log
DeletesFirst c u p ((column s i cell, a) ∷ log) = DeletesFirst c u p log
DeletesFirst c u p ((set_redis key value, a) ∷ log) = DeletesFirst c u p log
DeletesFirst c u p ((delete_task, a) ∷ log) = DeletesFirst c u p log
DeletesFirst c u p ((now, a) ∷ log) = DeletesFirst c u p log
DeletesFirst c u p ((time, a) ∷ log) = DeletesFirst c u p log

abbrev pub unprepared : Prepared
unprepared = record { deletes = false; company = none; user = none }

module _ (c u : Cell) where
  abbrev Deletes : Prepared → Program (Unit {0}) → Type 0
  Deletes p q = Leaves (λ r log. DeletesFirst c u p log) q

  count_senders-Deletes :
      (p : Prepared) (vs : List (List Cell)) (blob : Cell) (built : List Built)
      (k : List Built → Program (Unit {0}))
      → ((b : List Built) → Deletes p (k b))
      → Deletes p (count_senders vs blob built k)
  unfolding count_senders
  count_senders-Deletes p [] blob built k h = h built
  count_senders-Deletes p (v ∷ vs) blob built k h = search (count_senders-Deletes p vs) depth 30

get_offline_msg_cnt-Deletes :
    (msg_data : Request)
    → Deletes
        (field msg_data "from_company_id")
        (field msg_data "from_user_id")
        unprepared
        (get_offline_msg_cnt (some msg_data) done)
unfolding get_offline_msg_cnt count_offline
get_offline_msg_cnt-Deletes msg_data =
    let c = field msg_data "from_company_id" in
    let u = field msg_data "from_user_id" in
    let counting : Prepared = record { deletes = false; company = some c; user = some u } in
    (
      (
        (
          (
            (λ rows.
                count_senders-Deletes c u counting (rounds (λ v. v) (unset ∷ unset ∷ []) rows) unset
                  [] _ (λ infos. (((refl, refl), (refl, refl)), tt))),
            tt,
          ),
          tt,
        ),
        tt,
      ),
      tt,
    )

-- In every run of get_offline_msg_cnt for a message that parses, whatever MySQL answers: no response comes
-- in front of an execute of the statement that deletes offline messages, and whenever it is executed its
-- parameters are the company and the user of the request.
pub get_offline_msg_cnt-DeletesFirst :
    (msg_data : Request) (world : World) (s : world.State)
    → DeletesFirst
        (field msg_data "from_company_id")
        (field msg_data "from_user_id")
        unprepared
        (run world (get_offline_msg_cnt (some msg_data) done) s).1
get_offline_msg_cnt-DeletesFirst msg_data world s =
    Leaves-run world
      (λ r log.
        DeletesFirst (field msg_data "from_company_id") (field msg_data "from_user_id") unprepared
          log)
      (get_offline_msg_cnt (some msg_data) done) s (get_offline_msg_cnt-Deletes msg_data)
