-- ===== src/Handlers/BuddyRequests.antt =====
-- src/handler_buddy.cpp: get_friend_req_list. The handler is given the parsed message, none when it does
-- not parse. Runs of blanks in a text of SQL stand as one blank.
use db_proxy_server.Prelude.{
  ℕ, ◌+◌, ◌-◌, ◌*◌, ◌/◌, ◌%◌, ◌^◌, ◌==◌, Option, none, some, List, [], ◌∷◌, if◌then◌else◌, ltb,
}
use db_proxy_server.Handlers.Program.{
  Cell, num, text, unset, lit, Built, end, set_field, set_fields, Request, number_of, rewritten,
  Column, tiny, long, longlong, string, fetch_all, free, respond, Body, ◌>>=◌, ◌>>◌, pure, call,
  test, fetch_or, scope, fill, rounds, declared, at, add_each, listing, field,
}

abbrev pub friend_req_columns : List Column
friend_req_columns = long 4 ∷ long 4 ∷ long 4 ∷ long 4 ∷ tiny 1 ∷ string 100 ∷ longlong 8 ∷ []

abbrev pub friend_req_item : List Cell → Built
friend_req_item v =
    set_fields
      (("company_id", at v 0)
        ∷ ("user_id", at v 1)
        ∷ ("dest_company_id", at v 2)
        ∷ ("dest_user_id", at v 3)
        ∷ ("req_stat", at v 4)
        ∷ ("req_time", at v 6)
        ∷ [])
      end

-- num / 100 + 1.
abbrev pub pack_count : Cell → Cell
pack_count (num n) = num (n / 100 + 1)
pack_count (text t) = unset
pack_count unset = unset

-- The largest update_time of the rounds.
abbrev pub larger : ℕ → Cell → ℕ
larger n (num m) = if ltb n m then m else n
larger n (text t) = n
larger n unset = n

unfoldable pub update_time_max : ℕ → List (List Cell) → ℕ
update_time_max n [] = n
update_time_max n (v ∷ vs) = update_time_max (larger n (at v 6)) vs

unfoldable pub get_friend_req_list : {R : Type 0} → Option Request → Body R (Unit {0})
unfolding update_time_max
get_friend_req_list none = call (free 0)
get_friend_req_list (some msg_data) = scope 0 λ leave. do
  let pack_index = number_of msg_data "pack_index"
  let company_id = field msg_data "company_id"
  let user_id = field msg_data "user_id"
  let update_time = field msg_data "update_time"
  test (0 == pack_index)
      (do
        listing (leave tt) 0
            (lit
                "select count(*) from t_im_user_friend_req where dest_company_id = ? and dest_id = ?"
              ∷ [])
            (company_id ∷ user_id ∷ []) (long 4 ∷ [])
        row ← fetch_or (leave tt) 0
        let count = at (fill (unset ∷ []) row) 0
        call (free 0)
        listing (leave tt) 0
            (lit
                "select company_id, user_id, dest_company_id, dest_id, req_result, remark, create_time from t_im_user_friend_req where dest_company_id = ? and dest_id = ? order by create_time desc limit 0, 100"
              ∷ [])
            (company_id ∷ user_id ∷ []) friend_req_columns
        rows ← call (fetch_all 0)
        let vs = rounds (λ v. v) (declared friend_req_columns) rows
        call (
            respond (
              rewritten 0x021b (
                set_fields (("pack_count", pack_count count) ∷ ("pack_index", num 1) ∷ []) (
                  add_each "buddysreqs" friend_req_item vs
                    (set_field "update_time" (num (update_time_max 0 vs)) end))))))
      (test (ltb 0 pack_index)
        (do
          listing (leave tt) 0
              (lit
                  "select company_id, user_id, dest_company_id, dest_id, req_result, remark, create_time from t_im_user_friend_req where dest_company_id = ? and dest_id = ? and create_time < ? order by create_time desc limit ?, 100"
                ∷ [])
              (company_id ∷ user_id ∷ update_time ∷ num ((pack_index - 1) * 100 % 2 ^ 32) ∷ [])
              friend_req_columns
          rows ← call (fetch_all 0)
          call (
              respond (
                rewritten 0x021b (
                  set_field "pack_index" (num pack_index) (
                    add_each "buddysreqs" friend_req_item
                      (rounds (λ v. v) (declared friend_req_columns) rows)
                      (set_field "update_time" update_time end))))))
        (pure tt))
