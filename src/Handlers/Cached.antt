-- ===== src/Handlers/Cached.antt =====
-- What the functions of src/handler_cache.cpp that list a table put into redis.
use db_proxy_server.Prelude.{ℕ, suc, ◌≡◌, Bool, List, [], ◌∷◌, if◌then◌else◌}
use db_proxy_server.Handlers.Program.{
  Text, Row, set_redis, fetch_all, Formats, Program, done, rounds, declared, add_each, end,
}
use db_proxy_server.Handlers.Run.{Event, World, run}
use db_proxy_server.Handlers.Results.{Leaves, Leaves-run}
use db_proxy_server.Handlers.CacheTables.{
  is_empty, key1, key2, user_list, user_id_columns, friend_columns, friend_item, group_columns,
  group_item, clear_remark, member_columns, member_item, org_columns, org_node,
}
use db_proxy_server.Handlers.Cache.{
  redis_user_id, redis_user_friend_list, redis_user_group_list, redis_group_member_list,
  redis_org_tree,
}

-- The rows that were read, and what redis was given.
unfoldable pub rows_read : List Event → List Row
rows_read [] = []
rows_read ((fetch_all s, rows) ∷ log) = rows
rows_read (_ ∷ log) = rows_read log

unfoldable pub sets : List Event → List (Text × List ℕ)
sets [] = []
sets ((set_redis key value, a) ∷ log) = (key, value) ∷ sets log
sets (_ ∷ log) = sets log

-- The contract of a function that lists a table: either redis was given one value under the key, the
-- bytes of the message that the rows make, and the result is 1 if there are none and 0 else; or redis
-- was given nothing and the result is not 0.
pub data IsCached (key : Text) (value : List Row → List ℕ) : ℕ × List Event → Type 0 where
  cached :
      {log : List Event} {ret : ℕ}
      → sets log ≡ (key, value (rows_read log)) ∷ []
      → ret ≡ (if is_empty (value (rows_read log)) then 1 else 0)
      → IsCached key value (ret, log)
  failed : {log : List Event} {ret : ℕ} → sets log ≡ [] → IsCached key value (suc ret, log)

module _ (formats : Formats) (redis : Bool) where
  open formats use {serialize}

  -- The messages that the rows make.
  abbrev pub user_id_value : List Row → List ℕ
  user_id_value rows = serialize (user_list (rounds (λ v. v) (declared user_id_columns) rows))

  abbrev pub friend_value : List Row → List ℕ
  friend_value rows =
      serialize
        (add_each "friend_list" friend_item (rounds (λ v. v) (declared friend_columns) rows) end)

  abbrev pub group_value : List Row → List ℕ
  group_value rows =
      serialize (
        add_each "group_list" group_item (rounds (clear_remark 6) (declared group_columns) rows)
          end)

  abbrev pub member_value : List Row → List ℕ
  member_value rows = serialize (
      add_each "member_list" member_item (rounds (clear_remark 3) (declared member_columns) rows)
        end)

  abbrev pub org_value : List Row → List ℕ
  org_value rows =
      serialize
        (add_each "org_node_list" org_node (rounds (λ v. v) (declared org_columns) rows) end)

  -- In every run.
  abbrev pub Caches : Text → (List Row → List ℕ) → Program ℕ → Type 0
  Caches key value p = Leaves (λ r log. IsCached key value (r, log)) p

  Caches-run :
      (world : World) (s : world.State) (key : Text) (value : List Row → List ℕ) (p : Program ℕ)
      → Caches key value p
      → IsCached key value (run world p s)
  Caches-run world s key value p h = Leaves-run world (λ r log. IsCached key value (r, log)) p s h

  redis_user_id-Caches :
      (c : ℕ) → Caches (key1 "cul_" c) user_id_value (redis_user_id formats redis c done)
  unfolding redis_user_id sets rows_read
  redis_user_id-Caches c = search (cached, failed) depth 20

  redis_user_friend_list-Caches :
      (c u : ℕ)
      → Caches (key2 "uf_" c u) friend_value (redis_user_friend_list formats redis c u done)
  unfolding redis_user_friend_list sets rows_read
  redis_user_friend_list-Caches c u = search (cached, failed) depth 20

  redis_user_group_list-Caches :
      (c u : ℕ)
      → Caches (key2 "ugl_" c u) group_value (redis_user_group_list formats redis c u done)
  unfolding redis_user_group_list sets rows_read
  redis_user_group_list-Caches c u = search (cached, failed) depth 20

  redis_group_member_list-Caches :
      (c g : ℕ)
      → Caches (key2 "gml_" c g) member_value (redis_group_member_list formats redis c g done)
  unfolding redis_group_member_list sets rows_read
  redis_group_member_list-Caches c g = search (cached, failed) depth 20

  redis_org_tree-Caches :
      (c : ℕ) → Caches (key1 "org_" c) org_value (redis_org_tree formats redis c done)
  unfolding redis_org_tree sets rows_read
  redis_org_tree-Caches c = search (cached, failed) depth 20

  -- The five functions that fill redis with a listing keep their contract in every run, whatever MySQL
  -- answers and whether there is a connection to redis: the value is the serialised message of all the
  -- rows that were read, under the key of the company and of the user or group, it is set once, and
  -- the result is 0 exactly if it was set and is not empty.
  pub listings-IsCached :
      (world : World) (s : world.State) (c n : ℕ)
      → IsCached (key1 "cul_" c) user_id_value (run world (redis_user_id formats redis c done) s)
        × IsCached
            (key2 "uf_" c n)
            friend_value
            (run world (redis_user_friend_list formats redis c n done) s)
        × IsCached
            (key2 "ugl_" c n)
            group_value
            (run world (redis_user_group_list formats redis c n done) s)
        × IsCached
            (key2 "gml_" c n)
            member_value
            (run world (redis_group_member_list formats redis c n done) s)
        × IsCached (key1 "org_" c) org_value (run world (redis_org_tree formats redis c done) s)
  listings-IsCached world s c n =
      let holds = Caches-run world s in
      (
        holds (key1 "cul_" c) user_id_value (redis_user_id formats redis c done)
            (redis_user_id-Caches c),
        holds (key2 "uf_" c n) friend_value (redis_user_friend_list formats redis c n done)
            (redis_user_friend_list-Caches c n),
        holds (key2 "ugl_" c n) group_value (redis_user_group_list formats redis c n done)
            (redis_user_group_list-Caches c n),
        holds (key2 "gml_" c n) member_value (redis_group_member_list formats redis c n done)
            (redis_group_member_list-Caches c n),
        holds (key1 "org_" c) org_value (redis_org_tree formats redis c done)
            (redis_org_tree-Caches c),
      )
