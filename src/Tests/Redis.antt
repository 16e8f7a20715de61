-- ===== src/Tests/Redis.antt =====
-- A connection to redis that is opened by a `get`.
use db_proxy_server.Cache.{
  Reply, status, string, integer, error, Answer, connected, connect_failed, no_reply, reply, select,
  get, del, run_command,
}
use db_proxy_server.Cache.Selected.{
  closed, opened, broken, run_command-closed, run_command-unselected,
}
use db_proxy_server.Prelude.{◌≡◌, refl, [], ◌∷◌}

abbrev ok : Answer
ok = reply (status (b'O' ∷ b'K' ∷ []))

abbrev refused : Reply
refused = error (b'E' ∷ b'R' ∷ b'R' ∷ [])

run_command-closed_example :
    (run_command (get (5 ∷ [])) (closed 3 (connected ∷ ok ∷ reply (string (9 ∷ [])) ∷ []) [])
      ≡ (reply (string (9 ∷ [])), opened 3 3 [] ((0, select 3) ∷ (3, get (5 ∷ [])) ∷ [])))
    × (run_command (get (5 ∷ [])) (closed 3 (connected ∷ ok ∷ no_reply ∷ []) [])
        ≡ (no_reply, closed 3 [] ((0, select 3) ∷ (3, get (5 ∷ [])) ∷ [])))
    × (run_command (get (5 ∷ [])) (closed 3 (connect_failed ∷ []) []) ≡ (no_reply, closed 3 [] []))
run_command-closed_example = run_command-closed 3 (get (5 ∷ [])) [] [] ok (string (9 ∷ [])) refl

run_command-unselected_example :
    (run_command (get (5 ∷ [])) (closed 3 (connected ∷ reply refused ∷ reply (integer 1) ∷ []) [])
      ≡ (no_reply, opened 0 3 (reply (integer 1) ∷ []) ((0, select 3) ∷ [])))
    × (run_command
          (del (6 ∷ []))
          (run_command
            (get (5 ∷ []))
            (closed 3 (connected ∷ reply refused ∷ reply (integer 1) ∷ []) [])).1
        ≡ (reply (integer 1), opened 0 3 [] ((0, select 3) ∷ (0, del (6 ∷ [])) ∷ [])))
    × (run_command (get (5 ∷ [])) (closed 3 (connected ∷ no_reply ∷ []) [])
        ≡ (no_reply, broken 3 [] ((0, select 3) ∷ [])))
    × (run_command
          (del (6 ∷ []))
          (run_command (get (5 ∷ [])) (closed 3 (connected ∷ no_reply ∷ []) [])).1
        ≡ (no_reply, closed 3 [] ((0, select 3) ∷ [])))
run_command-unselected_example =
    run_command-unselected 3 (get (5 ∷ [])) [] [] (del (6 ∷ [])) refused (integer 1) refl
