-- ===== src/Tests/Connections.antt =====
-- The router refuses, then accepts, then closes the connection.
use db_proxy_server.Links.{
  connect_failed, connected, armed, closed, NetWork, new_network, connect_router,
}
use db_proxy_server.Links.Kept.{
  IsKept, readable, router_due, run_step, started, stepped, Running-IsKept,
}
use db_proxy_server.Links.Leak.{refuse, refuse_lem}
use db_proxy_server.Prelude.{◌≡◌, [], ◌∷◌, ◌++◌, arith}
use mathlib.Core.List.{reverse}

abbrev at_first : NetWork
at_first = connect_router (connect_failed 8) new_network

abbrev back : NetWork
back = run_step (router_due (connected 9)) at_first

abbrev gone : NetWork
gone = run_step (readable 9 (closed ∷ []) (connect_failed 10)) back

Running-IsKept_example : IsKept gone
Running-IsKept_example = Running-IsKept (connect_failed 8) gone (
    stepped (readable 9 (closed ∷ []) (connect_failed 10)) back
      (stepped (router_due (connected 9)) at_first started tt) (omega arith))

refuse_lem_example :
    ((refuse (8 ∷ 9 ∷ 10 ∷ []) new_network).open_fds ≡ reverse (8 ∷ 9 ∷ 10 ∷ []) ++ [])
    × ((refuse (8 ∷ 9 ∷ 10 ∷ []) new_network).watched ≡ [])
    × ((refuse (8 ∷ 9 ∷ 10 ∷ []) new_network).m_router_timer ≡ armed)
refuse_lem_example = refuse_lem 8 (9 ∷ 10 ∷ []) new_network
