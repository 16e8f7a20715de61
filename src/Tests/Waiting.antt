-- ===== src/Tests/Waiting.antt =====
-- Histories of the queue of responses and of the map of logins.
use db_proxy_server.Prelude.{ℕ, ◌≡◌, refl, none, some, List, [], ◌∷◌, ◌++◌, ◌==◌, if◌then◌else◌}
use db_proxy_server.NetServer.Responses.{Turn, handled, sending, serve, handled_in, serve-order}
use db_proxy_server.NetServer.Logins.{find_map, insert_map, eraser_map, kept, IsMap, logins_lem}

-- The thread that sends wakes up once with nothing to send.
abbrev turns : List (Turn ℕ)
turns = sending ∷ handled 1 ∷ handled 2 ∷ sending ∷ []

serve-order_example : (serve [] turns).1 ++ (serve [] turns).0 ≡ [] ++ handled_in turns
serve-order_example = serve-order [] turns

abbrev logins : List (ℕ × ℕ)
logins = (7, 1) ∷ (8, 2) ∷ []

logins_lem_example :
    (find_map 8 (insert_map 8 3 logins)
      ≡ (if 8 == 8 then some (kept (find_map 8 logins) 3) else find_map 8 logins))
    × (find_map 8 (eraser_map 8 logins).0 ≡ (if 8 == 8 then none else find_map 8 logins))
    × ((eraser_map 8 logins).1 ≡ find_map 8 logins)
    × IsMap (insert_map 8 3 logins)
    × IsMap (eraser_map 8 logins).0
unfolding find_map
logins_lem_example = logins_lem logins 8 8 3 (refl, (refl, tt))
