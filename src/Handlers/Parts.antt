-- ===== src/Handlers/Parts.antt =====
-- The functions that fill redis, wherever a handler calls them: whatever the statements of the
-- handler are, they leave them.
use db_proxy_server.Prelude.{ℕ, Bool, [], ◌∷◌}
use db_proxy_server.Handlers.Program.{Formats, Program}
use db_proxy_server.Handlers.Discipline.{Monitor, Stage, closed}
use db_proxy_server.Handlers.Check.{Check}
use db_proxy_server.Handlers.Cache.{
  redis_user_id, redis_user_info, redis_user_friend_list, redis_user_group_list,
  redis_group_member_list, redis_org_tree,
}

-- The automaton with the third statement closed.
abbrev pub outside : Stage → Stage → Bool → Monitor
outside a b d = record { stages = a ∷ b ∷ closed ∷ []; disposed = d }

module _ (formats : Formats) (redis : Bool) {R : Type 0} (Q : R → Monitor → Type 0)
    (k : ℕ → Program R) (a b : Stage) (d : Bool) where
  pub redis_user_id-Check :
      (c : ℕ)
      → ((ret : ℕ) → Check Q (k ret) (outside a b d))
      → Check Q (redis_user_id formats redis c k) (outside a b d)
  unfolding redis_user_id
  redis_user_id-Check c h = search

  pub redis_user_info-Check :
      (c u : ℕ)
      → ((ret : ℕ) → Check Q (k ret) (outside a b d))
      → Check Q (redis_user_info formats redis c u k) (outside a b d)
  unfolding redis_user_info
  redis_user_info-Check c u h = search

  pub redis_user_friend_list-Check :
      (c u : ℕ)
      → ((ret : ℕ) → Check Q (k ret) (outside a b d))
      → Check Q (redis_user_friend_list formats redis c u k) (outside a b d)
  unfolding redis_user_friend_list
  redis_user_friend_list-Check c u h = search

  pub redis_user_group_list-Check :
      (c u : ℕ)
      → ((ret : ℕ) → Check Q (k ret) (outside a b d))
      → Check Q (redis_user_group_list formats redis c u k) (outside a b d)
  unfolding redis_user_group_list
  redis_user_group_list-Check c u h = search

  pub redis_group_member_list-Check :
      (c g : ℕ)
      → ((ret : ℕ) → Check Q (k ret) (outside a b d))
      → Check Q (redis_group_member_list formats redis c g k) (outside a b d)
  unfolding redis_group_member_list
  redis_group_member_list-Check c g h = search

  pub redis_org_tree-Check :
      (c : ℕ)
      → ((ret : ℕ) → Check Q (k ret) (outside a b d))
      → Check Q (redis_org_tree formats redis c k) (outside a b d)
  unfolding redis_org_tree
  redis_org_tree-Check c h = search
