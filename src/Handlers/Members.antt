-- ===== src/Handlers/Members.antt =====
-- The handlers that change the members of a group, under the automaton.
use db_proxy_server.Prelude.{ℕ, Bool, true, false, Option, none, some, List, [], ◌∷◌}
use db_proxy_server.Handlers.Program.{Request, Formats, Program, done, each, num, call, free}
use db_proxy_server.Handlers.Discipline.{Monitor, Stage, closed, prepared, start}
use db_proxy_server.Handlers.Check.{Check}
use db_proxy_server.Handlers.Sound.{AtEnd}
use db_proxy_server.Handlers.Loops.{each-Check}
use db_proxy_server.Handlers.Parts.{outside, redis_user_group_list-Check}
use db_proxy_server.Handlers.Cache.{redis_user_group_list, redis_group_member_list}
use db_proxy_server.Handlers.GroupMembers.{
  create_member, set_group_create, change_members, answer_change, set_group_change,
}

module _ (formats : Formats) (redis : Bool) where
  -- The statement of set_group_create in its loop, at first without a parameter.
  abbrev pub adding : Bool → Monitor
  adding false =
      outside (prepared (false ∷ false ∷ false ∷ false ∷ false ∷ false ∷ false ∷ []) 1) closed false
  adding true =
      outside (prepared (true ∷ true ∷ true ∷ true ∷ true ∷ true ∷ true ∷ []) 1) closed false

  created-Check :
      (c g : ℕ) (xs : List Request) (k : Unit {0} → Program (Unit {0}))
      → Check AtEnd (k tt) (adding false)
      → Check AtEnd (k tt) (adding true)
      → Check AtEnd (each xs (create_member formats redis c g) k) (adding false)
  unfolding create_member redis_user_group_list
  created-Check c g xs k fresh bound =
      each-Check AtEnd adding (create_member formats redis c g) k after round xs false
    where
      after : (i : Bool) → Check AtEnd (k tt) (adding i)
      after false = fresh
      after true = bound

      round :
          (x : Request) (out rest : Program (Unit {0})) (i : Bool)
          → ((j : Bool) → Check AtEnd out (adding j))
          → ((j : Bool) → Check AtEnd rest (adding j))
          → Check AtEnd (create_member formats redis c g out x (λ _. rest)) (adding i)
      round x out rest true ho hr = let h = hr true in search depth 40
      round x out rest false ho hr = let h = hr true in search depth 40

  pub set_group_create-Check :
      (msg : Option Request) → Check AtEnd (set_group_create formats redis msg done) start
  unfolding set_group_create redis_group_member_list
  set_group_create-Check none = search
  set_group_create-Check (some msg_data) =
      let list = redis_user_group_list-Check formats redis AtEnd in
      (
        search,
        λ e. (
          (λ t. (
            list _ _ _ _ _ _ (λ ret. search (created-Check) depth 60),
            list _ _ _ _ _ _ (λ ret. search (created-Check) depth 60),
          )),
          tt,
        ),
      )

  -- The statement in the loops of set_group_change: to add a member, and to take one away.
  abbrev pub joining : Bool → Monitor
  joining false =
      outside (prepared (true ∷ true ∷ false ∷ false ∷ true ∷ false ∷ false ∷ []) 1) closed false
  joining true =
      outside (prepared (true ∷ true ∷ true ∷ true ∷ true ∷ true ∷ true ∷ []) 1) closed false

  abbrev pub leaving : Bool → Monitor
  leaving false = outside (prepared (true ∷ true ∷ false ∷ false ∷ false ∷ []) 1) closed false
  leaving true = outside (prepared (true ∷ true ∷ true ∷ true ∷ true ∷ []) 1) closed false

  module _ (k : Option Bool → Program (Unit {0})) where
    joined-Check :
        (i : Bool)
        → ((r : Option Bool) → Check AtEnd (k r) (joining false))
        → ((r : Option Bool) → Check AtEnd (k r) (joining true))
        → (xs : List Request) (r : Option Bool)
        → Check AtEnd (change_members formats redis (λ t. num t ∷ num t ∷ []) 5 xs r k) (joining i)
    unfolding change_members redis_user_group_list
    joined-Check false fresh bound [] r = fresh r
    joined-Check true fresh bound [] r = bound r
    joined-Check true fresh bound (x ∷ xs) r =
        let h = joined-Check true fresh bound xs in search depth 40
    joined-Check false fresh bound (x ∷ xs) r =
        let h = joined-Check true fresh bound xs in search depth 40

    left-Check :
        (i : Bool)
        → ((r : Option Bool) → Check AtEnd (k r) (leaving false))
        → ((r : Option Bool) → Check AtEnd (k r) (leaving true))
        → (xs : List Request) (r : Option Bool)
        → Check AtEnd (change_members formats redis (λ t. num t ∷ []) 4 xs r k) (leaving i)
    unfolding change_members redis_user_group_list
    left-Check false fresh bound [] r = fresh r
    left-Check true fresh bound [] r = bound r
    left-Check true fresh bound (x ∷ xs) r =
        let h = left-Check true fresh bound xs in search depth 40
    left-Check false fresh bound (x ∷ xs) r =
        let h = left-Check true fresh bound xs in search depth 40

  abbrev answered : Request → Option Bool → Program (Unit {0})
  answered msg_data r = answer_change formats redis msg_data r (λ _. call (free 0) done)

  answer_change-Check :
      (msg_data : Request) (a : Stage) (r : Option Bool)
      → Check AtEnd (answered msg_data r) (outside a closed false)
  unfolding answer_change redis_group_member_list
  answer_change-Check msg_data a r = search depth 40

  pub set_group_change-Check :
      (msg : Option Request) → Check AtEnd (set_group_change formats redis msg done) start
  unfolding set_group_change answer_change
  set_group_change-Check none = search
  set_group_change-Check (some msg_data) =
      let after = answer_change-Check msg_data in
      (
        (λ e. (joined-Check (answered msg_data) false (after _) (after _) _ none, tt)),
        λ e. (
          (λ e'. (left-Check (answered msg_data) false (after _) (after _) _ none, tt)),
          λ e'. after closed none,
        ),
      )
