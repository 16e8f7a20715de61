-- ===== src/Handlers/Loops.antt =====
-- The loops of the handlers under the automaton, by an invariant, and the handlers that have one.
use db_proxy_server.Prelude.{ℕ, Bool, true, false, Option, none, some, List, [], ◌∷◌, ◌++◌}
use db_proxy_server.Handlers.Program.{
  Cell, Built, Request, Formats, Program, done, Body, gather, each,
}
use db_proxy_server.Handlers.Discipline.{Monitor, closed, stored, start}
use db_proxy_server.Handlers.Check.{Check}
use db_proxy_server.Handlers.Sound.{AtEnd}
use db_proxy_server.Handlers.Parts.{outside, redis_group_member_list-Check}
use db_proxy_server.Handlers.Cache.{redis_user_group_list}
use db_proxy_server.Handlers.ServerQueries.{role_authorities, get_user_role}
use db_proxy_server.Handlers.GroupMembers.{dissolved_member, set_group_dissolve}

module _ {R A I : Type 0} (Q : R → Monitor → Type 0) (state : I → Monitor) where
  -- A round goes on, by a break or at its end, in one of the states.
  pub each-Check :
      (body : Program R → A → Body R (Unit {0})) (k : Unit {0} → Program R)
      → ((i : I) → Check Q (k tt) (state i))
      → ((x : A) (out rest : Program R) (i : I)
          → ((j : I) → Check Q out (state j))
          → ((j : I) → Check Q rest (state j))
          → Check Q (body out x (λ _. rest)) (state i))
      → (xs : List A) (i : I) → Check Q (each xs body k) (state i)
  each-Check body k after round [] i = after i
  each-Check body k after round (x ∷ xs) i =
      round x (k tt) (each xs body k) i after (each-Check body k after round xs)

  pub gather-Check :
      {B : Type 0} (body : (List B → Program R) → A → Body R (List B)) (k : List B → Program R)
      → ((bs : List B) (i : I) → Check Q (k bs) (state i))
      → ((x : A) (stop rest : List B → Program R) (i : I)
          → ((bs : List B) (j : I) → Check Q (stop bs) (state j))
          → ((bs : List B) (j : I) → Check Q (rest bs) (state j))
          → Check Q (body stop x rest) (state i))
      → (xs : List A) (built : List B) (i : I) → Check Q (gather xs body built k) (state i)
  gather-Check body k after round [] built i = after built i
  gather-Check body k after round (x ∷ xs) built i =
      round x (λ part. k (built ++ part)) (λ part. gather xs body (built ++ part) k) i
        (λ bs. after (built ++ bs)) (λ bs. gather-Check body k after round xs (built ++ bs))

abbrev pub reading : Bool → Unit {0} → Monitor
reading d _ = outside stored closed d

roles-Check :
    (c : ℕ) (xs : List (List Cell)) (k : List Built → Program (Unit {0}))
    → ((bs : List Built) → Check AtEnd (k bs) (reading false tt))
    → Check AtEnd (gather xs (role_authorities c) [] k) (reading false tt)
unfolding role_authorities
roles-Check c xs k after =
    gather-Check AtEnd (reading false) (role_authorities c) k (λ bs i. after bs)
      (λ x stop rest i hs hr. search depth 20) xs [] tt

module _ (formats : Formats) (redis : Bool) where
  pub get_user_role-Check : (msg : Option Request) → Check AtEnd (get_user_role msg done) start
  unfolding get_user_role
  get_user_role-Check none = search
  get_user_role-Check (some msg_data) = search (roles-Check) depth 20

  dissolved-Check :
      (xs : List (List Cell)) (k : Unit {0} → Program (Unit {0}))
      → Check AtEnd (k tt) (reading true tt)
      → Check AtEnd (each xs (dissolved_member formats redis) k) (reading true tt)
  unfolding dissolved_member redis_user_group_list
  dissolved-Check xs k after =
      each-Check AtEnd (reading true) (dissolved_member formats redis) k (λ i. after)
        (λ x out rest i ho hr. search depth 20) xs tt

  pub set_group_dissolve-Check :
      (msg : Option Request) → Check AtEnd (set_group_dissolve formats redis msg done) start
  unfolding set_group_dissolve
  set_group_dissolve-Check none = search
  set_group_dissolve-Check (some msg_data) =
      let list = redis_group_member_list-Check formats redis AtEnd in
      (
        search,
        λ e. (
          (λ t. (
            list _ _ _ _ _ _ (λ ret. search (dissolved-Check) depth 20),
            list _ _ _ _ _ _ (λ ret. search (dissolved-Check) depth 20),
          )),
          tt,
        ),
      )
