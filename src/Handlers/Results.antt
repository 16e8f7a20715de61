-- ===== src/Handlers/Results.antt =====
-- What a program leaves behind, for every answer: its result and its log.
use db_proxy_server.Prelude.{◌≡◌, refl, true, false, List, [], ◌∷◌}
use db_proxy_server.Handlers.Program.{Program, done, command, branch}
use db_proxy_server.Handlers.Check.{Each}
use db_proxy_server.Handlers.Run.{Event, World, run}
use db_proxy_server.Handlers.Sound.{Each-answer}

-- `Q` of the result and the log, in every run.
abbrev pub Leaves : {R : Type 0} → (R → List Event → Type 0) → Program R → Type 0
Leaves Q (done r) = Q r []
Leaves Q (command c k) = Each c (λ a. Leaves (λ r log. Q r ((c, a) ∷ log)) (k a))
Leaves Q (branch b p q) = (b ≡ true → Leaves Q p) × (b ≡ false → Leaves Q q)

pub Leaves-run :
    (world : World) {R : Type 0} (Q : R → List Event → Type 0) (p : Program R) (s : world.State)
    → Leaves Q p
    → Q (run world p s).0 (run world p s).1
unfolding run
Leaves-run world Q (done r) s h = h
Leaves-run world Q (command c k) s h =
    let (a, s') = world.answer s c in
    Leaves-run world (λ r log. Q r ((c, a) ∷ log)) (k a) s'
      (Each-answer c (λ b. Leaves (λ r log. Q r ((c, b) ∷ log)) (k b)) h a)
Leaves-run world Q (branch true p q) s h = Leaves-run world Q p s (h.0 refl)
Leaves-run world Q (branch false p q) s h = Leaves-run world Q q s (h.1 refl)
