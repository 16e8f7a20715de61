-- ===== src/ThreadPool/Deal.antt =====
-- Which tasks a thread runs, and in which order.
use db_proxy_server.ThreadPool.{
  ThreadPool, Event, add, round, init, add_task, take_front, run_round, ran_by, run_all,
}
use db_proxy_server.Prelude.{
  ℕ, zero, suc, ◌+◌, ◌%◌, ◌<◌, ◌≡◌, ◌≢◌, ◌⊎◌, inl, inr, refl, ap, sym, ◌∙◌, some, List, [], ◌∷◌,
  ◌++◌, length, length-set, length-replicate, get_elem?, get_or, set, replicate, ◌==◌, ==→eq, ==→ne,
  if◌then◌else◌, arith, Bool-cases,
}
use native.Mathlib.Nat.{mod-add-mod, mod_self, mod-lt, mod-eq_of_lt}
use mathlib.Core.List.{append-nil, append_assoc}

next_mod :
    (k n : ℕ)
    → 0 < n
    → ((k % n + 1 ≡ n) × ((k + 1) % n ≡ 0)) ⊎ ((k % n + 1 < n) × ((k + 1) % n ≡ k % n + 1))
next_mod k n h = elim (Bool-cases (k % n + 1 == n)) [
  | inl e ↦ inl (==→eq _ _ e, sym (mod-add-mod k n 1) ∙ rw (==→eq (k % n + 1) n e) (mod_self n))
  | inr e ↦
      let small : k % n + 1 < n = omega (arith, ==→ne (k % n + 1) n e, mod-lt k h) in
      inr (small, sym (mod-add-mod k n 1) ∙ mod-eq_of_lt small)
]

module _ {ℓ} {A : Type ℓ} where
  -- The tasks of thread `i` among the tasks from number `k` on.
  unfoldable pub share : ℕ → ℕ → ℕ → List (Event A) → List A
  share n i k [] = []
  share n i k (add t ∷ events) =
      if k % n == i then t ∷ share n i (k + 1) events else share n i (k + 1) events
  share n i k (round j ∷ events) = share n i k events

  get_or-set_self :
      (xs : List (List A)) (i : ℕ) (v : List A) → i < length xs → get_or (set xs i v) i [] ≡ v
  get_or-set_self [] i v h = absurd (omega arith)
  get_or-set_self (x ∷ xs) zero v h = refl
  get_or-set_self (x ∷ xs) (suc i) v h = get_or-set_self xs i v (omega arith)

  get_or-set_ne :
      (xs : List (List A)) (i j : ℕ) (v : List A)
      → i ≢ j
      → get_or (set xs i v) j [] ≡ get_or xs j []
  get_or-set_ne [] i j v ne = refl
  get_or-set_ne (x ∷ xs) zero zero v ne = absurd (ne refl)
  get_or-set_ne (x ∷ xs) zero (suc j) v ne = refl
  get_or-set_ne (x ∷ xs) (suc i) zero v ne = refl
  get_or-set_ne (x ∷ xs) (suc i) (suc j) v ne = get_or-set_ne xs i j v (λ e. ne (ap suc e))

  get_elem?-get_or :
      (xs : List (List A)) (i : ℕ) → i < length xs → get_elem? xs i ≡ some (get_or xs i [])
  get_elem?-get_or [] i h = absurd (omega arith)
  get_elem?-get_or (x ∷ xs) zero h = refl
  get_elem?-get_or (x ∷ xs) (suc i) h = get_elem?-get_or xs i (omega arith)

  -- Where the next task goes.
  target : ThreadPool A → ℕ
  target p = if p.m_task_index == p.m_pool_size then 0 else p.m_task_index

  -- `k` tasks were added.
  record Inv (n k : ℕ) (p : ThreadPool A) : Type ℓ where
    size : p.m_pool_size ≡ n
    threads : length p.queues ≡ n
    turn : target p ≡ k % n

  queue_of : ThreadPool A → ℕ → List A
  queue_of p i = get_or p.queues i []

  init-Inv : (n : ℕ) → 0 < n → Inv n 0 (init n)
  unfolding init target
  init-Inv n pos = record {
    size = refl;
    threads = length-replicate n [];
    turn = ground (arith, mod-eq_of_lt pos);
  }

  added : ThreadPool A → A → ThreadPool A
  added p t = record p {
    queues = set p.queues (target p) (queue_of p (target p) ++ (t ∷ []));
    m_task_index = suc (target p);
  }

  target-lt : (n k : ℕ) (p : ThreadPool A) → 0 < n → Inv n k p → target p < length p.queues
  target-lt n k p pos v = omega (arith, v.turn, v.threads, mod-lt k pos)

  add_task_lem :
      (n k : ℕ) (p : ThreadPool A) (t : A) → 0 < n → Inv n k p → add_task p t ≡ some (added p t)
  unfolding add_task added target queue_of
  add_task_lem n k p t pos v =
      rw (get_elem?-get_or p.queues (target p) (target-lt n k p pos v), add_task)

  added-Inv : (n k : ℕ) (p : ThreadPool A) (t : A) → 0 < n → Inv n k p → Inv n (k + 1) (added p t)
  unfolding added target
  added-Inv n k p t pos v = record {
    size = v.size;
    threads = length-set p.queues _ _ ∙ v.threads;
    turn = ground (arith, v.turn, v.size, next_mod k n pos);
  }

  queue_of-added :
      (n k i : ℕ) (p : ThreadPool A) (t : A)
      → 0 < n
      → Inv n k p
      → queue_of (added p t) i ≡ (if k % n == i then queue_of p i ++ (t ∷ []) else queue_of p i)
  unfolding added queue_of
  queue_of-added n k i p t pos v = rw (← v.turn) (elim (Bool-cases (target p == i)) [
    | inl e ↦ rw e (
        ap
          (λ (j : ℕ).
            get_or (set p.queues (target p) (get_or p.queues (target p) [] ++ (t ∷ []))) j [])
          (sym (==→eq _ _ e))
        ∙ get_or-set_self p.queues (target p) _ (target-lt n k p pos v)
        ∙ ap (λ (j : ℕ). get_or p.queues j [] ++ (t ∷ [])) (==→eq _ _ e))
    | inr e ↦ rw e (get_or-set_ne p.queues (target p) i _ (==→ne _ _ e))
  ])

  round-Inv : (n k j : ℕ) (p : ThreadPool A) → Inv n k p → Inv n k (run_round p j).0
  unfolding run_round target
  round-Inv n k j p v = record {
    size = v.size;
    threads = length-set p.queues _ _ ∙ v.threads;
    turn = v.turn;
  }

  -- A round takes the front of one queue.
  round_front :
      (i j : ℕ) (p : ThreadPool A)
      → ran_by i j (run_round p j).1 ++ queue_of (run_round p j).0 i ≡ queue_of p i
  unfolding run_round queue_of
  round_front i j p = elim (Bool-cases (j == i)) [
    | inl e ↦ rw (e, ← ==→eq j i e) (taken p.queues j)
    | inr e ↦ rw e (get_or-set_ne p.queues j i _ (==→ne j i e))
  ]
    where
      taken :
          (qs : List (List A)) (j : ℕ)
          → (take_front (get_or qs j [])).1
              ++ get_or (set qs j (take_front (get_or qs j [])).0) j []
            ≡ get_or qs j []
      taken [] j = refl
      taken ([] ∷ qs) zero = refl
      taken ((x ∷ q) ∷ qs) zero = refl
      taken (q ∷ qs) (suc j) = taken qs j

  run_all-share :
      (n k i : ℕ) (p : ThreadPool A) (events : List (Event A))
      → 0 < n
      → Inv n k p
      → (q : ThreadPool A) × (ran : List A) × (run_all i p events ≡ some (q, ran))
        × (ran ++ queue_of q i ≡ queue_of p i ++ share n i k events)
  unfolding run_all share
  run_all-share n k i p [] pos v = (p, [], refl, sym (append-nil (queue_of p i)))
  run_all-share n k i p (add t ∷ events) pos v =
      let (q, ran, e, s) =
        run_all-share n (k + 1) i (added p t) events pos (added-Inv n k p t pos v) in
      (q, ran, rw (add_task_lem n k p t pos v, run_all) e, s ∙ dealt (share n i (k + 1) events))
    where
      dealt :
          (rest : List A)
          → queue_of (added p t) i ++ rest ≡ queue_of p i ++ (if k % n == i then t ∷ rest else rest)
      dealt rest = rw (queue_of-added n k i p t pos v) (elim (Bool-cases (k % n == i)) [
        | inl e ↦ rw e (append_assoc (queue_of p i) (t ∷ []) rest)
        | inr e ↦ rw e
      ])
  run_all-share n k i p (round j ∷ events) pos v =
      let (q, ran, e, s) = run_all-share n k i (run_round p j).0 events pos (round-Inv n k j p v) in
      (
        q,
        ran_by i j (run_round p j).1 ++ ran,
        rw (e, run_all),
        append_assoc (ran_by i j (run_round p j).1) ran (queue_of q i)
            ∙ ap (◌++◌ (ran_by i j (run_round p j).1)) s
            ∙ sym (append_assoc (ran_by i j (run_round p j).1) _ (share n i k events))
            ∙ ap (λ (l : List A). l ++ share n i k events) (round_front i j p),
      )

  -- On a pool of at least one thread, whatever the order of arrivals and of the threads' rounds, no
  -- step leaves the array, and at any time what thread `i` has run, followed by what still waits in
  -- its queue, is its share of the arrivals: those whose number is `i` modulo the pool's size, in
  -- the order of arrival. No task is lost, run twice or overtaken by one of the same thread.
  pub run_all-init :
      (n i : ℕ) (events : List (Event A))
      → 0 < n
      → i < n
      → (q : ThreadPool A) × (ran : List A) × (run_all i (init n) events ≡ some (q, ran))
        × (ran ++ get_or q.queues i [] ≡ share n i 0 events)
  unfolding init queue_of
  run_all-init n i events pos h =
      let (q, ran, e, s) = run_all-share n 0 i (init n) events pos (init-Inv n pos) in
      (q, ran, e, s ∙ ap (λ (l : List A). l ++ share n i 0 events) (empty n i))
    where
      empty : (n i : ℕ) → get_or (replicate {A = List A} n []) i [] ≡ []
      empty zero i = refl
      empty (suc n) zero = refl
      empty (suc n) (suc i) = empty n i
