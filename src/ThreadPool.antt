-- ===== src/ThreadPool.antt =====
-- src/thread_pool.h and src/thread_pool.cpp: the pool that deals tasks to its threads in turn, and
-- the queue of each thread. A call of add_task, and one round of task_thread::run under its lock,
-- is one step; the threads' order is any list of steps.
pub mod Deal
use db_proxy_server.Prelude.{
  ℕ, zero, suc, ◌+◌, ◌≡◌, Option, none, some, List, [], ◌∷◌, ◌++◌, get_elem?, get_or, set,
  replicate, ◌==◌, if◌then◌else◌,
}

-- `queues` holds m_deque_task of each thread of m_task_thread_array, front first.
pub record ThreadPool {ℓ} (A : Type ℓ) : Type ℓ where
  pub m_pool_size : ℕ
  pub queues : List (List A)
  pub m_task_index : ℕ

-- What happens to the pool: a task arrives, or thread `i` runs one round of its loop.
pub data Event {ℓ} (A : Type ℓ) : Type ℓ where
  add : A → Event A
  round : ℕ → Event A

module _ {ℓ} {A : Type ℓ} where
  -- thread_pool::init with every thread started, on a configured size.
  unfoldable pub init : ℕ → ThreadPool A
  init n = record { m_pool_size = n; queues = replicate n []; m_task_index = 0 }

  -- task_thread::push_task.
  unfoldable pub push_task : List A → A → List A
  push_task queue t = queue ++ (t ∷ [])

  -- thread_pool::add_task; `none` is an access outside the array.
  unfoldable pub add_task : ThreadPool A → A → Option (ThreadPool A)
  unfolding push_task
  add_task p t =
      let i = if p.m_task_index == p.m_pool_size then 0 else p.m_task_index in
      elim (get_elem? p.queues i) [
        | none ↦ none
        | some queue ↦
            some (record p { queues = set p.queues i (push_task queue t); m_task_index = suc i })
      ]

  -- One round of task_thread::run: the front task leaves the queue and is run, or the thread waits.
  unfoldable pub take_front : List A → List A × List A
  take_front [] = ([], [])
  take_front (t ∷ queue) = (queue, t ∷ [])

  -- The tasks that thread `i` ran are returned with the thread's number.
  unfoldable pub run_round : ThreadPool A → ℕ → ThreadPool A × List A
  unfolding take_front
  run_round p i =
      let (queue, ran) = take_front (get_or p.queues i []) in
      (record p { queues = set p.queues i queue }, ran)

  -- What thread `i` runs in a step.
  abbrev pub ran_by : ℕ → ℕ → List A → List A
  ran_by i j ran = if j == i then ran else []

  -- A history of steps: the pool after it, and what thread `i` ran, in order.
  unfoldable pub run_all : ℕ → ThreadPool A → List (Event A) → Option (ThreadPool A × List A)
  run_all i p [] = some (p, [])
  run_all i p (add t ∷ events) = elim (add_task p t) [ none ↦ none | some q ↦ run_all i q events ]
  run_all i p (round j ∷ events) =
      let (q, ran) = run_round p j in
      elim (run_all i q events) [
        | none ↦ none
        | some (r, later) ↦ some (r, ran_by i j ran ++ later)
      ]
