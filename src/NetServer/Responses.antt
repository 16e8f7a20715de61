-- ===== src/NetServer/Responses.antt =====
-- The queue of responses of src/net_server.cpp, between the threads of the pool and the thread that
-- sends. A call of add_response, or of send_response up to its unlock, is one step.
use mathlib.Core.List.{append-nil, append_assoc}
use db_proxy_server.Prelude.{◌≡◌, ap, sym, ◌∙◌, Option, none, some, List, [], ◌∷◌, ◌++◌}

-- A thread of the pool calls add_response, or the thread that sends goes through its loop once.
pub data Turn {ℓ} (A : Type ℓ) : Type ℓ where
  handled : A → Turn A
  sending : Turn A

module _ {ℓ} {A : Type ℓ} where
  unfoldable pub add_response : List A → A → List A
  add_response queue t = queue ++ (t ∷ [])

  -- The task that is sent, and none when the thread waits.
  unfoldable pub send_response : List A → List A × Option A
  send_response [] = ([], none)
  send_response (t ∷ queue) = (queue, some t)

  abbrev pub sent_first : Option A → List A → List A
  sent_first none sent = sent
  sent_first (some t) sent = t ∷ sent

  -- The queue behind a history of turns, and the tasks that were sent, in order.
  unfoldable pub serve : List A → List (Turn A) → List A × List A
  unfolding add_response send_response
  serve queue [] = (queue, [])
  serve queue (handled t ∷ turns) = serve (add_response queue t) turns
  serve queue (sending ∷ turns) =
      let (queue', task) = send_response queue in
      let (rest, sent) = serve queue' turns in (rest, sent_first task sent)

  -- The tasks that were handled.
  abbrev pub handled_in : List (Turn A) → List A
  handled_in [] = []
  handled_in (handled t ∷ turns) = t ∷ handled_in turns
  handled_in (sending ∷ turns) = handled_in turns

  -- In any history, the tasks that were sent, followed by those that wait, are the ones that waited at
  -- its beginning, followed by those that were handled in it: each response is sent at most once, in
  -- the order of add_response, and none is lost.
  pub serve-order :
      (queue : List A) (turns : List (Turn A))
      → (serve queue turns).1 ++ (serve queue turns).0 ≡ queue ++ handled_in turns
  unfolding serve add_response send_response
  serve-order queue [] = sym (append-nil queue)
  serve-order queue (handled t ∷ turns) =
      serve-order (add_response queue t) turns ∙ append_assoc queue (t ∷ []) (handled_in turns)
  serve-order [] (sending ∷ turns) = serve-order [] turns
  serve-order (t ∷ queue) (sending ∷ turns) = ap (◌∷◌ t) (serve-order queue turns)
