-- ===== src/Cache/Selected.antt =====
-- Which database the commands of cache_conn reach.
use db_proxy_server.Cache.{
  Reply, Answer, connect_failed, connected, no_reply, reply, Command, select, CacheConn, is_ok,
  run_command,
}
use db_proxy_server.Prelude.{ℕ, ◌≡◌, refl, ap, true, false, none, some, List, [], ◌∷◌, ◌++◌}
use mathlib.Core.List.{append_assoc}

-- A connection without a context, and one with database `db` selected. `n` is the configured one.
abbrev pub closed : ℕ → List Answer → List (ℕ × Command) → CacheConn
closed n answers sent = record { m_context = none; redis_num = n; answers = answers; sent = sent }

abbrev pub opened : ℕ → ℕ → List Answer → List (ℕ × Command) → CacheConn
opened db n answers sent = record {
  m_context = some (record { db = db; err = false });
  redis_num = n;
  answers = answers;
  sent = sent;
}

-- One whose context has had no reply.
abbrev pub broken : ℕ → List Answer → List (ℕ × Command) → CacheConn
broken n answers sent = record {
  m_context = some (record { db = 0; err = true });
  redis_num = n;
  answers = answers;
  sent = sent;
}

module _ (n : ℕ) (command : Command) (rest : List Answer) (log : List (ℕ × Command)) where
  -- On a connection without a context, where `select` is answered OK: once connected, a command goes
  -- to the configured database, right behind the `select`, and the context stays with a reply and is
  -- dropped without one. If the connect fails, nothing is sent and there is still no context.
  pub run_command-closed :
      (a : Answer) (r : Reply)
      → is_ok a ≡ true
      → (run_command command (closed n (connected ∷ a ∷ reply r ∷ rest) log)
          ≡ (reply r, opened n n rest (log ++ ((0, select n) ∷ (n, command) ∷ []))))
        × (run_command command (closed n (connected ∷ a ∷ no_reply ∷ rest) log)
            ≡ (no_reply, closed n rest (log ++ ((0, select n) ∷ (n, command) ∷ []))))
        × (run_command command (closed n (connect_failed ∷ rest) log)
            ≡ (no_reply, closed n rest log))
  unfolding run_command
  run_command-closed a r ok = (
    rw (ok, run_command) (ap (λ (l : List (ℕ × Command)). (reply r, opened n n rest l)) (both n)),
    rw (ok, run_command) (ap (λ (l : List (ℕ × Command)). (no_reply, closed n rest l)) (both n)),
    refl,
  )
    where
      both :
          (db : ℕ)
          → (log ++ ((0, select n) ∷ [])) ++ ((db, command) ∷ [])
            ≡ log ++ ((0, select n) ∷ (db, command) ∷ [])
      both db = append_assoc log ((0, select n) ∷ []) ((db, command) ∷ [])

  -- Where `select` has a reply that is not OK, the command that opened the connection fails and is not
  -- sent, but the context stays: the next command goes out with no `select` before it, to database 0,
  -- whatever database is configured. Where `select` has no reply at all, the context stays too, and the
  -- next command fails without being sent; only then is the context dropped.
  pub run_command-unselected :
      (next : Command) (bad r : Reply)
      → is_ok (reply bad) ≡ false
      → (run_command command (closed n (connected ∷ reply bad ∷ reply r ∷ rest) log)
          ≡ (no_reply, opened 0 n (reply r ∷ rest) (log ++ ((0, select n) ∷ []))))
        × (run_command next
              (run_command command (closed n (connected ∷ reply bad ∷ reply r ∷ rest) log)).1
            ≡ (reply r, opened 0 n rest (log ++ ((0, select n) ∷ (0, next) ∷ []))))
        × (run_command command (closed n (connected ∷ no_reply ∷ rest) log)
            ≡ (no_reply, broken n rest (log ++ ((0, select n) ∷ []))))
        × (run_command next (run_command command (closed n (connected ∷ no_reply ∷ rest) log)).1
            ≡ (no_reply, closed n rest (log ++ ((0, select n) ∷ []))))
  unfolding run_command
  run_command-unselected next bad r e = (
    rw (e, run_command),
    rw (e, run_command)
        (ap (λ (l : List (ℕ × Command)). (reply r, opened 0 n rest l))
          (append_assoc log ((0, select n) ∷ []) ((0, next) ∷ []))),
    refl,
    refl,
  )
