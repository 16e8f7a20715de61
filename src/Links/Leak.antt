-- ===== src/Links/Leak.antt =====
-- Sockets of failed connects.
use db_proxy_server.Links.{
  connect_failed, armed, NetWork, do_router_connect, do_router_re_connect, or_else, connect_router,
  router_timer,
}
use db_proxy_server.Prelude.{ℕ, ◌≡◌, refl, ap, sym, ◌∙◌, List, [], ◌∷◌, ◌++◌}
use mathlib.Core.List.{reverse, reverse-cons, append_assoc}

-- The timer runs again and again while the router refuses the connection.
unfoldable pub refuse : List ℕ → NetWork → NetWork
unfolding router_timer
refuse [] s = s
refuse (fd ∷ fds) s = refuse fds (router_timer (connect_failed fd) s)

-- While the router refuses connections, every run of the timer leaves one more socket open, of
-- which no connection knows: the timer is pending again, what is watched is as before, and the
-- sockets of all the attempts are open besides those that were.
pub refuse_lem :
    (fd : ℕ) (fds : List ℕ) (s : NetWork)
    → ((refuse (fd ∷ fds) s).open_fds ≡ reverse (fd ∷ fds) ++ s.open_fds)
      × ((refuse (fd ∷ fds) s).watched ≡ s.watched)
      × ((refuse (fd ∷ fds) s).m_router_timer ≡ armed)
unfolding refuse connect_router do_router_connect do_router_re_connect or_else
refuse_lem fd [] s = (refl, refl, refl)
refuse_lem fd (x ∷ fds) s =
    let (opened, kept, pending) = refuse_lem x fds (router_timer (connect_failed fd) s) in
    (
      opened
          ∙ sym (append_assoc (reverse (x ∷ fds)) (fd ∷ []) s.open_fds)
          ∙ ap (λ (l : List ℕ). l ++ s.open_fds) (sym (reverse-cons fd (x ∷ fds))),
      kept,
      pending,
    )
