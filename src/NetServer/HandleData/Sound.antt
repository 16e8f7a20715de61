-- ===== src/NetServer/HandleData/Sound.antt =====
-- How handle_data ends, and the tasks that it makes.
use db_proxy_server.EvBuffer.{EvBuffer}
use db_proxy_server.Message.Bytes.{Host}
use db_proxy_server.Message.{Message, MsgHead, parse_head, s_tag_value, c_tag_value, new_message}
use db_proxy_server.Framing.{Read, ready, waiting}
use db_proxy_server.Framing.Suffix.{IsSuffix, IsSuffix-trans, IsSuffix-drain, length-IsSuffix}
use db_proxy_server.Framing.Termination.{ReadEnds, next_head-ReadEnds}
use db_proxy_server.NetServer.HandleData.{
  Handled, returned, stray, out_of_fuel, with_task, take_msg, handle_msg, handle_data, handle_input,
}
use db_proxy_server.Prelude.{
  ℕ, zero, suc, ◌+◌, ◌≤◌, ◌<◌, ◌≡◌, refl, ap, sym, ◌∙◌, inl, inr, some, List, length, take,
  take-take, length-drop, length-take, ltb, ◌==◌, All, arith, Bool-cases, ltb→ge,
}

-- A task that the pool may run: the region holds the header that was read and a body of the length
-- that the header states, and is no larger than the receive buffer.
pub record IsTask (host : Host) (m : Message) : Type 0 where
  pub region : List ℕ
  pub held : m.m_msg ≡ some region
  pub sized : length region ≡ m.m_msg_head.pb_length + 27
  pub bounded : length region ≤ 8192
  pub read : m.m_msg_head ≡ parse_head host (take 27 region)
  pub s_tagged : m.m_msg_head.s_tag ≡ s_tag_value
  pub c_tagged : m.m_msg_head.c_tag ≡ c_tag_value

module _ (evb : EvBuffer) (host : Host) where
  open evb use {Buf, bytes, drain, remove}

  abbrev pub HandledEnds : Buf → Handled Buf → Type 0
  HandledEnds b (returned ms c) = All (IsTask host) ms × IsSuffix evb b c
  HandledEnds b (stray ms) = All (IsTask host) ms
  HandledEnds b out_of_fuel = ⊥

  HandledEnds-after :
      {a b : Buf} (r : Handled Buf) → IsSuffix evb a b → HandledEnds b r → HandledEnds a r
  HandledEnds-after (returned ms c) p q = (q.0, IsSuffix-trans evb p q.1)
  HandledEnds-after (stray ms) p q = q
  HandledEnds-after out_of_fuel p q = absurd q

  with_task-Ends :
      (b : Buf) (m : Message) (r : Handled Buf)
      → IsTask host m
      → HandledEnds b r
      → HandledEnds b (with_task m r)
  with_task-Ends b m (returned ms c) t q = ((t, q.0), q.1)
  with_task-Ends b m (stray ms) t q = (t, q)
  with_task-Ends b m out_of_fuel t q = absurd q

  take_msg-Ends :
      (again : Buf → Handled Buf) (head : MsgHead) (b : Buf)
      → head.pb_length + 27 ≤ length (bytes b)
      → head.pb_length + 27 ≤ 8192
      → head ≡ parse_head host (take 27 (bytes b))
      → head.s_tag ≡ s_tag_value
      → head.c_tag ≡ c_tag_value
      → ((c : Buf) → length (bytes c) < length (bytes b) → HandledEnds c (again c))
      → HandledEnds b (take_msg evb again head b)
  unfolding take_msg
  take_msg-Ends again head b enough small h s c loop =
      let n = head.pb_length + 27 in
      let (got, left) = evb.remove-bytes b n in
      let task : IsTask host (record { m_msg = some (remove b n).0; m_msg_head = head }) = record {
        region = (remove b n).0;
        held = refl;
        sized = omega (arith, ap length got, length-take n (bytes b));
        bounded = omega (arith, ap length got, length-take n (bytes b));
        read =
            h
            ∙ ap (parse_head host)
                (sym (take-take 27 n (bytes b) (omega arith)) ∙ ap (take 27) (sym got));
        s_tagged = s;
        c_tagged = c;
      } in
      let shorter : IsSuffix evb b (remove b n).1 = record { taken = n; rest = left } in
      elim (Bool-cases (evb.get_length b == n)) [
        | inl e ↦ rw (e, take_msg) ((task, tt), shorter)
        | inr e ↦
            rw (e, take_msg)
              (with_task-Ends b _ (again (remove b n).1) task (
                HandledEnds-after (again (remove b n).1) shorter
                  (loop (remove b n).1 (omega (arith, ap length left, length-drop n (bytes b))))))
      ]

  handle_msg-Ends :
      (again : Buf → Handled Buf) (b : Buf) (r : Read Buf)
      → ReadEnds evb host b r
      → ((c : Buf) → length (bytes c) < length (bytes b) → HandledEnds c (again c))
      → HandledEnds b (handle_msg evb again r)
  unfolding handle_msg
  handle_msg-Ends again b (waiting head c) k loop = (tt, k)
  handle_msg-Ends again b Read.stray k loop = tt
  handle_msg-Ends again b Read.out_of_fuel k loop = absurd k
  handle_msg-Ends again b (ready head c) k loop =
      let n = head.pb_length + 27 in
      elim (Bool-cases (ltb (evb.get_length c) n)) [
        | inl short ↦ rw (short, handle_msg) (tt, k.0)
        | inr enough ↦ elim (Bool-cases (ltb 8192 n)) [
          | inl large ↦
              rw (enough, large, handle_msg)
                (HandledEnds-after (again (drain c n))
                  (IsSuffix-trans evb k.0 (IsSuffix-drain evb c n))
                  (loop (drain c n) (
                    omega (
                      arith,
                      length-IsSuffix evb k.0,
                      k.1,
                      ap length (evb.drain-bytes c n),
                      length-drop n (bytes c),
                    ))))
          | inr small ↦
              rw (enough, small, handle_msg)
                (HandledEnds-after (take_msg evb again head c) k.0 (
                  take_msg-Ends again head c
                    (omega (arith, ltb→ge (evb.get_length c) n enough, evb.get_length-bytes c))
                    (ltb→ge 8192 n small) k.2 k.3 k.4
                    (λ d l. loop d (omega (arith, l, length-IsSuffix evb k.0)))))
        ]
      ]

  handle_data-Ends :
      (fuel : ℕ) (b : Buf) → length (bytes b) < fuel → HandledEnds b (handle_data evb host fuel b)
  unfolding handle_data
  handle_data-Ends zero b h = absurd (omega arith)
  handle_data-Ends (suc fuel) b h =
      handle_msg-Ends (handle_data evb host fuel) b _
        (next_head-ReadEnds evb host new_message.m_msg_head b)
        (λ c l. handle_data-Ends fuel c (omega arith))

  -- On every input handle_data ends or comes to a stray read of read_head (of memory behind an
  -- extent), and each task that it made, also in front of a stray read, holds one message whole: a region of pb_length + 27 bytes, 8192 at
  -- most, whose first 27 bytes are the header that was read, with both tags. Where it ends, what it
  -- leaves in the buffer is a suffix of the input.
  pub handle_input-Ends : (b : Buf) → HandledEnds b (handle_input evb host b)
  unfolding handle_input
  handle_input-Ends b = handle_data-Ends _ b (omega (arith, evb.get_length-bytes b))
