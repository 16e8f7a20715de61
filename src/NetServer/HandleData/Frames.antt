-- ===== src/NetServer/HandleData/Frames.antt =====
-- handle_data over a stream of frames that write_msg wrote, the last of them perhaps not yet whole.
use db_proxy_server.EvBuffer.{EvBuffer}
use db_proxy_server.Message.Bytes.{Host}
use db_proxy_server.Message.{Message, MsgHead, parse_head, new_message}
use db_proxy_server.Message.Frame.{frame, length-frame}
use db_proxy_server.Message.RoundTrip.{IsHead, received, parse_head-take-frame}
use db_proxy_server.Framing.{ready, is_tagged, next_head}
use db_proxy_server.Framing.Termination.{head_of, read_head_ready, read_head_short}
use db_proxy_server.Framing.Resync.{read_head-frame}
use db_proxy_server.NetServer.HandleData.{
  Handled, returned, with_task, take_msg, handle_msg, handle_data, handle_input,
}
use db_proxy_server.Prelude.{
  ℕ, zero, suc, ◌+◌, ◌≤◌, ◌<◌, ◌≡◌, ◌⊎◌, inl, inr, refl, ap, sym, subst, ◌∙◌, some, List, [], ◌∷◌,
  ◌++◌, map, length, length-append, take, take-append_length, take-append-le, drop,
  drop-append_length, ltb, ==→eq, ltb→lt, ltb→ge, lt→ltb, ge→ltb, ◌==◌, All, arith, Bool-cases,
}
use mathlib.Core.List.{append-nil}

-- A message as its sender had it.
pub record Sent : Type 0 where
  pub head : MsgHead
  pub payload : List ℕ

-- Its fields fit their types, the length field is right, and the frame fits the receive buffer.
pub record IsSendable (s : Sent) : Type 0 where
  pub fits : IsHead s.head
  pub sized : length s.payload ≡ s.head.pb_length
  pub bounded : s.head.pb_length + 27 ≤ 8192

module _ (host : Host) where
  abbrev pub wire : Sent → List ℕ
  wire s = frame host s.head s.payload

  -- The frames of the messages, one after the other, in front of `tail`.
  abbrev pub stream : List Sent → List ℕ → List ℕ
  stream [] tail = tail
  stream (s ∷ ss) tail = wire s ++ stream ss tail

  -- The task that the receiver makes of a message.
  abbrev pub as_task : Sent → Message
  as_task s = record { m_msg = some (wire s); m_msg_head = received host s.head s.payload }

  -- The beginning of a frame: some bytes of it, `more`, are still to come.
  pub record IsPartial (tail : List ℕ) : Type 0 where
    pub whole : Sent
    pub more : List ℕ
    pub sendable : IsSendable whole
    pub split : wire whole ≡ tail ++ more
    pub missing : 0 < length more

  -- The same over a region that is yet to be shown to be the frame.
  abbrev task_of : List ℕ → Sent → Message
  task_of region s = record { m_msg = some region; m_msg_head = received host s.head s.payload }

  length-wire : (s : Sent) → IsSendable s → length (wire s) ≡ s.head.pb_length + 27
  length-wire s k = omega (arith, length-frame host s.head s.payload, k.sized)

  module _ (evb : EvBuffer) where
    open evb use {Buf, bytes, get_length, remove}

    -- One frame at the front becomes one task.
    handle_msg-frame :
        (again : Buf → Handled Buf) (b : Buf) (s : Sent) (rest : List ℕ)
        → IsSendable s
        → bytes b ≡ wire s ++ rest
        → handle_msg evb again (ready (received host s.head s.payload) b)
          ≡ take_msg evb again (received host s.head s.payload) b
    unfolding handle_msg
    handle_msg-frame again b s rest k e = rw (
      ge→ltb (get_length b) (s.head.pb_length + 27) (
          omega (
            arith,
            evb.get_length-bytes b,
            ap length e,
            length-append (wire s) rest,
            length-wire s k,
          )),
      ge→ltb 8192 (s.head.pb_length + 27) k.bounded,
      handle_msg,
    )

    -- What is removed for a frame at the front, and what is left.
    remove-frame :
        (b : Buf) (s : Sent) (rest : List ℕ)
        → IsSendable s
        → bytes b ≡ wire s ++ rest
        → ((remove b (s.head.pb_length + 27)).0 ≡ wire s)
          × (bytes (remove b (s.head.pb_length + 27)).1 ≡ rest)
    remove-frame b s rest k e =
        let n = s.head.pb_length + 27 in
        let (got, left) = evb.remove-bytes b n in
        (
          got ∙ ap (take n) e ∙ take-append_length n (wire s) rest (length-wire s k),
          left ∙ ap (drop n) e ∙ drop-append_length n (wire s) rest (length-wire s k),
        )

    read_head-partial :
        (b : Buf) (p : IsPartial (bytes b))
        → 27 ≤ length (bytes b)
        → next_head evb host new_message.m_msg_head b
          ≡ ready (received host p.whole.head p.whole.payload) b
    unfolding next_head
    read_head-partial b p long =
        let parsed : head_of evb host b ≡ received host p.whole.head p.whole.payload =
          ap (parse_head host) (
            evb.copyout-bytes b 27
            ∙ sym (take-append-le 27 (bytes b) p.more long)
            ∙ ap (take 27) (sym p.split ∙ sym (append-nil (wire p.whole))))
          ∙ parse_head-take-frame host p.whole.head p.whole.payload [] p.sendable.fits in
        read_head_ready evb host _ new_message.m_msg_head b long (ap is_tagged parsed)
        ∙ ap (λ (r : MsgHead). ready r b) parsed

    -- Less than a header makes no task.
    handle_msg-short :
        (again : Buf → Handled Buf) (b : Buf)
        → length (bytes b) < 27
        → handle_msg evb again (next_head evb host new_message.m_msg_head b) ≡ returned [] b
    unfolding handle_msg next_head
    handle_msg-short again b short =
        ap (handle_msg evb again) (read_head_short evb host _ new_message.m_msg_head b short)

    -- An unfinished frame makes no task and stays where it is.
    handle_msg-partial :
        (again : Buf → Handled Buf) (b : Buf)
        → IsPartial (bytes b)
        → handle_msg evb again (next_head evb host new_message.m_msg_head b) ≡ returned [] b
    unfolding handle_msg
    handle_msg-partial again b p = elim (Bool-cases (ltb (length (bytes b)) 27)) [
      | inl short ↦ handle_msg-short again b (ltb→lt _ _ short)
      | inr long ↦
          ap (handle_msg evb again) (read_head-partial b p (ltb→ge _ _ long))
          ∙ rw (
            lt→ltb (get_length b) (p.whole.head.pb_length + 27) (
                omega (
                  arith,
                  evb.get_length-bytes b,
                  ap length p.split,
                  length-append (bytes b) p.more,
                  length-wire p.whole p.sendable,
                  p.missing,
                )),
            handle_msg,
          )
    ]

    abbrev pub Splits : List Sent → List ℕ → Handled Buf → Type 0
    Splits ss tail r = (c : Buf) × (r ≡ returned (map as_task ss) c) × (bytes c ≡ tail)

    handle_msg-tail :
        (again : Buf → Handled Buf) (b : Buf) (tail : List ℕ)
        → (tail ≡ []) ⊎ IsPartial tail
        → bytes b ≡ tail
        → Splits [] tail (handle_msg evb again (next_head evb host new_message.m_msg_head b))
    handle_msg-tail again b tail (inl t) e =
        (b, handle_msg-short again b (omega (arith, ap length (e ∙ t))), e)
    handle_msg-tail again b tail (inr t) e =
        (b, handle_msg-partial again b (subst IsPartial (sym e) t), e)

    -- Nothing behind the last frame.
    stream_end :
        (ss : List Sent) (tail : List ℕ)
        → All IsSendable ss
        → length (stream ss tail) ≡ 0
        → (map as_task ss ≡ []) × (stream ss tail ≡ tail)
    stream_end [] tail k e = (refl, refl)
    stream_end (s ∷ ss) tail k e =
        absurd (omega (arith, length-append (wire s) (stream ss tail), length-wire s k.0))

    take_msg-frame :
        (again : Buf → Handled Buf) (b : Buf) (s : Sent) (ss : List Sent) (tail : List ℕ)
        → IsSendable s
        → All IsSendable ss
        → bytes b ≡ wire s ++ stream ss tail
        → ((c : Buf) → bytes c ≡ stream ss tail → Splits ss tail (again c))
        → Splits (s ∷ ss) tail (take_msg evb again (received host s.head s.payload) b)
    unfolding take_msg
    take_msg-frame again b s ss tail k ks e loop =
        let n = s.head.pb_length + 27 in
        let task = λ (region : List ℕ). task_of region s in
        let (got, left) = remove-frame b s (stream ss tail) k e in
        elim (Bool-cases (get_length b == n)) [
          | inl last ↦
              let (no_more, same) = stream_end ss tail ks (
                omega (
                  arith,
                  ==→eq (get_length b) n last,
                  evb.get_length-bytes b,
                  ap length e,
                  length-append (wire s) (stream ss tail),
                  length-wire s k,
                )) in
              rw (last, take_msg)
                (
                  (remove b n).1,
                  ap (λ (l : List ℕ). returned (task l ∷ []) (remove b n).1) got
                      ∙ ap (λ (ms : List Message). returned (as_task s ∷ ms) (remove b n).1)
                          (sym no_more),
                  left ∙ same,
                )
          | inr inner ↦
              let (c, rest, kept) = loop (remove b n).1 left in
              rw (inner, take_msg)
                (
                  c,
                  ap (with_task (task (remove b n).0)) rest
                      ∙ ap (λ (l : List ℕ). returned (task l ∷ map as_task ss) c) got,
                  kept,
                )
        ]

    handle_data-stream :
        (fuel : ℕ) (b : Buf) (ss : List Sent) (tail : List ℕ)
        → length (bytes b) < fuel
        → All IsSendable ss
        → (tail ≡ []) ⊎ IsPartial tail
        → bytes b ≡ stream ss tail
        → Splits ss tail (handle_data evb host fuel b)
    unfolding handle_data next_head
    handle_data-stream zero b ss tail h k t e = absurd (omega arith)
    handle_data-stream (suc fuel) b [] tail h k t e =
        handle_msg-tail (handle_data evb host fuel) b tail t e
    handle_data-stream (suc fuel) b (s ∷ ss) tail h (k, ks) t e =
        let start =
          ap (handle_msg evb (handle_data evb host fuel)) (
            read_head-frame evb host (get_length b) new_message.m_msg_head b s.head s.payload
              (stream ss tail) k.fits e)
          ∙ handle_msg-frame (handle_data evb host fuel) b s (stream ss tail) k e in
        subst (Splits (s ∷ ss) tail) (sym start) (
          take_msg-frame (handle_data evb host fuel) b s ss tail k ks e (λ c q.
            handle_data-stream fuel c ss tail
              (omega (
                arith,
                ap length e,
                ap length q,
                length-append (wire s) (stream ss tail),
                length-wire s k,
              ))
              ks t q))

    -- A connection whose input is the frames of any number of messages that write_msg wrote, each of
    -- at most 8192 bytes, and then the beginning of one more frame or nothing: handle_data makes one
    -- task of each message, in order, with the bytes and the header that were sent, and leaves the
    -- beginning in the buffer. It does not matter how the input is spread over extents.
    pub handle_input-stream :
        (b : Buf) (ss : List Sent) (tail : List ℕ)
        → All IsSendable ss
        → (tail ≡ []) ⊎ IsPartial tail
        → bytes b ≡ stream ss tail
        → (c : Buf) × (handle_input evb host b ≡ returned (map as_task ss) c) × (bytes c ≡ tail)
    unfolding handle_input
    handle_input-stream b ss tail k t e =
        handle_data-stream _ b ss tail (omega (arith, evb.get_length-bytes b)) k t e
