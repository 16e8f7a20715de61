-- ===== src/Sending/Delivered.antt =====
-- What the send loops deliver.
use db_proxy_server.Message.Bytes.{Host, Allocator}
use db_proxy_server.Message.{MsgHead, Message, PbData, written, write_reply, get_pb_length}
use db_proxy_server.Message.Frame.{frame, length-frame}
use db_proxy_server.Message.RoundTrip.{write_reply_fits}
use db_proxy_server.Sending.{
  SendAnswer, sent, busy, failed, SendEnd, left, pending, with_chunk, loop_on, send_from,
  status_send, account_send, pb_task_send, json_task_send, http_task_send,
}
use db_proxy_server.Prelude.{
  ℕ, zero, suc, ◌+◌, ◌-◌, ◌%◌, ◌<◌, ◌≡◌, refl, ap, sym, ◌∙◌, inl, inr, ltb, some, List, [], ◌∷◌,
  ◌++◌, length, length-drop, take, drop, take_all, drop-drop, take-append-drop, arith, Bool-cases,
  lt→ltb, ltb→lt, ltb→ge,
}
use mathlib.Core.List.{append-nil, append_assoc}

-- No answer of the list ends the loop early.
abbrev pub IsWorking : List SendAnswer → Type 0
IsWorking [] = Unit {0}
IsWorking (sent n ∷ answers) = (0 < n) × IsWorking answers
IsWorking (busy ∷ answers) = IsWorking answers
IsWorking (failed ∷ answers) = ⊥

-- The number of bytes that the answers report.
abbrev pub total : List SendAnswer → ℕ
total [] = 0
total (sent n ∷ answers) = n + total answers
total (busy ∷ answers) = total answers
total (failed ∷ answers) = total answers

-- `out` is a front part of `buf`.
abbrev pub IsPrefix : List ℕ → List ℕ → Type 0
IsPrefix out buf = (rest : List ℕ) × (buf ≡ out ++ rest)

abbrev pub out_of : SendEnd → List ℕ
out_of (left out) = out
out_of (pending out) = out

out_of-with_chunk : (c : List ℕ) (e : SendEnd) → out_of (with_chunk c e) ≡ c ++ out_of e
out_of-with_chunk c (left out) = refl
out_of-with_chunk c (pending out) = refl

-- A front part of what stands behind a chunk, with the chunk.
IsPrefix-chunk :
    (n pos : ℕ) (buf : List ℕ) (e : SendEnd)
    → IsPrefix (out_of e) (drop (pos + n) buf)
    → IsPrefix (out_of (with_chunk (take n (drop pos buf)) e)) (drop pos buf)
IsPrefix-chunk n pos buf e (rest, p) = (
  rest,
  sym (take-append-drop n (drop pos buf))
      ∙ ap (◌++◌ (take n (drop pos buf))) (drop-drop n pos buf ∙ p)
      ∙ sym (append_assoc (take n (drop pos buf)) (out_of e) rest)
      ∙ ap (λ (l : List ℕ). l ++ rest) (sym (out_of-with_chunk (take n (drop pos buf)) e)),
)

loop_on-IsPrefix :
    (buf : List ℕ) (pos : ℕ) (e : SendEnd)
    → IsPrefix (out_of e) (drop pos buf)
    → IsPrefix (out_of (loop_on buf pos e)) (drop pos buf)
unfolding loop_on
loop_on-IsPrefix buf pos e h = elim (Bool-cases (ltb pos (length buf))) [
  | inl t ↦ rw (t, loop_on) h
  | inr t ↦ rw (t, loop_on) (drop pos buf, refl)
]

-- Whatever `::send` answers, what has gone out is at any time a front part of the data.
pub send_from-IsPrefix :
    (answers : List SendAnswer) (buf : List ℕ) (pos : ℕ)
    → IsPrefix (out_of (send_from answers buf pos)) (drop pos buf)
unfolding send_from
send_from-IsPrefix [] buf pos = (drop pos buf, refl)
send_from-IsPrefix (busy ∷ answers) buf pos =
    loop_on-IsPrefix buf pos (send_from answers buf pos) (send_from-IsPrefix answers buf pos)
send_from-IsPrefix (failed ∷ answers) buf pos = (drop pos buf, refl)
send_from-IsPrefix (sent zero ∷ answers) buf pos = (drop pos buf, refl)
send_from-IsPrefix (sent (suc n) ∷ answers) buf pos = IsPrefix-chunk (suc n) pos buf _ (
    loop_on-IsPrefix buf (pos + suc n) (send_from answers buf (pos + suc n))
      (send_from-IsPrefix answers buf (pos + suc n)))

-- While no answer ends the loop early, it goes on until all is out, and then stops.
send_from-working :
    (answers : List SendAnswer) (buf : List ℕ) (pos : ℕ)
    → pos < length buf
    → IsWorking answers
    → total answers ≡ length buf - pos
    → send_from answers buf pos ≡ left (drop pos buf)
unfolding send_from loop_on
send_from-working [] buf pos h w t = absurd (omega arith)
send_from-working (busy ∷ answers) buf pos h w t =
    rw (lt→ltb _ _ h, loop_on) (send_from-working answers buf pos h w t)
send_from-working (failed ∷ answers) buf pos h w t = absurd w
send_from-working (sent zero ∷ answers) buf pos h w t = absurd (omega (arith, w.0))
send_from-working (sent (suc n) ∷ answers) buf pos h w t =
    elim (Bool-cases (ltb (pos + suc n) (length buf))) [
      | inl e ↦
          rw (e, loop_on)
            (ap (with_chunk (take (suc n) (drop pos buf)))
                (send_from-working answers buf (pos + suc n) (ltb→lt _ _ e) w.1 (omega arith))
              ∙ ap left (
                  ap (◌++◌ (take (suc n) (drop pos buf))) (sym (drop-drop (suc n) pos buf))
                  ∙ take-append-drop (suc n) (drop pos buf)))
      | inr e ↦
          rw (e, loop_on)
            (ap left (
              append-nil (take (suc n) (drop pos buf))
              ∙ take_all (suc n) (drop pos buf)
                  (omega (arith, length-drop pos buf, ltb→ge (pos + suc n) (length buf) e))))
    ]

-- Each of the five loops, whatever the socket's answers are: what has gone out at any time is a
-- front part of the data (of `len` bytes of it, or of header and payload of a message).
pub sends-IsPrefix :
    (answers : List SendAnswer) (buf : List ℕ) (len : ℕ) (head : MsgHead)
    → IsPrefix (out_of (status_send answers buf len)) (take len buf)
      × IsPrefix (out_of (account_send answers buf len)) (take len buf)
      × IsPrefix (out_of (json_task_send answers buf len)) (take len buf)
      × IsPrefix (out_of (http_task_send answers buf)) buf
      × (e : SendEnd) × (pb_task_send answers (record { m_msg = some buf; m_msg_head = head })
          ≡ some e)
      × IsPrefix (out_of e) (take (27 + head.pb_length) buf)
unfolding status_send account_send json_task_send http_task_send pb_task_send get_pb_length
sends-IsPrefix answers buf len head =
    let part = send_from-IsPrefix answers (take len buf) 0 in
    (
      part,
      part,
      part,
      send_from-IsPrefix answers buf 0,
      send_from answers (take (27 + head.pb_length) buf) 0,
      refl,
      send_from-IsPrefix answers (take (27 + head.pb_length) buf) 0,
    )

-- A reply goes out whole: for a response below 2^16 bytes, write_reply writes a frame, and
-- pb_task::send delivers exactly this frame, header and payload, if none of the socket's answers is
-- 0 or an error that ends the loop and they report together as many bytes as the frame has.
pub pb_task_send-write_reply :
    (host : Host) (alloc : Allocator) (pb : PbData) (m : Message) (payload : List ℕ) (cmd : ℕ)
    (answers : List SendAnswer)
    → pb.serialized ≡ some payload
    → length payload ≡ pb.byte_size
    → pb.byte_size < 65536
    → IsWorking answers
    → total answers ≡ pb.byte_size + 27
    → (head : MsgHead) × (out : Message) × (write_reply host alloc cmd pb m ≡ written out)
      × (pb_task_send answers out ≡ some (left (frame host head payload)))
      × (head.pb_length ≡ pb.byte_size)
      × (head.cmd_id ≡ cmd % 65536)
unfolding pb_task_send get_pb_length
pb_task_send-write_reply host alloc pb m payload cmd answers s n small w t =
    elim (write_reply_fits alloc pb m payload s host cmd n) [
      | inl (_, head, q, size, command) ↦
          let region : List ℕ = frame host head payload in
          let long : length region ≡ pb.byte_size + 27 =
            omega (arith, length-frame host head payload) in
          (
            head,
            record { m_msg = some region; m_msg_head = head },
            q,
            ap some (
                ap (λ (l : List ℕ). send_from answers l 0)
                  (take_all (27 + head.pb_length) region (omega (arith, long, size)))
                ∙ send_from-working answers region 0 (omega (arith, long)) w
                    (omega (arith, long, t))),
            size,
            command,
          )
      | inr (large, _) ↦ absurd (omega arith)
    ]
