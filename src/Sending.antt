-- ===== src/Sending.antt =====
-- The loops that write to a socket: pb_task::send, json_task::send, http_task::send,
-- net_server::status_send and net_server::account_send. `::send` is the environment: the list of
-- its answers, in order.
pub mod Delivered
use db_proxy_server.Message.{Message, get_pb_length, header_len}
use db_proxy_server.Prelude.{
  ℕ, zero, suc, ◌+◌, true, false, Option, none, some, List, [], ◌∷◌, ◌++◌, length, take, drop, ltb,
}

-- `sent n` is the return value n, `busy` is -1 with EAGAIN, EWOULDBLOCK or EINTR, `failed` any other -1.
pub data SendAnswer : Type 0 where
  sent : ℕ → SendAnswer
  busy : SendAnswer
  failed : SendAnswer

-- What went out, and whether the loop was left or asks for an answer that has not come yet.
pub data SendEnd : Type 0 where
  left : List ℕ → SendEnd
  pending : List ℕ → SendEnd

abbrev pub with_chunk : List ℕ → SendEnd → SendEnd
with_chunk chunk (left out) = left (chunk ++ out)
with_chunk chunk (pending out) = pending (chunk ++ out)

-- `while (pos < length)` behind the body.
unfoldable pub loop_on : List ℕ → ℕ → SendEnd → SendEnd
loop_on buf pos rest = elim (ltb pos (length buf)) [ true ↦ rest | false ↦ left [] ]

-- The `do` loop, from `pos` on.
unfoldable pub send_from : List SendAnswer → List ℕ → ℕ → SendEnd
unfolding loop_on
send_from [] buf pos = pending []
send_from (busy ∷ answers) buf pos = loop_on buf pos (send_from answers buf pos)
send_from (failed ∷ answers) buf pos = left []
send_from (sent zero ∷ answers) buf pos = left []
send_from (sent (suc n) ∷ answers) buf pos =
    with_chunk (take (suc n) (drop pos buf))
      (loop_on buf (pos + suc n) (send_from answers buf (pos + suc n)))

-- net_server::status_send and net_server::account_send.
unfoldable pub status_send : List SendAnswer → List ℕ → ℕ → SendEnd
unfolding send_from
status_send answers buf len = send_from answers (take len buf) 0

unfoldable pub account_send : List SendAnswer → List ℕ → ℕ → SendEnd
unfolding send_from
account_send answers buf len = send_from answers (take len buf) 0

-- pb_task::send; none if there is no message region.
unfoldable pub pb_task_send : List SendAnswer → Message → Option SendEnd
unfolding send_from
pb_task_send answers m = elim m.m_msg [
  | none ↦ none
  | some region ↦ some (send_from answers (take (header_len + get_pb_length m) region) 0)
]

-- json_task::send and http_task::send.
unfoldable pub json_task_send : List SendAnswer → List ℕ → ℕ → SendEnd
unfolding send_from
json_task_send answers msg m_length = send_from answers (take m_length msg) 0

unfoldable pub http_task_send : List SendAnswer → List ℕ → SendEnd
unfolding send_from
http_task_send answers msg = send_from answers msg 0
