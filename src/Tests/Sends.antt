-- ===== src/Tests/Sends.antt =====
-- The send loops over a socket that takes the data in parts.
use db_proxy_server.Message.Bytes.{little_endian}
use db_proxy_server.Message.{MsgHead, Message, written, write_reply}
use db_proxy_server.Message.Frame.{frame}
use db_proxy_server.Sending.{
  sent, busy, failed, SendEnd, left, status_send, account_send, pb_task_send, json_task_send,
  http_task_send,
}
use db_proxy_server.Sending.Delivered.{IsPrefix, out_of, sends-IsPrefix, pb_task_send-write_reply}
use db_proxy_server.Prelude.{ℕ, ◌+◌, ◌≡◌, refl, some, List, [], ◌∷◌, take, replicate, arith}
use db_proxy_server.Tests.Instances.{filling, sample, sample_head, sample_payload, sample_data}

abbrev data_bytes : List ℕ
data_bytes = 1 ∷ 2 ∷ 3 ∷ 4 ∷ 5 ∷ []

broken_off : status_send (sent 2 ∷ busy ∷ failed ∷ []) data_bytes 5 ≡ left (1 ∷ 2 ∷ [])
unfolding status_send
broken_off = refl

sends-IsPrefix_example :
    IsPrefix (out_of (status_send (sent 2 ∷ failed ∷ []) data_bytes 4)) (take 4 data_bytes)
    × IsPrefix (out_of (account_send (sent 2 ∷ failed ∷ []) data_bytes 4)) (take 4 data_bytes)
    × IsPrefix (out_of (json_task_send (sent 2 ∷ failed ∷ []) data_bytes 4)) (take 4 data_bytes)
    × IsPrefix (out_of (http_task_send (sent 2 ∷ failed ∷ []) data_bytes)) data_bytes
    × (e : SendEnd) × (pb_task_send
          (sent 2 ∷ failed ∷ [])
          (record { m_msg = some data_bytes; m_msg_head = sample_head })
        ≡ some e)
    × IsPrefix (out_of e) (take (27 + sample_head.pb_length) data_bytes)
sends-IsPrefix_example = sends-IsPrefix (sent 2 ∷ failed ∷ []) data_bytes 4 sample_head

abbrev thirty_bytes : List ℕ
thirty_bytes = replicate 30 7

pb_task_send-write_reply_example :
    (head : MsgHead) × (out : Message) × (write_reply little_endian filling 4660 sample_data sample
      ≡ written out)
    × (pb_task_send (sent 20 ∷ busy ∷ sent 10 ∷ []) out
        ≡ some (left (frame little_endian head sample_payload)))
    × (head.pb_length ≡ 3)
    × (head.cmd_id ≡ 4660)
pb_task_send-write_reply_example =
    pb_task_send-write_reply little_endian filling sample_data sample sample_payload 4660
      (sent 20 ∷ busy ∷ sent 10 ∷ []) refl refl (omega arith) (omega arith, (omega arith, tt)) refl
