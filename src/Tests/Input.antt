-- ===== src/Tests/Input.antt =====
-- The framing of input.
use db_proxy_server.Message.Bytes.{little_endian, htons}
use db_proxy_server.Message.{new_message, xor_bytes}
use db_proxy_server.Message.Frame.{frame}
use db_proxy_server.Message.RoundTrip.{received}
use db_proxy_server.Framing.{ready, next_head}
use db_proxy_server.Framing.Termination.{ReadEnds, next_head-ReadEnds}
use db_proxy_server.Framing.Resync.{next_head-resync}
use db_proxy_server.Framing.Loss.{ReadBelow, next_head-Below}
use db_proxy_server.NetServer.HandleData.{returned, handle_input}
use db_proxy_server.NetServer.HandleData.Sound.{HandledEnds, handle_input-Ends}
use db_proxy_server.NetServer.HandleData.Frames.{Sent, IsSendable, as_task, handle_input-stream}
use db_proxy_server.Prelude.{
  ℕ, zero, suc, ◌<◌, ◌≡◌, refl, inl, some, List, [], ◌∷◌, ◌++◌, length, drop, arith,
}
use db_proxy_server.Tests.Instances.{flat, sample_head, sample_payload, sample_head-IsHead}

abbrev sample_frame : List ℕ
sample_frame =
    0x7e ∷ 0xaa ∷ 1 ∷ 2 ∷ 3 ∷ 4 ∷ 0 ∷ 0 ∷ 0 ∷ 77 ∷ 0 ∷ 0x66 ∷ 0x23 ∷ 0 ∷ 1 ∷ 44 ∷ 0 ∷ 9 ∷ 0x12
    ∷ 0x34 ∷ 0 ∷ 0 ∷ 0 ∷ 5 ∷ 0 ∷ 3 ∷ 156 ∷ 8 ∷ 150 ∷ 1 ∷ []

extent_of_rest : (l : List ℕ) (n : ℕ) → n < length l → flat.peek (drop n l) ≡ some (drop n l)
extent_of_rest [] n h = absurd (omega arith)
extent_of_rest (x ∷ l) zero h = refl
extent_of_rest (x ∷ l) (suc n) h = extent_of_rest l n (omega arith)

next_head-ReadEnds_example :
    ReadEnds flat little_endian sample_frame
      (next_head flat little_endian new_message.m_msg_head sample_frame)
next_head-ReadEnds_example =
    next_head-ReadEnds flat little_endian new_message.m_msg_head sample_frame

next_head-resync_example :
    (next_head flat little_endian new_message.m_msg_head (7 ∷ 9 ∷ sample_frame)
      ≡ ready (received little_endian sample_head sample_payload) sample_frame)
    × (sample_frame ≡ frame little_endian sample_head sample_payload ++ [])
unfolding frame htons xor_bytes
next_head-resync_example =
    next_head-resync flat little_endian new_message.m_msg_head (7 ∷ 9 ∷ sample_frame) 7 (9 ∷ [])
      sample_head sample_payload []
      (record { whole = refl; drained = extent_of_rest (7 ∷ 9 ∷ sample_frame) }) (omega arith)
      (omega arith) sample_head-IsHead refl

-- A stray 7E costs the frame behind it.
next_head-Below_example :
    ReadBelow flat 30
      (next_head flat little_endian new_message.m_msg_head (7 ∷ 0x7e ∷ 9 ∷ 8 ∷ sample_frame))
next_head-Below_example =
    next_head-Below flat (7 ∷ 0x7e ∷ 9 ∷ 8 ∷ sample_frame) (7 ∷ []) 9 (8 ∷ []) (drop 2 sample_frame)
      (record { whole = refl; drained = extent_of_rest (7 ∷ 0x7e ∷ 9 ∷ 8 ∷ sample_frame) })
      (omega arith) (omega arith) (omega arith) (omega arith) refl little_endian
      new_message.m_msg_head (omega arith) (omega arith)

handle_input-Ends_example :
    HandledEnds flat little_endian
      (5 ∷ sample_frame)
      (handle_input flat little_endian (5 ∷ sample_frame))
handle_input-Ends_example = handle_input-Ends flat little_endian (5 ∷ sample_frame)

abbrev sent : Sent
sent = record { head = sample_head; payload = sample_payload }

sent-IsSendable : IsSendable sent
sent-IsSendable = omega arith

handle_input-stream_example :
    (c : List ℕ) × (handle_input flat little_endian (sample_frame ++ sample_frame)
      ≡ returned (as_task little_endian sent ∷ as_task little_endian sent ∷ []) c)
    × (c ≡ [])
unfolding frame htons xor_bytes
handle_input-stream_example =
    handle_input-stream little_endian flat (sample_frame ++ sample_frame) (sent ∷ sent ∷ []) []
      (sent-IsSendable, (sent-IsSendable, tt)) (inl refl) refl
