-- ===== src/NetServer/HandleData.antt =====
-- net_server::handle_data and message::read_msg: cutting the input of a connection into messages
-- and handing each to the thread pool as a task. `len` stays below 2^31, as an int must.
pub mod Sound
pub mod Frames
use db_proxy_server.EvBuffer.{EvBuffer}
use db_proxy_server.Message.Bytes.{Host}
use db_proxy_server.Message.{Message, MsgHead, new_message, header_len}
use db_proxy_server.Framing.{Read, ready, waiting, next_head}
use db_proxy_server.Prelude.{
  ℕ, zero, suc, ◌+◌, ◌*◌, true, false, none, some, List, [], ◌∷◌, ltb, ◌==◌, if◌then◌else◌,
}

abbrev pub tcp_buffer_size : ℕ
tcp_buffer_size = 8 * 1024

-- The messages that were made into tasks, in order, and what is left of the input.
pub data Handled {ℓ} (B : Type ℓ) : Type ℓ where
  returned : List Message → B → Handled B
  -- read_head made a stray read, behind these tasks.
  stray : List Message → Handled B
  out_of_fuel : Handled B

abbrev pub with_task {ℓ} : {B : Type ℓ} → Message → Handled B → Handled B
with_task m (returned ms b) = returned (m ∷ ms) b
with_task m (stray ms) = stray (m ∷ ms)
with_task m out_of_fuel = out_of_fuel

module _ (evb : EvBuffer) where
  open evb use {Buf, get_length, drain, remove}

  -- message::read_msg behind a header that read_head filled in, in front of the rest of the loop.
  unfoldable pub take_msg : (Buf → Handled Buf) → MsgHead → Buf → Handled Buf
  take_msg again head input =
      let total = head.pb_length + header_len in
      let (region, left) = remove input total in
      let m : Message = record { m_msg = some region; m_msg_head = head } in
      elim (get_length input == total) [
        | true ↦ returned (m ∷ []) left
        | false ↦ with_task m (again left)
      ]

  -- The body of the loop behind read_head.
  unfoldable pub handle_msg : (Buf → Handled Buf) → Read Buf → Handled Buf
  unfolding take_msg
  handle_msg again (waiting head input) = returned [] input
  handle_msg again (ready head input) =
      elim (ltb (get_length input) (head.pb_length + header_len)) [
        | true ↦ returned [] input
        | false ↦ elim (ltb tcp_buffer_size (head.pb_length + header_len)) [
          | true ↦ again (drain input (head.pb_length + header_len))
          | false ↦ take_msg again head input
        ]
      ]
  handle_msg again Read.stray = stray []
  handle_msg again Read.out_of_fuel = out_of_fuel

  unfoldable pub handle_data : Host → ℕ → Buf → Handled Buf
  handle_data host zero input = out_of_fuel
  handle_data host (suc fuel) input =
      handle_msg (handle_data host fuel) (next_head evb host new_message.m_msg_head input)

  -- handle_data with fuel that suffices.
  unfoldable pub handle_input : Host → Buf → Handled Buf
  handle_input host input = handle_data host (suc (get_length input)) input
