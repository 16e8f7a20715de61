-- ===== src/Tests/Messages.antt =====
-- write_msg and the reading of its bytes.
use db_proxy_server.Message.Bytes.{little_endian, big_endian, htons}
use db_proxy_server.Message.{
  MsgHead, xor_bytes, written, overrun, write_msg, write_reply, parse_head, get_pb_data,
  version_value,
}
use db_proxy_server.Message.Frame.{frame}
use db_proxy_server.Message.RoundTrip.{
  received, parse_head-write_msg, one_byte_fields, write_reply_fits,
}
use db_proxy_server.Prelude.{ℕ, ◌≤◌, ◌<◌, ◌≡◌, ◌⊎◌, refl, some, List, [], ◌∷◌, ◌++◌, length}
use db_proxy_server.Tests.Instances.{
  filling, sample, sample_head, sample_payload, sample_data, sample_head-IsHead,
}

frame_bytes :
    frame little_endian sample_head sample_payload
    ≡ 0x7e ∷ 0xaa ∷ 1 ∷ 2 ∷ 3 ∷ 4 ∷ 0 ∷ 0 ∷ 0 ∷ 77 ∷ 0 ∷ 0x66 ∷ 0x23 ∷ 0 ∷ 1 ∷ 44 ∷ 0 ∷ 9 ∷ 0x12
      ∷ 0x34 ∷ 0 ∷ 0 ∷ 0 ∷ 5 ∷ 0 ∷ 3 ∷ 156 ∷ 8 ∷ 150 ∷ 1 ∷ []
unfolding frame htons xor_bytes
frame_bytes = refl

parse_head-write_msg_example :
    (mem : List ℕ) × (write_msg little_endian filling sample_data sample
      ≡ written (record sample { m_msg = some mem }))
    × (length mem ≡ 30)
    × (parse_head little_endian (mem ++ (1 ∷ []))
        ≡ received little_endian sample_head sample_payload)
    × (get_pb_data (record sample { m_msg = some mem }) ≡ some sample_payload)
parse_head-write_msg_example =
    parse_head-write_msg filling sample_data sample sample_payload refl little_endian (1 ∷ [])
      sample_head-IsHead refl

one_byte_fields_example :
    ((mem : List ℕ) × (write_msg little_endian filling sample_data sample
        ≡ written (record sample { m_msg = some mem }))
      × ((parse_head little_endian (mem ++ [])).s_router ≡ 0)
      × ((parse_head little_endian (mem ++ [])).version ≡ 0)
      × ((parse_head little_endian (mem ++ [])).check_sum ≡ 0))
    × ((mem : List ℕ) × (write_msg big_endian filling sample_data sample
          ≡ written (record sample { m_msg = some mem }))
        × ((parse_head big_endian (mem ++ [])).s_router ≡ 1)
        × ((parse_head big_endian (mem ++ [])).version ≡ version_value))
one_byte_fields_example =
    one_byte_fields filling sample_data sample sample_payload refl [] sample_head-IsHead refl

write_reply_fits_example :
    ((3 < 65536)
      × (head : MsgHead) × (write_reply little_endian filling 70000 sample_data sample
          ≡ written (record {
            m_msg = some (frame little_endian head sample_payload);
            m_msg_head = head;
          }))
      × (head.pb_length ≡ 3)
      × (head.cmd_id ≡ 4464))
    ⊎ ((65536 ≤ 3) × (write_reply little_endian filling 70000 sample_data sample ≡ overrun))
write_reply_fits_example =
    write_reply_fits filling sample_data sample sample_payload refl little_endian 70000 refl
