-- ===== src/Message.antt =====
-- src/message.h and src/message.cpp: the 27 byte protocol header, and the message behind it with
-- its getters, its setters, the reading of a header's fields (the field assignments of `read_head`)
-- and `write_msg`. A pointer into the message's region is an offset; memory is a list of bytes.
pub mod Bytes
pub mod Frame
pub mod RoundTrip
use Bytes.{Host, u8, u16, u32, htons, htonl, store16, store32, load16, load32, write_at, Allocator}
use db_proxy_server.Prelude.{
  ℕ, zero, suc, ◌+◌, Option, none, some, List, [], ◌∷◌, ◌++◌, drop, get_or, bit_xor,
}
use mathlib.Core.Option

abbrev pub header_len : ℕ
header_len = 27

abbrev pub s_tag_7e : ℕ
s_tag_7e = 0x7e

abbrev pub s_tag_aa : ℕ
s_tag_aa = 0xaa

abbrev pub s_tag_value : ℕ
s_tag_value = 0x7eaa

abbrev pub c_tag_value : ℕ
c_tag_value = 0x6623

abbrev pub version_value : ℕ
version_value = 1

pub record MsgHead : Type 0 where
  pub s_tag : ℕ
  pub s_node : ℕ
  pub s_socket : ℕ
  pub s_router : ℕ
  pub c_tag : ℕ
  pub version : ℕ
  pub seq_num : ℕ
  pub service_id : ℕ
  pub cmd_id : ℕ
  pub company_id : ℕ
  pub pb_length : ℕ
  pub check_sum : ℕ

-- `m_msg` is none for a null pointer.
pub record Message : Type 0 where
  pub m_msg : Option (List ℕ)
  pub m_msg_head : MsgHead

-- The constructor: memset of the header to 0.
abbrev pub new_message : Message
new_message = record {
  m_msg = none;
  m_msg_head = record {
    s_tag = 0;
    s_node = 0;
    s_socket = 0;
    s_router = 0;
    c_tag = 0;
    version = 0;
    seq_num = 0;
    service_id = 0;
    cmd_id = 0;
    company_id = 0;
    pb_length = 0;
    check_sum = 0;
  };
}

-- The header's fields from the bytes that `read_head` copies out: the multi-byte fields by ntohs
-- and ntohl, the single bytes as they lie, and the checksum by ntohs of one byte, cut to one byte.
unfoldable pub parse_head : Host → List ℕ → MsgHead
unfolding load16 load32 htons htonl
parse_head host buf = record {
  s_tag = htons host (load16 host (at 0) (at 1));
  s_node = htonl host (load32 host (at 2) (at 3) (at 4) (at 5));
  s_socket = htonl host (load32 host (at 6) (at 7) (at 8) (at 9));
  s_router = at 10;
  c_tag = htons host (load16 host (at 11) (at 12));
  version = at 13;
  seq_num = htons host (load16 host (at 14) (at 15));
  service_id = htons host (load16 host (at 16) (at 17));
  cmd_id = htons host (load16 host (at 18) (at 19));
  company_id = htonl host (load32 host (at 20) (at 21) (at 22) (at 23));
  pb_length = htons host (load16 host (at 24) (at 25));
  check_sum = u8 (htons host (at 26));
}
  where
    at : ℕ → ℕ
    at i = get_or buf i 0

unfoldable pub get_cmd_id : Message → ℕ
get_cmd_id m = m.m_msg_head.cmd_id

unfoldable pub get_pb_length : Message → ℕ
get_pb_length m = m.m_msg_head.pb_length

-- `m_msg + HEADER_LEN`; none before a body is read or written.
unfoldable pub get_pb_data : Message → Option (List ℕ)
get_pb_data m = Option.map (drop header_len) m.m_msg

unfoldable pub get_data : Message → Option (List ℕ)
get_data m = m.m_msg

unfoldable pub set_s_node : Message → ℕ → Message
set_s_node m s_node = record m { m_msg_head = record (m.m_msg_head) { s_node = u32 s_node } }

unfoldable pub set_s_socket : Message → ℕ → Message
set_s_socket m s_socket = record m {
  m_msg_head = record (m.m_msg_head) { s_socket = u32 s_socket };
}

unfoldable pub set_s_router : Message → ℕ → Message
set_s_router m s_router = record m { m_msg_head = record (m.m_msg_head) { s_router = u8 s_router } }

-- The parameter is a uint8_t.
unfoldable pub set_seq_num : Message → ℕ → Message
set_seq_num m seq_num = record m { m_msg_head = record (m.m_msg_head) { seq_num = u8 seq_num } }

unfoldable pub set_service_id : Message → ℕ → Message
set_service_id m service_id = record m {
  m_msg_head = record (m.m_msg_head) { service_id = u16 service_id };
}

unfoldable pub set_cmd_id : Message → ℕ → Message
set_cmd_id m cmd_id = record m { m_msg_head = record (m.m_msg_head) { cmd_id = u16 cmd_id } }

unfoldable pub set_company_id : Message → ℕ → Message
set_company_id m company_id = record m {
  m_msg_head = record (m.m_msg_head) { company_id = u32 company_id };
}

unfoldable pub set_pb_length : Message → ℕ → Message
set_pb_length m pb_length = record m {
  m_msg_head = record (m.m_msg_head) { pb_length = u16 pb_length };
}

-- The stores of `write_msg` up to and with the length. `*(temp) = htons(x)` keeps the low byte.
unfoldable pub head_bytes : Host → MsgHead → List ℕ
head_bytes host head =
    store16 host (htons host s_tag_value)
    ++ (store32 host (htonl host head.s_node)
        ++ (store32 host (htonl host head.s_socket)
            ++ ((u8 (htons host head.s_router) ∷ [])
                ++ (store16 host (htons host c_tag_value)
                    ++ ((u8 (htons host version_value) ∷ [])
                        ++ (store16 host (htons host head.seq_num)
                            ++ (store16 host (htons host head.service_id)
                                ++ (store16 host (htons host head.cmd_id)
                                    ++ (store32 host (htonl host head.company_id)
                                        ++ store16 host (htons host head.pb_length))))))))))

-- `c ^= m_msg[HEADER_LEN + i]` for `n` bytes.
unfoldable pub xor_bytes : ℕ → ℕ → List ℕ → ℕ
xor_bytes zero c bytes = c
xor_bytes (suc n) c [] = c
xor_bytes (suc n) c (b ∷ bytes) = xor_bytes n (bit_xor c b) bytes

-- What protobuf does for a message: its ByteSize(), and the bytes that SerializePartialToArray
-- writes, or none if it fails.
pub record PbData : Type 0 where
  pub byte_size : ℕ
  pub serialized : Option (List ℕ)

pub data WriteResult : Type 0 where
  written : Message → WriteResult
  -- The early return after SerializePartialToArray failed.
  unserialized : Message → WriteResult
  -- A write past the end of the region.
  overrun : WriteResult

-- The checksum's loop and store, behind a payload that was serialized.
unfoldable pub write_check_sum : Message → List ℕ → WriteResult
write_check_sum m mem =
    let c =
      xor_bytes m.m_msg_head.pb_length (bit_xor (get_or mem 24 0) (get_or mem 25 0))
        (drop header_len mem) in
    elim (write_at mem 26 (u8 c ∷ [])) [
      | none ↦ overrun
      | some mem' ↦ written (record m { m_msg = some mem' })
    ]

unfoldable pub write_payload : PbData → Message → List ℕ → WriteResult
write_payload pb m mem = elim pb.serialized [
  | none ↦ unserialized (record m { m_msg = some mem })
  | some bytes ↦ elim (write_at mem header_len bytes) [
    | none ↦ overrun
    | some mem' ↦ write_check_sum m mem'
  ]
]

unfoldable pub write_msg : Host → Allocator → PbData → Message → WriteResult
write_msg host alloc pb m =
    let mem = alloc.realloc m.m_msg (header_len + m.m_msg_head.pb_length) in
    elim (write_at mem 0 (head_bytes host m.m_msg_head)) [
      | none ↦ overrun
      | some mem' ↦ write_payload pb m mem'
    ]

-- How the handlers answer: `msg->set_cmd_id(cmd); msg->set_pb_length(rsp.ByteSize());
-- msg->write_msg(&rsp);`.
unfoldable pub write_reply : Host → Allocator → ℕ → PbData → Message → WriteResult
unfolding set_cmd_id set_pb_length
write_reply host alloc cmd pb m =
    write_msg host alloc pb (set_pb_length (set_cmd_id m cmd) pb.byte_size)
