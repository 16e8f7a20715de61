-- ===== src/Message/RoundTrip.antt =====
-- What a peer reads back from the bytes that write_msg wrote.
use db_proxy_server.Message.Bytes.{
  Host, little_endian, big_endian, u8, htons, load16, htons-load16, htonl-load32, Allocator,
}
use db_proxy_server.Message.Frame.{
  frame, check_sum_of, length-frame, drop-frame, write_msg-frame_lem, write_msg-overrun,
}
use db_proxy_server.Message.{
  MsgHead, Message, PbData, written, overrun, write_msg, write_reply, parse_head, get_pb_data,
  version_value, s_tag_value, c_tag_value, set_cmd_id, set_pb_length,
}
use db_proxy_server.Prelude.{
  ◌⊎◌, inl, inr, ltb, ltb→lt, ltb→ge, Bool-cases, ℕ, ◌+◌, ◌%◌, ◌≤◌, ◌<◌, ◌≡◌, refl, ap, some, List,
  ◌++◌, length, take, arith,
}

-- The fields fit their C types.
pub record IsHead (head : MsgHead) : Type 0 where
  pub s_node_fits : head.s_node < 4294967296
  pub s_socket_fits : head.s_socket < 4294967296
  pub s_router_fits : head.s_router < 256
  pub seq_num_fits : head.seq_num < 65536
  pub service_id_fits : head.service_id < 65536
  pub cmd_id_fits : head.cmd_id < 65536
  pub company_id_fits : head.company_id < 4294967296
  pub pb_length_fits : head.pb_length < 65536

-- `*(temp) = htons(x)` at one byte: what is left of x.
abbrev pub narrowed : Host → ℕ → ℕ
narrowed host x = u8 (htons host x)

-- What the reader's header holds after the writer's `head` went over the wire.
abbrev pub received : Host → MsgHead → List ℕ → MsgHead
received host head payload = record head {
  s_tag = s_tag_value;
  s_router = narrowed host head.s_router;
  c_tag = c_tag_value;
  version = narrowed host version_value;
  check_sum = narrowed host (u8 (check_sum_of head.pb_length payload));
}

pub s_tag-load : (host : Host) → htons host (load16 host 0x7e 0xaa) ≡ s_tag_value
unfolding htons load16
s_tag-load little_endian = refl
s_tag-load big_endian = refl

c_tag-load : (host : Host) → htons host (load16 host 0x66 0x23) ≡ c_tag_value
unfolding htons load16
c_tag-load little_endian = refl
c_tag-load big_endian = refl

pub parse_head-frame_lem :
    (host : Host) (head : MsgHead) (payload rest : List ℕ)
    → IsHead head
    → parse_head host (frame host head payload ++ rest) ≡ received host head payload
unfolding parse_head frame
parse_head-frame_lem host head payload rest h = simp (
  s_tag-load host,
  c_tag-load host,
  htonl-load32 host head.s_node h.s_node_fits,
  htonl-load32 host head.s_socket h.s_socket_fits,
  htons-load16 host head.seq_num h.seq_num_fits,
  htons-load16 host head.service_id h.service_id_fits,
  htons-load16 host head.cmd_id h.cmd_id_fits,
  htonl-load32 host head.company_id h.company_id_fits,
  htons-load16 host head.pb_length h.pb_length_fits,
)

-- The same from the 27 bytes that read_head copies out.
pub parse_head-take-frame :
    (host : Host) (head : MsgHead) (payload rest : List ℕ)
    → IsHead head
    → parse_head host (take 27 (frame host head payload ++ rest)) ≡ received host head payload
unfolding parse_head frame
parse_head-take-frame host head payload rest h = parse_head-frame_lem host head payload rest h

pub narrowed-little : (x : ℕ) → x < 256 → narrowed little_endian x ≡ 0
unfolding htons
narrowed-little x h = omega arith

pub narrowed-big : (x : ℕ) → x < 256 → narrowed big_endian x ≡ x
unfolding htons
narrowed-big x h = omega arith

module _ (alloc : Allocator) (pb : PbData) (m : Message) (payload : List ℕ)
    (serializes : pb.serialized ≡ some payload) where
  -- For a header whose fields fit their types and a payload of pb_length bytes, write_msg stays
  -- inside its region and leaves pb_length + 27 bytes there. Whatever follows them, a reader on a
  -- host of the same byte order gets both tags and every field but s_router, version and
  -- check_sum as they were sent (those three as `narrowed` says), and the payload behind them.
  pub parse_head-write_msg :
      (host : Host) (rest : List ℕ)
      → IsHead m.m_msg_head
      → length payload ≡ m.m_msg_head.pb_length
      → (mem : List ℕ) × (write_msg host alloc pb m ≡ written (record m { m_msg = some mem }))
        × (length mem ≡ m.m_msg_head.pb_length + 27)
        × (parse_head host (mem ++ rest) ≡ received host m.m_msg_head payload)
        × (get_pb_data (record m { m_msg = some mem }) ≡ some payload)
  unfolding get_pb_data
  parse_head-write_msg host rest h n = (
    frame host m.m_msg_head payload,
    write_msg-frame_lem host alloc pb m payload serializes n,
    omega (arith, length-frame host m.m_msg_head payload),
    parse_head-frame_lem host m.m_msg_head payload rest h,
    ap some (drop-frame host m.m_msg_head payload),
  )

  -- A little endian host loses the three one-byte fields: a reader sees router flag 0, version 0
  -- and checksum 0 in every frame. A big endian host keeps router flag and version.
  pub one_byte_fields :
      (rest : List ℕ)
      → IsHead m.m_msg_head
      → length payload ≡ m.m_msg_head.pb_length
      → ((mem : List ℕ) × (write_msg little_endian alloc pb m
            ≡ written (record m { m_msg = some mem }))
          × ((parse_head little_endian (mem ++ rest)).s_router ≡ 0)
          × ((parse_head little_endian (mem ++ rest)).version ≡ 0)
          × ((parse_head little_endian (mem ++ rest)).check_sum ≡ 0))
        × ((mem : List ℕ) × (write_msg big_endian alloc pb m
              ≡ written (record m { m_msg = some mem }))
            × ((parse_head big_endian (mem ++ rest)).s_router ≡ m.m_msg_head.s_router)
            × ((parse_head big_endian (mem ++ rest)).version ≡ version_value))
  one_byte_fields rest h n =
      let p = parse_head-frame_lem little_endian m.m_msg_head payload rest h in
      let q = parse_head-frame_lem big_endian m.m_msg_head payload rest h in
      (
        (
          frame little_endian m.m_msg_head payload,
          write_msg-frame_lem little_endian alloc pb m payload serializes n,
          rw p (narrowed-little _ h.s_router_fits),
          rw p (narrowed-little _ (omega arith)),
          rw p (narrowed-little _ (omega arith)),
        ),
        (
          frame big_endian m.m_msg_head payload,
          write_msg-frame_lem big_endian alloc pb m payload serializes n,
          rw q (narrowed-big _ h.s_router_fits),
          rw q (narrowed-big _ (omega arith)),
        ),
      )

  -- The handlers' reply to a request: a response that protobuf serializes to ByteSize() bytes is
  -- written within its region if that is below 2^16, and past its end in every other case, since
  -- the length field keeps ByteSize() modulo 2^16.
  pub write_reply_fits :
      (host : Host) (cmd : ℕ)
      → length payload ≡ pb.byte_size
      → ((pb.byte_size < 65536)
          × (head : MsgHead) × (write_reply host alloc cmd pb m
              ≡ written (record { m_msg = some (frame host head payload); m_msg_head = head }))
          × (head.pb_length ≡ pb.byte_size)
          × (head.cmd_id ≡ cmd % 65536))
        ⊎ ((65536 ≤ pb.byte_size) × (write_reply host alloc cmd pb m ≡ overrun))
  unfolding write_reply set_cmd_id set_pb_length
  write_reply_fits host cmd n =
      let out : Message = set_pb_length (set_cmd_id m cmd) pb.byte_size in
      elim (Bool-cases (ltb pb.byte_size 65536)) [
        | inl e ↦
            let small : pb.byte_size < 65536 = ltb→lt _ _ e in
            inl (
              small,
              out.m_msg_head,
              write_msg-frame_lem host alloc pb out payload serializes (omega arith),
              omega arith,
              refl,
            )
        | inr e ↦
            let large : 65536 ≤ pb.byte_size = ltb→ge _ _ e in
            inr (large, write_msg-overrun host alloc pb out payload serializes (omega arith))
      ]
