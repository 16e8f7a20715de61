-- ===== src/Message/Frame.antt =====
-- What write_msg leaves in memory: the bytes of one frame, in plain arithmetic.
use db_proxy_server.Message.Bytes.{
  Host, u8, htons, store16-htons, store32-htonl, write_at, Allocator,
}
use db_proxy_server.Message.{
  MsgHead, Message, head_bytes, xor_bytes, PbData, written, overrun, write_check_sum, write_payload,
  write_msg, version_value,
}
use db_proxy_server.Prelude.{
  ℕ, ◌+◌, ◌/◌, ◌%◌, ◌≤◌, ◌<◌, ◌≡◌, refl, ◌∙◌, some, List, [], ◌∷◌, ◌++◌, length, take, drop,
  bit_xor, le→leb, arith, drop_all, length-drop, length-append,
}
use mathlib.Core.List.{append-nil}

-- The 26 bytes before the checksum, each field with its high byte first.
unfoldable pub plain_head : Host → MsgHead → List ℕ
plain_head host head =
    0x7e
    ∷ 0xaa
    ∷ (head.s_node / 16777216 % 256)
    ∷ (head.s_node / 65536 % 256)
    ∷ (head.s_node / 256 % 256)
    ∷ (head.s_node % 256)
    ∷ (head.s_socket / 16777216 % 256)
    ∷ (head.s_socket / 65536 % 256)
    ∷ (head.s_socket / 256 % 256)
    ∷ (head.s_socket % 256)
    ∷ u8 (htons host head.s_router)
    ∷ 0x66
    ∷ 0x23
    ∷ u8 (htons host version_value)
    ∷ (head.seq_num / 256 % 256)
    ∷ (head.seq_num % 256)
    ∷ (head.service_id / 256 % 256)
    ∷ (head.service_id % 256)
    ∷ (head.cmd_id / 256 % 256)
    ∷ (head.cmd_id % 256)
    ∷ (head.company_id / 16777216 % 256)
    ∷ (head.company_id / 65536 % 256)
    ∷ (head.company_id / 256 % 256)
    ∷ (head.company_id % 256)
    ∷ (head.pb_length / 256 % 256)
    ∷ (head.pb_length % 256)
    ∷ []

pub head_bytes-plain : (host : Host) (head : MsgHead) → head_bytes host head ≡ plain_head host head
unfolding plain_head
head_bytes-plain host head = unfold head_bytes in simp (store16-htons, store32-htonl)

pub length-plain_head : (host : Host) (head : MsgHead) → length (plain_head host head) ≡ 26
unfolding plain_head
length-plain_head host head = refl

-- The checksum of a payload: the exclusive or of the length's two bytes and of the payload's.
unfoldable pub check_sum_of : ℕ → List ℕ → ℕ
check_sum_of n payload = xor_bytes n (bit_xor (n / 256 % 256) (n % 256)) payload

-- One message on the wire.
unfoldable pub frame : Host → MsgHead → List ℕ → List ℕ
unfolding plain_head check_sum_of
frame host head payload =
    plain_head host head ++ (u8 (check_sum_of head.pb_length payload) ∷ payload)

pub length-frame :
    (host : Host) (head : MsgHead) (payload : List ℕ)
    → length (frame host head payload) ≡ 27 + length payload
unfolding frame
length-frame host head payload = omega arith

pub drop-frame :
    (host : Host) (head : MsgHead) (payload : List ℕ) → drop 27 (frame host head payload) ≡ payload
unfolding frame
drop-frame host head payload = refl

write_at_within :
    (mem bs : List ℕ) (at : ℕ)
    → at + length bs ≤ length mem
    → write_at mem at bs ≡ some (take at mem ++ (bs ++ drop (at + length bs) mem))
unfolding write_at
write_at_within mem bs at h = rw (le→leb _ _ h)

write_payload-serialized :
    (pb : PbData) (m : Message) (mem payload : List ℕ) {mem' : List ℕ}
    → pb.serialized ≡ some payload
    → write_at mem 27 payload ≡ some mem'
    → write_payload pb m mem ≡ write_check_sum m mem'
unfolding write_payload
write_payload-serialized pb m mem payload e w = ground arith

write_msg-head :
    (host : Host) (alloc : Allocator) (pb : PbData) (m : Message) {mem : List ℕ}
    → write_at
        (alloc.realloc m.m_msg (27 + m.m_msg_head.pb_length))
        0
        (head_bytes host m.m_msg_head)
      ≡ some mem
    → write_msg host alloc pb m ≡ write_payload pb m mem
unfolding write_msg
write_msg-head host alloc pb m w = ground arith

-- The last store, over memory that holds the header, one byte for the checksum and the payload.
write_check_sum-frame :
    (host : Host) (m : Message) (x : ℕ) (payload : List ℕ)
    → write_check_sum m (plain_head host m.m_msg_head ++ (x ∷ payload))
      ≡ written (record m { m_msg = some (frame host m.m_msg_head payload) })
unfolding write_check_sum frame plain_head check_sum_of
write_check_sum-frame host m x payload =
    let fits =
      write_at_within (plain_head host m.m_msg_head ++ (x ∷ payload))
        (u8 (check_sum_of m.m_msg_head.pb_length payload) ∷ []) 26 (omega arith) in
    rw (fits, write_check_sum)

write_payload-frame :
    (host : Host) (pb : PbData) (m : Message) (payload tail : List ℕ)
    → pb.serialized ≡ some payload
    → 1 + length payload ≡ length tail
    → write_payload pb m (plain_head host m.m_msg_head ++ tail)
      ≡ written (record m { m_msg = some (frame host m.m_msg_head payload) })
unfolding plain_head
write_payload-frame host pb m payload [] e h = absurd (omega arith)
write_payload-frame host pb m payload (x ∷ tail) e h =
    write_payload-serialized pb m (plain_head host m.m_msg_head ++ (x ∷ tail)) payload e (
      write_at_within (plain_head host m.m_msg_head ++ (x ∷ tail)) payload 27 (omega arith)
      ∙ rw (
        drop_all (27 + length payload) (plain_head host m.m_msg_head ++ (x ∷ tail)) (omega arith),
        append-nil payload,
      ))
    ∙ write_check_sum-frame host m x payload

-- The stores of the header over a fresh region.
head_written :
    (host : Host) (alloc : Allocator) (m : Message)
    → (tail : List ℕ) × (write_at
          (alloc.realloc m.m_msg (27 + m.m_msg_head.pb_length))
          0
          (head_bytes host m.m_msg_head)
        ≡ some (plain_head host m.m_msg_head ++ tail))
      × (length tail ≡ 1 + m.m_msg_head.pb_length)
head_written host alloc m =
    let mem = alloc.realloc m.m_msg (27 + m.m_msg_head.pb_length) in
    let n = alloc.length-realloc m.m_msg (27 + m.m_msg_head.pb_length) in
    (
      drop 26 mem,
      rw (head_bytes-plain host m.m_msg_head) (
          unfold plain_head in
          write_at_within mem (plain_head host m.m_msg_head) 0 (omega (arith, n))),
      omega (arith, n, length-drop 26 mem),
    )

pub write_msg-frame_lem :
    (host : Host) (alloc : Allocator) (pb : PbData) (m : Message) (payload : List ℕ)
    → pb.serialized ≡ some payload
    → length payload ≡ m.m_msg_head.pb_length
    → write_msg host alloc pb m
      ≡ written (record m { m_msg = some (frame host m.m_msg_head payload) })
write_msg-frame_lem host alloc pb m payload e h =
    let (tail, w, n) = head_written host alloc m in
    write_msg-head host alloc pb m w ∙ write_payload-frame host pb m payload tail e (omega arith)

pub write_msg-overrun :
    (host : Host) (alloc : Allocator) (pb : PbData) (m : Message) (payload : List ℕ)
    → pb.serialized ≡ some payload
    → m.m_msg_head.pb_length < length payload
    → write_msg host alloc pb m ≡ overrun
write_msg-overrun host alloc pb m payload e h =
    let (tail, w, n) = head_written host alloc m in
    write_msg-head host alloc pb m w
    ∙ past_end (plain_head host m.m_msg_head ++ tail) (
        omega (
          arith,
          n,
          length-plain_head host m.m_msg_head,
          length-append (plain_head host m.m_msg_head) tail,
        ))
  where
    past_end : (mem : List ℕ) → length mem < 27 + length payload → write_payload pb m mem ≡ overrun
    past_end mem past = unfold write_payload write_at in ground arith
