-- ===== src/Framing.antt =====
-- src/message.cpp: how read_head finds the next header in the input, and how handle_head looks for
-- the two bytes 7E AA after a header that does not fit. Both are loops over an evbuffer.
pub mod Progress
pub mod Suffix
pub mod Termination
pub mod Resync
pub mod Loss
use db_proxy_server.EvBuffer.{EvBuffer}
use db_proxy_server.Message.Bytes.{Host}
use db_proxy_server.Message.{
  MsgHead, parse_head, header_len, s_tag_7e, s_tag_aa, s_tag_value, c_tag_value,
}
use db_proxy_server.Prelude.{
  ℕ, zero, suc, ◌+◌, ◌-◌, Bool, true, false, Option, none, some, List, [], ◌∷◌, length, get_elem?,
  ltb, ◌==◌, ◌&&◌, if◌then◌else◌,
}

-- How one `for` loop of handle_head ends. `stray` is a read past the end of the peeked extent.
pub data Scan {ℓ} (B : Type ℓ) : Type ℓ where
  found not_found exhausted : B → Scan B
  stray : Scan B

-- How handle_head returns: true, false, after a stray read, or not within the fuel.
pub data Sought {ℓ} (B : Type ℓ) : Type ℓ where
  header no_header : B → Sought B
  stray : Sought B
  out_of_fuel : Sought B

-- How read_head returns: true or false with the header it filled in, or as above.
pub data Read {ℓ} (B : Type ℓ) : Type ℓ where
  ready waiting : MsgHead → B → Read B
  stray : Read B
  out_of_fuel : Read B

-- Both tags are right.
abbrev pub is_tagged : MsgHead → Bool
is_tagged head = (head.s_tag == s_tag_value) && (head.c_tag == c_tag_value)

module _ (evb : EvBuffer) where
  open evb use {Buf, get_length, copyout, drain, peek}

  -- The byte that is compared with S_TAG_AA: the first of the new extent if `i` is the last index
  -- of the old one, else the second.
  unfoldable pub second_byte : ℕ → ℕ → List ℕ → Option ℕ
  second_byte iov_len i vec_temp =
      if i == iov_len - 1 then get_elem? vec_temp 0 else get_elem? vec_temp 1

  -- After `evbuffer_drain(input, i)`.
  unfoldable pub compare_second : ℕ → ℕ → Buf → Option (Option ℕ)
  compare_second iov_len i input = elim (peek input) [
    | none ↦ none
    | some vec_temp ↦ some (second_byte iov_len i vec_temp)
  ]

  -- The body of the loop at a byte 7E: `rest` is the rest of the loop. The first argument is the
  -- outcome of `compare_second`.
  unfoldable pub at_mark : Option (Option ℕ) → (Buf → Scan Buf) → Buf → Scan Buf
  at_mark none rest input = not_found input
  at_mark (some none) rest input = stray
  at_mark (some (some y)) rest input = if y == s_tag_aa then found input else rest (drain input 1)

  -- The loop over `vec`, from index `i` on. `vec` is the extent that was peeked before the loop:
  -- its base pointer and length are not renewed when the loop drains the buffer.
  unfoldable pub scan : ℕ → ℕ → List ℕ → Buf → Scan Buf
  scan iov_len i [] input = exhausted input
  scan iov_len i (x ∷ xs) input = elim (x == s_tag_7e) [
    | false ↦ scan iov_len (i + 1) xs input
    | true ↦
        at_mark (compare_second iov_len i (drain input i)) (scan iov_len (i + 1) xs) (drain input i)
  ]

  -- What follows the `for` loop: `again` is the `while` loop's next round.
  unfoldable pub next_extent : (Buf → Sought Buf) → ℕ → Scan Buf → Sought Buf
  next_extent again iov_len (found b) = header b
  next_extent again iov_len (not_found b) = no_header b
  next_extent again iov_len (exhausted b) = again (drain b iov_len)
  next_extent again iov_len stray = stray

  -- The `while` loop, on fuel.
  unfoldable pub handle_head : ℕ → Buf → Sought Buf
  handle_head zero input = out_of_fuel
  handle_head (suc fuel) input = elim (peek input) [
    | none ↦ no_header input
    | some vec ↦ next_extent (handle_head fuel) (length vec) (scan (length vec) 0 vec input)
  ]

  -- handle_head with fuel that suffices (Progress.handle_head-ne-out_of_fuel).
  unfoldable pub seek_header : Buf → Sought Buf
  seek_header input = handle_head (suc (get_length input)) input

  -- `if (handle_head(input)) continue; else return false;`.
  unfoldable pub retry : (Buf → Read Buf) → MsgHead → Sought Buf → Read Buf
  retry again head (header b) = again b
  retry again head (no_header b) = waiting head b
  retry again head stray = stray
  retry again head out_of_fuel = out_of_fuel

  -- The drain before handle_head: 2 bytes if only the client's tag is wrong.
  unfoldable pub resume : MsgHead → Buf → Buf
  resume head input = if head.s_tag == s_tag_value then drain input 2 else input

  -- `m_msg_head` is filled in on every round.
  unfoldable pub read_head : Host → ℕ → MsgHead → Buf → Read Buf
  read_head host zero head input = out_of_fuel
  read_head host (suc fuel) head input = elim (ltb (get_length input) header_len) [
    | true ↦ waiting head input
    | false ↦
        let head' = parse_head host (copyout input header_len) in
        elim (is_tagged head') [
          | true ↦ ready head' input
          | false ↦ retry (read_head host fuel head') head' (seek_header (resume head' input))
        ]
  ]

  -- read_head with fuel that suffices (Progress.next_head-ne-out_of_fuel).
  unfoldable pub next_head : Host → MsgHead → Buf → Read Buf
  next_head host head input = read_head host (suc (get_length input)) head input
