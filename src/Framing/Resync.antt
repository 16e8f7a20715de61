-- ===== src/Framing/Resync.antt =====
-- Input that lies in one extent: read_head passes over bytes that cannot begin a header and stops
-- at the next frame.
use db_proxy_server.EvBuffer.{EvBuffer}
use db_proxy_server.Message.Bytes.{Host, htons-load16_bytes}
use db_proxy_server.Message.{MsgHead, parse_head, s_tag_7e, s_tag_aa, s_tag_value}
use db_proxy_server.Message.Frame.{frame, length-frame}
use db_proxy_server.Message.RoundTrip.{IsHead, received, parse_head-take-frame}
use db_proxy_server.Framing.{
  found, Sought, header, ready, is_tagged, compare_second, second_byte, at_mark, scan, next_extent,
  handle_head, seek_header, retry, resume, read_head, next_head,
}
use db_proxy_server.Framing.Termination.{head_of, read_head_ready, read_head_seek}
use db_proxy_server.Prelude.{
  ℕ, zero, suc, ◌+◌, ◌≤◌, ◌<◌, ◌≡◌, refl, ap, sym, ◌∙◌, ◌≢◌, false, some, List, [], ◌∷◌, ◌++◌,
  length, length-append, All, take, drop, ne→==, arith, drop-append_length,
}

-- A list of bytes.
abbrev pub IsBytes : List ℕ → Type 0
IsBytes = All (λ x. x < 256)

-- No byte of the list is 7E.
abbrev pub HasNoMark : List ℕ → Type 0
HasNoMark = All (λ x. x ≢ s_tag_7e)

s_tag_bytes :
    (host : Host) (x y : ℕ) (l : List ℕ)
    → x < 256
    → y < 256
    → (parse_head host (x ∷ y ∷ l)).s_tag ≡ s_tag_value
    → (x ≡ s_tag_7e) × (y ≡ s_tag_aa)
unfolding parse_head
s_tag_bytes host x y l hx hy e = omega (arith, htons-load16_bytes host x y hx hy)

nonempty : (l : List ℕ) → 0 < length l → (y : ℕ) × (t : List ℕ) × (l ≡ y ∷ t)
nonempty [] h = absurd (omega arith)
nonempty (y ∷ t) h = (y, t, refl)

module _ (evb : EvBuffer) where
  open evb use {Buf, bytes, copyout, drain, peek}

  -- The whole input lies in one extent, also after a part of it was drained.
  pub record IsOneExtent (b : Buf) : Type 0 where
    pub whole : peek b ≡ some (bytes b)
    pub drained : (n : ℕ) → n < length (bytes b) → peek (drain b n) ≡ some (drop n (bytes b))

  pub scan-append_lem :
      (k i : ℕ) (xs ys : List ℕ) (b : Buf)
      → HasNoMark xs
      → scan evb k i (xs ++ ys) b ≡ scan evb k (i + length xs) ys b
  unfolding scan
  scan-append_lem k i [] ys b h = ap (λ (j : ℕ). scan evb k j ys b) (omega arith)
  scan-append_lem k i (x ∷ xs) ys b (h, hs) =
      rw (ne→== x s_tag_7e h, scan)
        (scan-append_lem k (i + 1) xs ys b hs ∙ ap (λ (j : ℕ). scan evb k j ys b) (omega arith))

  pub scan-append_start :
      (k : ℕ) (xs ys : List ℕ) (b : Buf)
      → HasNoMark xs
      → scan evb k 0 (xs ++ ys) b ≡ scan evb k (length xs) ys b
  scan-append_start k xs ys b h =
      scan-append_lem k 0 xs ys b h ∙ ap (λ (j : ℕ). scan evb k j ys b) (omega arith)

  -- At a mark that is not at the end of the extent.
  scan-found_lem :
      (k i : ℕ) (xs t : List ℕ) (b : Buf)
      → peek (drain b i) ≡ some (s_tag_7e ∷ s_tag_aa ∷ t)
      → suc i < k
      → scan evb k i (s_tag_7e ∷ xs) b ≡ found (drain b i)
  unfolding scan compare_second second_byte at_mark
  scan-found_lem k i xs t b p h = ground arith

  pub size_of_junk :
      (b : Buf) (junk t : List ℕ) → bytes b ≡ junk ++ t → length (bytes b) ≡ length junk + length t
  size_of_junk b junk t e = ap length e ∙ length-append junk t

  pub peek_of_junk :
      (b : Buf) (junk t : List ℕ)
      → IsOneExtent b
      → 0 < length t
      → bytes b ≡ junk ++ t
      → peek (drain b (length junk)) ≡ some t
  peek_of_junk b junk t one pos e =
      one.drained (length junk) (omega (arith, size_of_junk b junk t e))
      ∙ ap some (ap (drop (length junk)) e ∙ drop-append_length (length junk) junk t refl)

  -- handle_head from a first mark that is a header's.
  seek_header-found :
      (b : Buf) (junk t : List ℕ)
      → IsOneExtent b
      → HasNoMark junk
      → bytes b ≡ junk ++ (s_tag_7e ∷ s_tag_aa ∷ t)
      → seek_header evb b ≡ header (drain b (length junk))
  unfolding seek_header handle_head next_extent
  seek_header-found b junk t one none_marked e =
      let found_it =
        ap (λ (l : List ℕ). scan evb (length (bytes b)) 0 l b) e
        ∙ scan-append_start (length (bytes b)) junk (s_tag_7e ∷ s_tag_aa ∷ t) b none_marked
        ∙ scan-found_lem (length (bytes b)) (length junk) (s_tag_aa ∷ t) t b
            (peek_of_junk b junk _ one (omega arith) e) (omega (arith, size_of_junk b junk _ e)) in
      rw (one.whole, handle_head, found_it)

  -- A frame at the front is ready at once.
  pub read_head-frame :
      (host : Host) (fuel : ℕ) (head : MsgHead) (b : Buf) (sent : MsgHead) (payload rest : List ℕ)
      → IsHead sent
      → bytes b ≡ frame host sent payload ++ rest
      → read_head evb host (suc fuel) head b ≡ ready (received host sent payload) b
  read_head-frame host fuel head b sent payload rest h e =
      let parsed : head_of evb host b ≡ received host sent payload =
        ap (parse_head host) (evb.copyout-bytes b 27 ∙ ap (take 27) e)
        ∙ parse_head-take-frame host sent payload rest h in
      read_head_ready evb host fuel head b
        (omega
          (arith, size_of_junk b (frame host sent payload) rest e, length-frame host sent payload))
        (ap is_tagged parsed)
      ∙ ap (λ (r : MsgHead). ready r b) parsed

  -- The first two bytes of the input begin no header.
  pub junk_front :
      (host : Host) (b : Buf) (x y : ℕ) (l : List ℕ)
      → bytes b ≡ x ∷ y ∷ l
      → IsBytes (bytes b)
      → ¬ ((x ≡ s_tag_7e) × (y ≡ s_tag_aa))
      → (is_tagged (head_of evb host b) ≡ false) × (resume evb (head_of evb host b) b ≡ b)
  unfolding resume
  junk_front host b x y l e ok n = (ground (arith, other), rw (ne→== _ _ other, resume))
    where
      in_range : IsBytes (x ∷ y ∷ l)
      in_range = rw e at ok

      other : (head_of evb host b).s_tag ≢ s_tag_value
      other q = n (
          s_tag_bytes host x y (take 25 l) in_range.0 in_range.1.0 (
            ap (λ (t : List ℕ). (parse_head host (take 27 t)).s_tag) (sym e)
            ∙ ap (λ (t : List ℕ). (parse_head host t).s_tag) (sym (evb.copyout-bytes b 27))
            ∙ q))

  -- A round over junk hands the input to handle_head as it is.
  pub read_head-junk :
      (host : Host) (fuel : ℕ) (head : MsgHead) (b : Buf) (x y : ℕ) (l : List ℕ)
      → bytes b ≡ x ∷ y ∷ l
      → 27 ≤ length (bytes b)
      → IsBytes (bytes b)
      → ¬ ((x ≡ s_tag_7e) × (y ≡ s_tag_aa))
      → read_head evb host (suc fuel) head b
        ≡ retry evb
            (read_head evb host fuel (head_of evb host b))
            (head_of evb host b)
            (seek_header evb b)
  read_head-junk host fuel head b x y l e long ok n =
      let (untagged, same) = junk_front host b x y l e ok n in
      read_head_seek evb host fuel head b long untagged
      ∙ ap
          (λ (c : Buf).
            retry evb (read_head evb host fuel (head_of evb host b)) (head_of evb host b)
              (seek_header evb c))
          same

  -- handle_head found a place where a frame stands.
  retry-frame :
      (host : Host) (fuel : ℕ) (head : MsgHead) (c : Buf) (r : Sought Buf) (sent : MsgHead)
      (payload rest : List ℕ)
      → r ≡ header c
      → 0 < fuel
      → IsHead sent
      → bytes c ≡ frame host sent payload ++ rest
      → retry evb (read_head evb host fuel head) head r ≡ ready (received host sent payload) c
  unfolding retry
  retry-frame host zero head c r sent payload rest q pos h e = absurd (omega arith)
  retry-frame host (suc fuel) head c r sent payload rest q pos h e =
      rw q (read_head-frame host fuel head c sent payload rest h e)

  -- Where the input lies in one extent and begins with bytes other than 7E, one at least, before a
  -- frame that write_msg wrote, read_head drains those bytes and no more, and returns true with the
  -- header that was sent.
  pub next_head-resync :
      (host : Host) (head : MsgHead) (b : Buf) (x : ℕ) (junk : List ℕ) (sent : MsgHead)
      (payload rest : List ℕ)
      → IsOneExtent b
      → IsBytes (bytes b)
      → HasNoMark (x ∷ junk)
      → IsHead sent
      → bytes b ≡ (x ∷ junk) ++ (frame host sent payload ++ rest)
      → (next_head evb host head b
          ≡ ready (received host sent payload) (drain b (suc (length junk))))
        × (bytes (drain b (suc (length junk))) ≡ frame host sent payload ++ rest)
  unfolding next_head frame
  next_head-resync host head b x junk sent payload rest one ok none_marked h e =
      let behind : bytes (drain b (suc (length junk))) ≡ frame host sent payload ++ rest =
        evb.drain-bytes b _
        ∙ ap (drop (suc (length junk))) e
        ∙ drop-append_length (length junk) junk (frame host sent payload ++ rest) refl in
      let long : 27 ≤ length (bytes b) = omega (
        arith,
        size_of_junk b (x ∷ junk) (frame host sent payload ++ rest) e,
        length-append (frame host sent payload) rest,
        length-frame host sent payload,
      ) in
      let (y, l, front) =
        nonempty (junk ++ (frame host sent payload ++ rest)) (omega (arith, long, ap length e)) in
      (
        read_head-junk host _ head b x y l (e ∙ ap (◌∷◌ x) front) long ok (λ p. none_marked.0 p.0)
            ∙ retry-frame host _ _ (drain b (suc (length junk))) _ sent payload rest
                (seek_header-found b (x ∷ junk) (drop 2 (frame host sent payload ++ rest)) one
                  none_marked e)
                (omega (arith, long, evb.get_length-bytes b)) h behind,
        behind,
      )
