-- ===== src/Framing/Loss.antt =====
-- handle_head goes on with the old extent after it drained the buffer: `i` counts from the old base,
-- and `evbuffer_drain(input, i)` from the new front. A byte 7E that begins no header therefore costs
-- the next header.
use db_proxy_server.EvBuffer.{EvBuffer}
use db_proxy_server.Message.Bytes.{Host}
use db_proxy_server.Message.{MsgHead, s_tag_7e, s_tag_aa}
use db_proxy_server.Framing.{
  header, no_header, Sought, stray, out_of_fuel, Read, ready, waiting, compare_second, second_byte,
  at_mark, scan, handle_head, seek_header, read_head, next_head,
}
use db_proxy_server.Framing.Suffix.{
  length-IsSuffix, ScanKeeps, SoughtKeeps, scan-Keeps, at_mark-Keeps, next_extent-Keeps,
  handle_head-Keeps,
}
use db_proxy_server.Framing.Termination.{ReadEnds, head_of, retry-ReadEnds, read_head-ReadEnds}
use db_proxy_server.Framing.Progress.{size, seek_header-ne-out_of_fuel}
use db_proxy_server.Framing.Resync.{
  IsBytes, HasNoMark, IsOneExtent, scan-append_lem, scan-append_start, read_head-junk, size_of_junk,
  peek_of_junk,
}
use db_proxy_server.Prelude.{
  ℕ, suc, ◌+◌, ◌-◌, ◌≤◌, ◌<◌, ◌≡◌, refl, ap, sym, subst, ◌∙◌, ◌≢◌, some, List, [], ◌∷◌, ◌++◌,
  length, length-append, length-drop, arith,
}

-- The first two bytes of the input are no header's.
front_two :
    (y : ℕ)
    → y ≢ s_tag_aa
    → (front l : List ℕ) → HasNoMark front
    → (x : ℕ) × (z : ℕ) × (t : List ℕ) × (front ++ (s_tag_7e ∷ y ∷ l) ≡ x ∷ z ∷ t)
      × ¬ ((x ≡ s_tag_7e) × (z ≡ s_tag_aa))
front_two y n [] l h = (s_tag_7e, y, l, refl, λ p. n p.1)
front_two y n (x ∷ []) l h = (x, s_tag_7e, y ∷ l, refl, λ p. h.0 p.0)
front_two y n (x ∷ z ∷ front) l h = (x, z, front ++ (s_tag_7e ∷ y ∷ l), refl, λ p. h.0 p.0)

module _ (evb : EvBuffer) where
  open evb use {Buf, bytes, drain, peek}

  -- Whatever is left in the buffer when handle_head or read_head returns is shorter than `n`.
  abbrev pub SoughtBelow : ℕ → Sought Buf → Type 0
  SoughtBelow n (header c) = length (bytes c) < n
  SoughtBelow n (no_header c) = length (bytes c) < n
  SoughtBelow n stray = Unit {0}
  SoughtBelow n out_of_fuel = Unit {0}

  abbrev pub ReadBelow : ℕ → Read Buf → Type 0
  ReadBelow n (ready head c) = length (bytes c) < n
  ReadBelow n (waiting head c) = length (bytes c) < n
  ReadBelow n stray = Unit {0}
  ReadBelow n out_of_fuel = ⊥

  SoughtKeeps-Below :
      (n : ℕ) (b : Buf) (r : Sought Buf)
      → length (bytes b) < n
      → SoughtKeeps evb b r
      → SoughtBelow n r
  SoughtKeeps-Below n b (header c) h k = omega (arith, length-IsSuffix evb k)
  SoughtKeeps-Below n b (no_header c) h k = omega (arith, length-IsSuffix evb k)
  SoughtKeeps-Below n b stray h k = tt
  SoughtKeeps-Below n b out_of_fuel h k = tt

  ReadEnds-Below :
      (host : Host) (n : ℕ) (b : Buf) (r : Read Buf)
      → length (bytes b) < n
      → ReadEnds evb host b r
      → ReadBelow n r
  ReadEnds-Below host n b (ready head c) h k = omega (arith, length-IsSuffix evb k.0)
  ReadEnds-Below host n b (waiting head c) h k = omega (arith, length-IsSuffix evb k)
  ReadEnds-Below host n b stray h k = tt
  ReadEnds-Below host n b out_of_fuel h k = k

  length-drain : (b : Buf) (n : ℕ) → length (bytes (drain b n)) ≡ length (bytes b) - n
  length-drain b n = ap length (evb.drain-bytes b n) ∙ length-drop n (bytes b)

  -- At a byte 7E that is not followed by AA, in an extent that was not drained before.
  scan_stray :
      (k i y : ℕ) (xs t : List ℕ) (b : Buf)
      → peek (drain b i) ≡ some (s_tag_7e ∷ y ∷ t)
      → y ≢ s_tag_aa
      → suc i < k
      → scan evb k i (s_tag_7e ∷ xs) b ≡ scan evb k (i + 1) xs (drain (drain b i) 1)
  unfolding scan compare_second second_byte at_mark
  scan_stray k i y xs t b p n h = ground arith

  -- The loop from a byte 7E on leaves at most what `evbuffer_drain(input, i)` leaves.
  scan_mark-Keeps :
      (k i : ℕ) (xs : List ℕ) (b : Buf) → ScanKeeps evb (drain b i) (scan evb k i (s_tag_7e ∷ xs) b)
  unfolding scan
  scan_mark-Keeps k i xs b =
      at_mark-Keeps evb (compare_second evb k i (drain b i)) (scan evb k (i + 1) xs) (drain b i)
        (scan-Keeps evb k (i + 1) xs)

  module _ (b : Buf) (front : List ℕ) (y : ℕ) (middle rest : List ℕ) (one : IsOneExtent evb b)
      (front_free : HasNoMark front) (y_ne_mark : y ≢ s_tag_7e) (y_ne_second : y ≢ s_tag_aa)
      (middle_free : HasNoMark middle)
      (held : bytes b ≡ front ++ (s_tag_7e ∷ y ∷ (middle ++ (s_tag_7e ∷ s_tag_aa ∷ rest)))) where
    -- What the buffer is drained to at the byte 7E of the header.
    left : Buf
    left = drain (drain (drain b (length front)) 1) (length front + 1 + 1 + length middle)

    length-left : length (bytes left) ≤ length rest + 1
    unfolding left
    length-left = omega (
      arith,
      size_of_junk evb b front _ held,
      length-append middle (s_tag_7e ∷ s_tag_aa ∷ rest),
      length-drain b (length front),
      length-drain (drain b (length front)) 1,
      length-drain (drain (drain b (length front)) 1) (length front + 1 + 1 + length middle),
    )

    scan_to_header :
        scan evb (length (bytes b)) 0 (bytes b) b
        ≡ scan evb
            (length (bytes b))
            (length front + 1 + 1 + length middle)
            (s_tag_7e ∷ s_tag_aa ∷ rest)
            (drain (drain b (length front)) 1)
    scan_to_header =
        let k = length (bytes b) in
        let tail = middle ++ (s_tag_7e ∷ s_tag_aa ∷ rest) in
        ap (λ (l : List ℕ). scan evb k 0 l b) held
        ∙ scan-append_start evb k front (s_tag_7e ∷ y ∷ tail) b front_free
        ∙ scan_stray k (length front) y (y ∷ tail) tail b
            (peek_of_junk evb b front _ one (omega arith) held) y_ne_second
            (omega (arith, size_of_junk evb b front _ held))
        ∙ scan-append_lem evb k (length front + 1) (y ∷ []) tail (drain (drain b (length front)) 1)
            (y_ne_mark, tt)
        ∙ scan-append_lem evb k (length front + 1 + 1) middle (s_tag_7e ∷ s_tag_aa ∷ rest)
            (drain (drain b (length front)) 1) middle_free

    seek_header-Keeps_left : SoughtKeeps evb left (seek_header evb b)
    unfolding seek_header handle_head left
    seek_header-Keeps_left =
        let k = length (bytes b) in
        rw (one.whole, handle_head)
          (next_extent-Keeps evb (handle_head evb (evb.get_length b)) k left
            (scan evb k 0 (bytes b) b) (handle_head-Keeps evb (evb.get_length b))
            (subst (ScanKeeps evb left) (sym scan_to_header)
              (scan_mark-Keeps k _ (s_tag_aa ∷ rest) (drain (drain b (length front)) 1))))

    -- Where the input lies in one extent and a byte 7E that is followed by another byte than AA and
    -- 7E stands before a header, with no byte 7E before it or between the two, handle_head does not
    -- stop at the header: what it leaves in the buffer begins behind the header's first byte.
    pub seek_header-Below : SoughtBelow (length rest + 2) (seek_header evb b)
    seek_header-Below =
        SoughtKeeps-Below _ left (seek_header evb b) (omega (arith, length-left))
          seek_header-Keeps_left

    -- A header is lost where the input lies in one extent, also after a part of it was drained, and has
    -- 27 bytes at least, and a byte 7E that is followed by another byte than AA and 7E stands before the
    -- header, with no byte 7E before it or between the two: read_head comes to a stray read (of memory
    -- behind an extent), or else what it leaves in the buffer begins behind the first byte of that
    -- header, so that it does not return true at it.
    pub next_head-Below :
        (host : Host) (head : MsgHead)
        → IsBytes (bytes b)
        → 27 ≤ length (bytes b)
        → ReadBelow (length rest + 2) (next_head evb host head b)
    unfolding next_head
    next_head-Below host head ok long =
        let (x, z, t, shape, differs) = front_two y y_ne_second front _ front_free in
        let h = head_of evb host b in
        subst (ReadBelow (length rest + 2))
          (sym (
            read_head-junk evb host (evb.get_length b) head b x z t (held ∙ shape) long ok differs))
          (ReadEnds-Below host (length rest + 2) left _ (omega (arith, length-left)) (
            retry-ReadEnds evb host (read_head evb host (evb.get_length b) h) h left
              (seek_header evb b)
              (λ c q.
                read_head-ReadEnds evb host (evb.get_length b) h c
                  (small c (subst (SoughtBelow (length rest + 2)) q seek_header-Below)))
              seek_header-Keeps_left (seek_header-ne-out_of_fuel evb b)))
      where
        small : (c : Buf) → length (bytes c) < length rest + 2 → size evb c < evb.get_length b
        small c l =
            unfold size in
            omega (
              arith,
              evb.get_length-bytes b,
              size_of_junk evb b front _ held,
              length-append middle (s_tag_7e ∷ s_tag_aa ∷ rest),
            )
