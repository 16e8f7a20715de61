-- ===== src/Framing/Termination.antt =====
-- read_head ends on every input, and what it hands on is a header at the front of the buffer.
use db_proxy_server.EvBuffer.{EvBuffer}
use db_proxy_server.Message.Bytes.{Host}
use db_proxy_server.Message.{
  MsgHead, parse_head, s_tag_7e, s_tag_aa, s_tag_value, c_tag_value, header_len,
}
use db_proxy_server.Message.RoundTrip.{s_tag-load}
use db_proxy_server.Framing.{
  Sought, header, no_header, out_of_fuel, stray, Read, ready, waiting, retry, resume, is_tagged,
  seek_header, read_head, next_head,
}
use db_proxy_server.Framing.Progress.{
  size, size-drain, IsMarked, seek_header-header, seek_header-ne-out_of_fuel,
}
use db_proxy_server.Framing.Suffix.{
  IsSuffix, IsSuffix-self, IsSuffix-trans, IsSuffix-resume, SoughtKeeps, seek_header-Keeps,
}
use db_proxy_server.Prelude.{
  ℕ, zero, suc, ◌≤◌, ◌<◌, ◌≡◌, refl, ap, ◌≢◌, inl, inr, true, false, some, List, [], ◌∷◌, length,
  get_elem?, take, ltb, ◌==◌, ==→ne, ltb→ge, ge→ltb, lt→ltb, subst, sym, arith, Bool-cases,
}

s_tag-take :
    (host : Host) (l : List ℕ)
    → get_elem? l 0 ≡ some s_tag_7e
    → get_elem? l 1 ≡ some s_tag_aa
    → (parse_head host (take 27 l)).s_tag ≡ s_tag_value
unfolding parse_head
s_tag-take host [] e f = cc
s_tag-take host (x ∷ []) e f = cc
s_tag-take host (x ∷ y ∷ l) e f =
    let p : x ≡ s_tag_7e = cc in let q : y ≡ s_tag_aa = cc in rw (p, q) (s_tag-load host)

module _ (evb : EvBuffer) where
  open evb use {Buf, bytes, copyout, drain}

  -- The header that a round of read_head fills in.
  abbrev pub head_of : Host → Buf → MsgHead
  head_of host b = parse_head host (copyout b header_len)

  s_tag-marked : (host : Host) (b : Buf) → IsMarked evb b → (head_of host b).s_tag ≡ s_tag_value
  s_tag-marked host b k = rw (evb.copyout-bytes b 27) (s_tag-take host (bytes b) k.0 k.1)

  -- Where handle_head starts, nothing is marked that read_head has not seen.
  resume-header :
      (host : Host) (b b' : Buf)
      → 27 ≤ size evb b
      → is_tagged (head_of host b) ≡ false
      → seek_header evb (resume evb (head_of host b) b) ≡ header b'
      → size evb b' < size evb b
  unfolding resume
  resume-header host b b' n t e = elim (Bool-cases ((head_of host b).s_tag == s_tag_value)) [
    | inl s ↦
        omega
          (arith, size-drain evb b 2, seek_header-header evb (drain b 2) b' (rw (s, resume) at e))
    | inr s ↦ elim (seek_header-header evb b b' (rw (s, resume) at e)) [
      | inl less ↦ less
      | inr (marked, _) ↦ absurd (==→ne _ _ s (s_tag-marked host b marked))
    ]
  ]

  pub size-of_length : (b : Buf) → evb.get_length b ≡ size evb b
  unfolding size
  size-of_length b = evb.get_length-bytes b

  -- How read_head may end from `b`: `ready` with a header of both tags that stands, whole, at the
  -- front of what is left, `waiting` or `stray`, and never for want of fuel. What is left is a
  -- suffix of the input.
  abbrev pub ReadEnds : Host → Buf → Read Buf → Type 0
  ReadEnds host b (ready head c) =
      IsSuffix evb b c
      × (27 ≤ length (bytes c))
      × (head ≡ parse_head host (take 27 (bytes c)))
      × (head.s_tag ≡ s_tag_value)
      × (head.c_tag ≡ c_tag_value)
  ReadEnds host b (waiting head c) = IsSuffix evb b c
  ReadEnds host b stray = Unit {0}
  ReadEnds host b out_of_fuel = ⊥

  ReadEnds-after :
      (host : Host) {a b : Buf} (r : Read Buf)
      → IsSuffix evb a b
      → ReadEnds host b r
      → ReadEnds host a r
  ReadEnds-after host (ready head c) p q = (IsSuffix-trans evb p q.0, q.1, q.2, q.3, q.4)
  ReadEnds-after host (waiting head c) p q = IsSuffix-trans evb p q
  ReadEnds-after host stray p q = tt
  ReadEnds-after host out_of_fuel p q = absurd q

  pub retry-ReadEnds :
      (host : Host) (again : Buf → Read Buf) (head : MsgHead) (b : Buf) (r : Sought Buf)
      → ((c : Buf) → r ≡ header c → ReadEnds host c (again c))
      → SoughtKeeps evb b r
      → r ≢ out_of_fuel
      → ReadEnds host b (retry evb again head r)
  unfolding retry
  retry-ReadEnds host again head b (header c) h k n = ReadEnds-after host (again c) k (h c refl)
  retry-ReadEnds host again head b (no_header c) h k n = k
  retry-ReadEnds host again head b stray h k n = tt
  retry-ReadEnds host again head b out_of_fuel h k n = n refl

  is_tagged_lem :
      (head : MsgHead)
      → is_tagged head ≡ true
      → (head.s_tag ≡ s_tag_value) × (head.c_tag ≡ c_tag_value)
  is_tagged_lem head e = ground arith

  pub read_head-ReadEnds :
      (host : Host) (fuel : ℕ) (head : MsgHead) (b : Buf)
      → size evb b < fuel
      → ReadEnds host b (read_head evb host fuel head b)
  unfolding read_head
  read_head-ReadEnds host zero head b h = absurd (omega arith)
  read_head-ReadEnds host (suc fuel) head b h =
      elim (Bool-cases (ltb (evb.get_length b) header_len)) [
        | inl e ↦ rw (e, read_head) (IsSuffix-self evb b)
        | inr e ↦
            let n : 27 ≤ size evb b =
              omega (arith, ltb→ge (evb.get_length b) 27 e, size-of_length b) in
            elim (Bool-cases (is_tagged (head_of host b))) [
              | inl t ↦
                  let tags = is_tagged_lem (head_of host b) t in
                  rw (e, t, read_head)
                    (
                      IsSuffix-self evb b,
                      unfold size in n,
                      ap (parse_head host) (evb.copyout-bytes b 27),
                      tags.0,
                      tags.1,
                    )
              | inr t ↦
                  rw (e, t, read_head)
                    (ReadEnds-after host _ (IsSuffix-resume evb (head_of host b) b) (
                      retry-ReadEnds host (read_head evb host fuel (head_of host b))
                        (head_of host b) (resume evb (head_of host b) b)
                        (seek_header evb (resume evb (head_of host b) b))
                        (λ c q.
                          read_head-ReadEnds host fuel (head_of host b) c
                            (omega (arith, resume-header host b c n t q)))
                        (seek_header-Keeps evb (resume evb (head_of host b) b))
                        (seek_header-ne-out_of_fuel evb (resume evb (head_of host b) b))))
            ]
      ]

  -- read_head ends on every input, however it is spread over extents. When it returns true, the
  -- header that it filled in carries both tags and was read from the first 27 bytes of what is then
  -- in the buffer, and there are that many. Whatever it returns, it has only taken bytes off the
  -- front. (A stray read of memory behind an extent is the one other end.)
  pub next_head-ReadEnds :
      (host : Host) (head : MsgHead) (b : Buf) → ReadEnds host b (next_head evb host head b)
  unfolding next_head
  next_head-ReadEnds host head b =
      read_head-ReadEnds host (suc (evb.get_length b)) head b (omega (arith, size-of_length b))

  -- A round that finds both tags.
  pub read_head_ready :
      (host : Host) (fuel : ℕ) (head : MsgHead) (b : Buf)
      → 27 ≤ length (bytes b)
      → is_tagged (head_of host b) ≡ true
      → read_head evb host (suc fuel) head b ≡ ready (head_of host b) b
  unfolding read_head
  read_head_ready host fuel head b n t =
      rw (ge→ltb _ _ (subst (◌≤◌ 27) (sym (evb.get_length-bytes b)) n), t, read_head)

  -- A round that does not.
  pub read_head_seek :
      (host : Host) (fuel : ℕ) (head : MsgHead) (b : Buf)
      → 27 ≤ length (bytes b)
      → is_tagged (head_of host b) ≡ false
      → read_head evb host (suc fuel) head b
        ≡ retry evb
            (read_head evb host fuel (head_of host b))
            (head_of host b)
            (seek_header evb (resume evb (head_of host b) b))
  unfolding read_head
  read_head_seek host fuel head b n t =
      rw (ge→ltb _ _ (subst (◌≤◌ 27) (sym (evb.get_length-bytes b)) n), t, read_head)

  -- A round over less than a header.
  pub read_head_short :
      (host : Host) (fuel : ℕ) (head : MsgHead) (b : Buf)
      → length (bytes b) < 27
      → read_head evb host (suc fuel) head b ≡ waiting head b
  unfolding read_head
  read_head_short host fuel head b n =
      rw (lt→ltb _ _ (subst (λ (k : ℕ). k < 27) (sym (evb.get_length-bytes b)) n), read_head)
