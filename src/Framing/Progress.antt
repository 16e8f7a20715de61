-- ===== src/Framing/Progress.antt =====
-- handle_head: its loops drain the input, and its fuel is enough on every input.
use db_proxy_server.EvBuffer.{EvBuffer}
use db_proxy_server.Message.{s_tag_7e, s_tag_aa}
use db_proxy_server.Framing.{
  Scan, found, not_found, exhausted, stray, header, out_of_fuel, scan, at_mark, next_extent,
  compare_second, second_byte, handle_head, seek_header,
}
use db_proxy_server.Prelude.{
  ℕ, zero, suc, ◌+◌, ◌≤◌, ◌<◌, ◌≡◌, refl, ap, ◌≢◌, ◌⊎◌, inl, inr, Option, none, some, List, [], ◌∷◌,
  ◌++◌, length, get_elem?, length-drop, length-append, arith, Option-cases,
}

get_elem?-append :
    (xs ys : List ℕ) (i v : ℕ) → get_elem? xs i ≡ some v → get_elem? (xs ++ ys) i ≡ some v
get_elem?-append [] ys i v e = cc
get_elem?-append (x ∷ xs) ys zero v e = e
get_elem?-append (x ∷ xs) ys (suc i) v e = get_elem?-append xs ys i v e

module _ (evb : EvBuffer) where
  open evb use {Buf, bytes, drain, peek}

  unfoldable pub size : Buf → ℕ
  size b = length (bytes b)

  pub size-drain : (b : Buf) (n : ℕ) → size (drain b n) + n ≡ size b ⊎ (size (drain b n) ≡ 0)
  unfolding size
  size-drain b n = omega (arith, ap length (evb.drain-bytes b n), length-drop n (bytes b))

  pub size-drain-le : (b : Buf) (n : ℕ) → size (drain b n) ≤ size b
  size-drain-le b n = omega (arith, size-drain b n)

  size_of_peek : (b : Buf) (x : List ℕ) → peek b ≡ some x → (length x ≤ size b) × (0 < length x)
  unfolding size
  size_of_peek b x e =
      let (pos, rest, q) = evb.peek-some b x e in omega (arith, ap length q, length-append x rest)

  size_of_second : (k i : ℕ) (b : Buf) → (compare_second evb k i b ≡ none) ⊎ (0 < size b)
  unfolding compare_second
  size_of_second k i b = elim (Option-cases (peek b)) [
    | inl p ↦ inl (rw (p, compare_second))
    | inr (x, p) ↦ inr (omega (arith, size_of_peek b x p))
  ]

  -- A loop that starts beyond index 0 finds a header only after draining the buffer.
  scan-found_lt :
      (k i : ℕ) (xs : List ℕ) (b b' : Buf) → 0 < i → scan evb k i xs b ≡ found b' → size b' < size b
  unfolding scan at_mark
  scan-found_lt k i [] b b' h e = cc
  scan-found_lt k i (x ∷ xs) b b' h e = ground (
    arith,
    size-drain b i,
    size-drain-le (drain b i) 1,
    size_of_second k i (drain b i),
    scan-found_lt k (i + 1) xs b b' (omega arith),
    scan-found_lt k (i + 1) xs (drain (drain b i) 1) b' (omega arith),
  )

  scan-le :
      (k i : ℕ) (xs : List ℕ) (b b' : Buf)
      → (scan evb k i xs b ≡ found b') ⊎ (scan evb k i xs b ≡ exhausted b')
      → size b' ≤ size b
  unfolding scan at_mark
  scan-le k i [] b b' e = ground arith
  scan-le k i (x ∷ xs) b b' e = ground (
    arith,
    size-drain-le b i,
    size-drain-le (drain b i) 1,
    scan-le k (i + 1) xs b b',
    scan-le k (i + 1) xs (drain (drain b i) 1) b',
  )

  -- The buffer begins with the two bytes that mark a header.
  abbrev pub IsMarked : Buf → Type 0
  IsMarked b = (get_elem? (bytes b) 0 ≡ some s_tag_7e) × (get_elem? (bytes b) 1 ≡ some s_tag_aa)

  peek-get_elem? :
      (b : Buf) (x : List ℕ) (i v : ℕ)
      → peek b ≡ some x
      → get_elem? x i ≡ some v
      → get_elem? (bytes b) i ≡ some v
  peek-get_elem? b x i v e g =
      let (pos, rest, q) = evb.peek-some b x e in rw q (get_elem?-append x rest i v g)

  -- What is compared with S_TAG_AA at index 0 is one of the buffer's first two bytes.
  second_start :
      (k : ℕ) (b : Buf) (y : ℕ)
      → compare_second evb k 0 (drain b 0) ≡ some (some y)
      → (get_elem? (bytes b) 0 ≡ some y) ⊎ (get_elem? (bytes b) 1 ≡ some y)
  unfolding compare_second second_byte
  second_start k b y e = elim (Option-cases (peek (drain b 0))) [
    | inl p ↦ ground arith
    | inr (t, p) ↦
        rw (← evb.drain-bytes b 0)
          (ground (arith, peek-get_elem? (drain b 0) t 0 y p, peek-get_elem? (drain b 0) t 1 y p))
  ]

  -- The loop from index 0 over the extent that was just peeked.
  scan-found_start :
      (vec : List ℕ) (b b' : Buf)
      → peek b ≡ some vec
      → scan evb (length vec) 0 vec b ≡ found b'
      → (size b' < size b) ⊎ IsMarked b
  unfolding scan at_mark
  scan-found_start [] b b' p e = cc
  scan-found_start (x ∷ xs) b b' p e =
      split (compare_second evb (length (x ∷ xs)) 0 (drain b 0)) refl
    where
      split :
          (c : Option (Option ℕ))
          → compare_second evb (length (x ∷ xs)) 0 (drain b 0) ≡ c
          → (size b' < size b) ⊎ IsMarked b
      split none q = ground (arith, scan-found_lt (length (x ∷ xs)) 1 xs b b' (omega arith))
      split (some none) q = ground (arith, scan-found_lt (length (x ∷ xs)) 1 xs b b' (omega arith))
      split (some (some y)) q = ground (
        arith,
        size-drain-le b 0,
        size-drain-le (drain b 0) 1,
        scan-found_lt (length (x ∷ xs)) 1 xs b b' (omega arith),
        scan-found_lt (length (x ∷ xs)) 1 xs (drain (drain b 0) 1) b' (omega arith),
        second_start (length (x ∷ xs)) b y q,
        peek-get_elem? b (x ∷ xs) 0 x p refl,
      )

  -- One round of the `while` loop that peeks `vec` drains it.
  round_shrinks :
      (vec : List ℕ) (b b' : Buf)
      → peek b ≡ some vec
      → scan evb (length vec) 0 vec b ≡ exhausted b'
      → size (drain b' (length vec)) < size b
  round_shrinks vec b b' p e = omega (
    arith,
    size_of_peek b vec p,
    size-drain b' (length vec),
    scan-le (length vec) 0 vec b b' (inr e),
  )

  -- A header is found after draining, unless the buffer begins with its mark.
  handle_head-header :
      (fuel : ℕ) (b b' : Buf)
      → handle_head evb fuel b ≡ header b'
      → (size b' < size b) ⊎ (IsMarked b × (size b' ≤ size b))
  unfolding handle_head next_extent
  handle_head-header zero b b' e = cc
  handle_head-header (suc fuel) b b' e = elim (Option-cases (peek b)) [
    | inl p ↦ ground arith
    | inr (vec, p) ↦
        split vec p (scan evb (length vec) 0 vec b) refl (λ c. handle_head-header fuel c b')
  ]
    where
      split :
          (vec : List ℕ)
          → peek b ≡ some vec
          → (r : Scan Buf) → scan evb (length vec) 0 vec b ≡ r
          → ((c : Buf)
              → handle_head evb fuel c ≡ header b'
              → (size b' < size c) ⊎ (IsMarked c × (size b' ≤ size c)))
          → (size b' < size b) ⊎ (IsMarked b × (size b' ≤ size b))
      split vec p (found c) q ih =
          ground (arith, scan-found_start vec b c p q, scan-le (length vec) 0 vec b c (inl q))
      split vec p (not_found c) q ih = ground arith
      split vec p stray q ih = ground arith
      split vec p (exhausted c) q ih =
          inl (omega (arith, round_shrinks vec b c p q, ih (drain c (length vec)) (ground arith)))

  handle_head-ne-out_of_fuel :
      (fuel : ℕ) (b : Buf) → size b < fuel → handle_head evb fuel b ≢ out_of_fuel
  unfolding handle_head next_extent
  handle_head-ne-out_of_fuel zero b h e = absurd (omega arith)
  handle_head-ne-out_of_fuel (suc fuel) b h e = elim (Option-cases (peek b)) [
    | inl p ↦ ground arith
    | inr (vec, p) ↦
        split vec p (scan evb (length vec) 0 vec b) refl (handle_head-ne-out_of_fuel fuel)
  ]
    where
      split :
          (vec : List ℕ)
          → peek b ≡ some vec
          → (r : Scan Buf) → scan evb (length vec) 0 vec b ≡ r
          → ((c : Buf) → size c < fuel → handle_head evb fuel c ≢ out_of_fuel)
          → ⊥
      split vec p (found c) q ih = ground arith
      split vec p (not_found c) q ih = ground arith
      split vec p stray q ih = ground arith
      split vec p (exhausted c) q ih =
          ih (drain c (length vec)) (omega (arith, round_shrinks vec b c p q)) (ground arith)

  pub seek_header-ne-out_of_fuel : (b : Buf) → seek_header evb b ≢ out_of_fuel
  unfolding seek_header size
  seek_header-ne-out_of_fuel b =
      handle_head-ne-out_of_fuel _ b (omega (arith, evb.get_length-bytes b))

  pub seek_header-header :
      (b b' : Buf)
      → seek_header evb b ≡ header b'
      → (size b' < size b) ⊎ (IsMarked b × (size b' ≤ size b))
  unfolding seek_header
  seek_header-header b b' = handle_head-header _ b b'
