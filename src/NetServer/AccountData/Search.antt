-- ===== src/NetServer/AccountData/Search.antt =====
-- What account_handle_head finds.
use db_proxy_server.EvBuffer.{EvBuffer}
use db_proxy_server.NetServer.AccountData.{
  Located, located, missing, out_of_fuel, index_from, measure, account_handle_head,
  json_buffer_size,
}
use db_proxy_server.Prelude.{
  ℕ, zero, suc, ◌+◌, ◌≤◌, ◌<◌, ◌≡◌, refl, ap, sym, ◌∙◌, ◌≢◌, none, some, List, [], ◌∷◌, ◌++◌,
  length, length-append, All, drop, ne→==, drop_all, Option-cases, inl, inr, arith,
  drop-append_length,
}
use mathlib.Core.List.{append_assoc}

-- A text behind its '{', without the byte 0 that ends it, that is not too long.
abbrev pub IsText : List ℕ → Type 0
IsText t = All (λ x. x ≢ 0) t × (suc (length t) ≤ json_buffer_size)

-- A text as it goes over the wire.
abbrev pub wire_text : List ℕ → List ℕ
wire_text t = (b'{' ∷ t) ++ (0 ∷ [])

index_from-append :
    (c i : ℕ) (xs ys : List ℕ)
    → All (λ x. x ≢ c) xs
    → index_from c i (xs ++ (c ∷ ys)) ≡ some (i + length xs)
unfolding index_from
index_from-append c i [] ys h = ground arith
index_from-append c i (x ∷ xs) ys (h, hs) =
    rw (ne→== x c h, index_from) (index_from-append c (i + 1) xs ys hs ∙ ap some (omega arith))

index_from-start :
    (c : ℕ) (xs ys : List ℕ)
    → All (λ x. x ≢ c) xs
    → index_from c 0 (xs ++ (c ∷ ys)) ≡ some (length xs)
index_from-start c xs ys h = index_from-append c 0 xs ys h ∙ ap some (omega arith)

index_from-none : (c i : ℕ) (xs : List ℕ) → All (λ x. x ≢ c) xs → index_from c i xs ≡ none
unfolding index_from
index_from-none c i [] h = refl
index_from-none c i (x ∷ xs) (h, hs) =
    rw (ne→== x c h, index_from) (index_from-none c (i + 1) xs hs)

module _ (evb : EvBuffer) where
  open evb use {Buf, bytes, drain, remove, peek}

  -- What is left of a buffer behind calls of evbuffer_drain and evbuffer_remove.
  pub data Remains : Buf → Buf → Type 0 where
    here : {b : Buf} → Remains b b
    drained : {b c : Buf} (n : ℕ) → Remains (drain b n) c → Remains b c
    removed : {b c : Buf} (n : ℕ) → Remains (remove b n).1 c → Remains b c

  -- The input lies in one extent, also after a part of it was drained or removed.
  abbrev pub IsContiguous : Buf → Type 0
  IsContiguous b = (c : Buf) → Remains b c → 0 < length (bytes c) → peek c ≡ some (bytes c)

  peek_lem :
      (b c : Buf) (l : List ℕ)
      → IsContiguous b
      → Remains b c
      → bytes c ≡ l
      → 0 < length l
      → peek c ≡ some l
  peek_lem b c l whole r e h = whole c r (rw e h) ∙ ap some e

  peek-drain :
      (b : Buf) (junk l : List ℕ)
      → IsContiguous b
      → bytes b ≡ junk ++ l
      → 0 < length l
      → peek (drain b (length junk)) ≡ some l
  peek-drain b junk l whole e h =
      peek_lem b (drain b (length junk)) l whole (drained (length junk) here)
        (evb.drain-bytes b (length junk)
          ∙ ap (drop (length junk)) e
          ∙ drop-append_length (length junk) junk l refl)
        h

  -- A text that stands in the buffer to its end is found.
  pub head_found :
      (b : Buf) (junk t rest : List ℕ) (fuel : ℕ)
      → IsContiguous b
      → bytes b ≡ junk ++ (wire_text t ++ rest)
      → All (λ x. x ≢ b'{') junk
      → All (λ x. x ≢ 0) t
      → account_handle_head evb (suc (suc fuel)) b
        ≡ located (suc (length t)) (drain b (length junk))
  unfolding account_handle_head measure
  head_found b junk t rest fuel whole e hj ht =
      rw
        (
          peek_lem b b _ whole here e (omega (arith, length-append junk (wire_text t ++ rest))),
          index_from-start b'{' junk ((t ++ (0 ∷ [])) ++ rest) hj,
          account_handle_head,
          peek-drain b junk (wire_text t ++ rest) whole e (omega arith),
          append_assoc t (0 ∷ []) rest,
          index_from-start 0 (b'{' ∷ t) rest (omega arith, ht),
          measure,
        )
        (ap (λ (k : ℕ). Located.located k (drain b (length junk))) (omega arith))

  -- One that does not is looked for without end.
  measure_unended :
      (b : Buf) (l : List ℕ) (fuel sum : ℕ)
      → peek b ≡ some l
      → All (λ x. x ≢ 0) l
      → measure evb fuel sum b ≡ out_of_fuel
  unfolding measure
  measure_unended b l zero sum e h = refl
  measure_unended b l (suc fuel) sum e h =
      rw (e, index_from-none 0 0 l h, measure) (measure_unended b l fuel (sum + length l) e h)

  -- The search needs a second round behind its '{'.
  pub head_once :
      (b : Buf) (junk t : List ℕ)
      → IsContiguous b
      → bytes b ≡ junk ++ (b'{' ∷ t)
      → All (λ x. x ≢ b'{') junk
      → account_handle_head evb 1 b ≡ Located.out_of_fuel
  unfolding account_handle_head measure
  head_once b junk t whole e h = rw (
    peek_lem b b _ whole here e (omega (arith, length-append junk (b'{' ∷ t))),
    index_from-start b'{' junk t h,
    account_handle_head,
  )

  pub head_unended :
      (b : Buf) (junk t : List ℕ) (fuel : ℕ)
      → IsContiguous b
      → bytes b ≡ junk ++ (b'{' ∷ t)
      → All (λ x. x ≢ b'{') junk
      → All (λ x. x ≢ 0) t
      → account_handle_head evb fuel b ≡ out_of_fuel
  unfolding account_handle_head
  head_unended b junk t zero whole e hj ht = refl
  head_unended b junk t (suc fuel) whole e hj ht =
      rw
        (
          peek_lem b b _ whole here e (omega (arith, length-append junk (b'{' ∷ t))),
          index_from-start b'{' junk t hj,
          account_handle_head,
        )
        (measure_unended (drain b (length junk)) (b'{' ∷ t) fuel 0
          (peek-drain b junk (b'{' ∷ t) whole e (omega arith)) (omega arith, ht))

  peek_empty : (b : Buf) → bytes b ≡ [] → peek b ≡ none
  peek_empty b e = elim (Option-cases (peek b)) [
    | inl q ↦ q
    | inr (x, q) ↦
        let (pos, rest, r) = evb.peek-some b x q in
        absurd (omega (arith, pos, ap length (sym e ∙ r), length-append x rest))
  ]

  -- Nothing but junk: it is drained.
  pub head_junk :
      (b : Buf) (junk : List ℕ) (fuel : ℕ)
      → IsContiguous b
      → bytes b ≡ junk
      → All (λ x. x ≢ b'{') junk
      → (left : Buf) × (account_handle_head evb (suc (suc fuel)) b ≡ missing left)
        × (bytes left ≡ [])
  unfolding account_handle_head
  head_junk b [] fuel whole e h = (b, rw (peek_empty b e, account_handle_head), e)
  head_junk b (x ∷ junk) fuel whole e h =
      let gone : bytes (drain b (length (x ∷ junk))) ≡ [] =
        evb.drain-bytes b (length (x ∷ junk))
        ∙ ap (drop (length (x ∷ junk))) e
        ∙ drop_all (length (x ∷ junk)) (x ∷ junk) (omega arith) in
      (
        drain b (length (x ∷ junk)),
        rw (
          peek_lem b b (x ∷ junk) whole here e (omega arith),
          index_from-none b'{' 0 (x ∷ junk) h,
          account_handle_head,
          peek_empty (drain b (length (x ∷ junk))) gone,
          account_handle_head,
        ),
        gone,
      )
