-- ===== src/NetServer/AccountData/Stream.antt =====
-- What becomes of a stream of JSON texts, and of a text that is not there to its end.
use db_proxy_server.EvBuffer.{EvBuffer}
use db_proxy_server.NetServer.AccountData.{
  located, Taken, returned, out_of_fuel, with_text, measure, account_handle_head, take_text,
  account_handle_data,
}
use db_proxy_server.Prelude.{
  ℕ, zero, suc, ◌+◌, ◌<◌, ◌≡◌, refl, ap, ◌∙◌, ◌≢◌, List, [], ◌∷◌, ◌++◌, length, length-append, All,
  take, drop, ge→ltb, arith, drop-append_length, take-append_length,
}
use mathlib.Core.List.{append_assoc}
use db_proxy_server.NetServer.AccountData.Search.{
  IsText, wire_text, IsContiguous, drained, removed, head_found, head_unended, head_once, head_junk,
}

-- Texts one behind the other, each behind bytes of its own that hold no '{'.
abbrev pub wire : List (List ℕ × List ℕ) → List ℕ
wire [] = []
wire ((junk, t) ∷ ts) = junk ++ (wire_text t ++ wire ts)

abbrev pub texts : List (List ℕ × List ℕ) → List (List ℕ)
texts [] = []
texts ((junk, t) ∷ ts) = wire_text t ∷ texts ts

abbrev pub IsStream : List (List ℕ × List ℕ) → Type 0
IsStream = All (λ p. All (λ x. x ≢ b'{') p.0 × IsText p.1)

abbrev pub with_texts {ℓ} : {B : Type ℓ} → List (List ℕ) → Taken B → Taken B
with_texts [] r = r
with_texts (t ∷ ts) r = with_text t (with_texts ts r)

module _ (evb : EvBuffer) where
  open evb use {Buf, bytes, drain}

  -- The step of the loop behind head_found.
  take_found :
      (again : Buf → Taken Buf) (c : Buf) (t rest : List ℕ)
      → IsContiguous evb c
      → bytes c ≡ wire_text t ++ rest
      → IsText t
      → (left : Buf) × (take_text evb again (located (suc (length t)) c)
          ≡ with_text (wire_text t) (again left))
        × (bytes left ≡ rest)
        × IsContiguous evb left
  unfolding take_text
  take_found again c t rest whole e h =
      let n : length (wire_text t) ≡ suc (length t) + 1 =
        omega (arith, length-append (b'{' ∷ t) (0 ∷ [])) in
      let (got, left) = evb.remove-bytes c (suc (length t) + 1) in
      (
        (evb.remove c (suc (length t) + 1)).1,
        rw (ge→ltb _ _ h.1, take_text)
            (ap (λ (l : List ℕ). with_text l (again (evb.remove c (suc (length t) + 1)).1))
              (got
                ∙ ap (take (suc (length t) + 1)) e
                ∙ take-append_length (suc (length t) + 1) (wire_text t) rest n)),
        left
            ∙ ap (drop (suc (length t) + 1)) e
            ∙ drop-append_length (suc (length t) + 1) (wire_text t) rest n,
        λ d r. whole d (removed (suc (length t) + 1) r),
      )

  -- One round of account_handle_data over a text that is there to its end.
  round_found :
      (b : Buf) (junk t rest : List ℕ) (fuel n : ℕ)
      → IsContiguous evb b
      → bytes b ≡ junk ++ (wire_text t ++ rest)
      → All (λ x. x ≢ b'{') junk
      → IsText t
      → (left : Buf) × (account_handle_data evb (suc (suc fuel)) (suc n) b
          ≡ with_text (wire_text t) (account_handle_data evb (suc (suc fuel)) n left))
        × (bytes left ≡ rest)
        × IsContiguous evb left
  unfolding account_handle_data
  round_found b junk t rest fuel n whole e hj ht =
      let (left, q, r, one) =
        take_found (account_handle_data evb (suc (suc fuel)) n) (drain b (length junk)) t rest
          (λ d r. whole d (drained (length junk) r))
          (evb.drain-bytes b (length junk)
            ∙ ap (drop (length junk)) e
            ∙ drop-append_length (length junk) junk (wire_text t ++ rest) refl)
          ht in
      (
        left,
        ap (take_text evb (account_handle_data evb (suc (suc fuel)) n))
              (head_found evb b junk t rest fuel whole e hj ht.0)
            ∙ q,
        r,
        one,
      )

  -- Over input that lies in one extent, also after a part of it was drained or removed, a stream of texts becomes exactly these texts, in order,
  -- each with its byte 0. Bytes before a '{', and behind the last text if they hold none, are
  -- dropped. Each text starts with '{', holds no byte 0 before its end, and is at most
  -- JSON_BUFFER_SIZE long. One round for each text and one more, each with a search of two rounds,
  -- are enough.
  pub account_handle_data-stream :
      (ts : List (List ℕ × List ℕ)) (junk : List ℕ) (b : Buf) (fuel n : ℕ)
      → IsContiguous evb b
      → bytes b ≡ wire ts ++ junk
      → IsStream ts
      → All (λ x. x ≢ b'{') junk
      → length ts < n
      → (left : Buf) × (account_handle_data evb (suc (suc fuel)) n b ≡ returned (texts ts) left)
        × (bytes left ≡ [])
  unfolding account_handle_data take_text
  account_handle_data-stream ts junk b fuel zero whole e hs hj h = absurd (omega arith)
  account_handle_data-stream [] junk b fuel (suc n) whole e hs hj h =
      let (left, q, r) = head_junk evb b junk fuel whole e hj in
      (left, rw (q, account_handle_data), r)
  account_handle_data-stream ((before, t) ∷ ts) junk b fuel (suc n) whole e ((hb, ht), hs) hj h =
      let (c, q, r, one) =
        round_found b before t (wire ts ++ junk) fuel n whole
          (e
            ∙ append_assoc before (wire_text t ++ wire ts) junk
            ∙ ap (◌++◌ before) (append_assoc (wire_text t) (wire ts) junk))
          hb ht in
      let (left, q', r') = account_handle_data-stream ts junk c fuel n one r hs hj (omega arith) in
      (left, q ∙ ap (with_text (wire_text t)) q', r')

  -- If the input lies in one extent, also after a part of it was drained or removed, and the last text
  -- of a stream has arrived only in part, without its byte 0, account_handle_data never returns: on no
  -- fuel, since the inner loop peeks at the same extent again and again.
  pub account_handle_data-unended :
      (ts : List (List ℕ × List ℕ)) (junk t : List ℕ) (b : Buf) (fuel n : ℕ)
      → IsContiguous evb b
      → bytes b ≡ wire ts ++ (junk ++ (b'{' ∷ t))
      → IsStream ts
      → All (λ x. x ≢ b'{') junk
      → All (λ x. x ≢ 0) t
      → account_handle_data evb fuel n b ≡ out_of_fuel
  unfolding account_handle_data take_text account_handle_head measure
  account_handle_data-unended ts junk t b fuel zero whole e hs hj ht = refl
  account_handle_data-unended ts junk t b zero (suc n) whole e hs hj ht = refl
  account_handle_data-unended [] junk t b (suc fuel) (suc n) whole e hs hj ht =
      rw (head_unended evb b junk t (suc fuel) whole e hj ht, take_text)
  account_handle_data-unended ((before, x) ∷ ts) junk t b (suc zero) (suc n) whole e ((hb, hx), hs)
        hj ht =
      rw (
        head_once evb b before (x ++ ((0 ∷ []) ++ (wire ts ++ (junk ++ (b'{' ∷ t))))) whole
            (e ∙ front) hb,
        take_text,
      )
    where
      front :
          wire ((before, x) ∷ ts) ++ (junk ++ (b'{' ∷ t))
          ≡ before ++ (b'{' ∷ (x ++ ((0 ∷ []) ++ (wire ts ++ (junk ++ (b'{' ∷ t))))))
      front =
          append_assoc before (wire_text x ++ wire ts) (junk ++ (b'{' ∷ t))
          ∙ ap (◌++◌ before) (
              append_assoc (wire_text x) (wire ts) (junk ++ (b'{' ∷ t))
              ∙ append_assoc (b'{' ∷ x) (0 ∷ []) (wire ts ++ (junk ++ (b'{' ∷ t))))
  account_handle_data-unended ((before, x) ∷ ts) junk t b (suc (suc fuel)) (suc n) whole e
        ((hb, hx), hs) hj ht =
      let (c, q, r, one) =
        round_found b before x (wire ts ++ (junk ++ (b'{' ∷ t))) fuel n whole
          (e
            ∙ append_assoc before (wire_text x ++ wire ts) (junk ++ (b'{' ∷ t))
            ∙ ap (◌++◌ before) (append_assoc (wire_text x) (wire ts) (junk ++ (b'{' ∷ t))))
          hb hx in
      q
      ∙ ap (with_text (wire_text x))
          (account_handle_data-unended ts junk t c (suc (suc fuel)) n one r hs hj ht)
