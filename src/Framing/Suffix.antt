-- ===== src/Framing/Suffix.antt =====
-- handle_head only takes bytes off the front of the input.
use db_proxy_server.EvBuffer.{EvBuffer}
use db_proxy_server.Framing.{
  Scan, found, not_found, exhausted, stray, Sought, header, no_header, out_of_fuel, scan, at_mark,
  next_extent, compare_second, handle_head, seek_header, resume,
}
use db_proxy_server.Message.{MsgHead, s_tag_7e, s_tag_aa, s_tag_value}
use db_proxy_server.Prelude.{
  ℕ, zero, suc, ◌+◌, ◌≡◌, refl, ◌∙◌, ap, inl, inr, none, some, List, [], ◌∷◌, length, drop,
  drop-drop, length-drop, arith, ◌≤◌, Option, ◌==◌, Bool-cases, Option-cases,
}

module _ (evb : EvBuffer) where
  open evb use {Buf, bytes, drain, peek}

  -- `b'` holds what is left of `b` after a number of bytes.
  pub record IsSuffix (b b' : Buf) : Type 0 where
    pub taken : ℕ
    pub rest : bytes b' ≡ drop taken (bytes b)

  pub IsSuffix-self : (b : Buf) → IsSuffix b b
  IsSuffix-self b = record { taken = 0; rest = refl }

  pub IsSuffix-drain : (b : Buf) (n : ℕ) → IsSuffix b (drain b n)
  IsSuffix-drain b n = record { taken = n; rest = evb.drain-bytes b n }

  pub IsSuffix-trans : {a b c : Buf} → IsSuffix a b → IsSuffix b c → IsSuffix a c
  IsSuffix-trans {a} p q = record {
    taken = p.taken + q.taken;
    rest = q.rest ∙ rw p.rest (drop-drop q.taken p.taken (bytes a));
  }

  pub length-IsSuffix : {b c : Buf} → IsSuffix b c → length (bytes c) ≤ length (bytes b)
  length-IsSuffix {b} s = omega (arith, ap length s.rest, length-drop s.taken (bytes b))

  -- Every buffer in a result is a suffix of `b`.
  abbrev pub ScanKeeps : Buf → Scan Buf → Type 0
  ScanKeeps b (found c) = IsSuffix b c
  ScanKeeps b (not_found c) = IsSuffix b c
  ScanKeeps b (exhausted c) = IsSuffix b c
  ScanKeeps b stray = Unit {0}

  ScanKeeps-after : {a b : Buf} (r : Scan Buf) → IsSuffix a b → ScanKeeps b r → ScanKeeps a r
  ScanKeeps-after (found c) p q = IsSuffix-trans p q
  ScanKeeps-after (not_found c) p q = IsSuffix-trans p q
  ScanKeeps-after (exhausted c) p q = IsSuffix-trans p q
  ScanKeeps-after stray p q = tt

  pub at_mark-Keeps :
      (y : Option (Option ℕ)) (rest : Buf → Scan Buf) (b : Buf)
      → ((c : Buf) → ScanKeeps c (rest c))
      → ScanKeeps b (at_mark evb y rest b)
  unfolding at_mark
  at_mark-Keeps none rest b h = IsSuffix-self b
  at_mark-Keeps (some none) rest b h = tt
  at_mark-Keeps (some (some y)) rest b h = elim (Bool-cases (y == s_tag_aa)) [
    | inl e ↦ rw e (IsSuffix-self b)
    | inr e ↦ rw e (ScanKeeps-after (rest (drain b 1)) (IsSuffix-drain b 1) (h (drain b 1)))
  ]

  pub scan-Keeps : (k i : ℕ) (xs : List ℕ) (b : Buf) → ScanKeeps b (scan evb k i xs b)
  unfolding scan
  scan-Keeps k i [] b = IsSuffix-self b
  scan-Keeps k i (x ∷ xs) b = elim (Bool-cases (x == s_tag_7e)) [
    | inl e ↦
        rw (e, scan)
          (ScanKeeps-after _ (IsSuffix-drain b i) (
            at_mark-Keeps (compare_second evb k i (drain b i)) (scan evb k (i + 1) xs) (drain b i)
              (scan-Keeps k (i + 1) xs)))
    | inr e ↦ rw (e, scan) (scan-Keeps k (i + 1) xs b)
  ]

  abbrev pub SoughtKeeps : Buf → Sought Buf → Type 0
  SoughtKeeps b (header c) = IsSuffix b c
  SoughtKeeps b (no_header c) = IsSuffix b c
  SoughtKeeps b stray = Unit {0}
  SoughtKeeps b out_of_fuel = Unit {0}

  SoughtKeeps-after :
      {a b : Buf} (r : Sought Buf) → IsSuffix a b → SoughtKeeps b r → SoughtKeeps a r
  SoughtKeeps-after (header c) p q = IsSuffix-trans p q
  SoughtKeeps-after (no_header c) p q = IsSuffix-trans p q
  SoughtKeeps-after stray p q = tt
  SoughtKeeps-after out_of_fuel p q = tt

  pub next_extent-Keeps :
      (again : Buf → Sought Buf) (k : ℕ) (b : Buf) (r : Scan Buf)
      → ((c : Buf) → SoughtKeeps c (again c))
      → ScanKeeps b r
      → SoughtKeeps b (next_extent evb again k r)
  unfolding next_extent
  next_extent-Keeps again k b (found c) h p = p
  next_extent-Keeps again k b (not_found c) h p = p
  next_extent-Keeps again k b (exhausted c) h p =
      SoughtKeeps-after (again (drain c k)) (IsSuffix-trans p (IsSuffix-drain c k)) (h (drain c k))
  next_extent-Keeps again k b stray h p = tt

  pub handle_head-Keeps : (fuel : ℕ) (b : Buf) → SoughtKeeps b (handle_head evb fuel b)
  unfolding handle_head
  handle_head-Keeps zero b = tt
  handle_head-Keeps (suc fuel) b = elim (Option-cases (peek b)) [
    | inl p ↦ rw (p, handle_head) (IsSuffix-self b)
    | inr (vec, p) ↦
        rw (p, handle_head)
          (next_extent-Keeps (handle_head evb fuel) (length vec) b _ (handle_head-Keeps fuel)
            (scan-Keeps (length vec) 0 vec b))
  ]

  pub seek_header-Keeps : (b : Buf) → SoughtKeeps b (seek_header evb b)
  unfolding seek_header
  seek_header-Keeps b = handle_head-Keeps _ b

  pub IsSuffix-resume : (head : MsgHead) (b : Buf) → IsSuffix b (resume evb head b)
  unfolding resume
  IsSuffix-resume head b = elim (Bool-cases (head.s_tag == s_tag_value)) [
    | inl e ↦ rw e (IsSuffix-drain b 2)
    | inr e ↦ rw e (IsSuffix-self b)
  ]
