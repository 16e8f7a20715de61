-- ===== src/Handlers/Pages.antt =====
-- The pages of get_offline_msg and get_history_msg of src/handler_msg.cpp.
use db_proxy_server.Prelude.{
  ℕ, ◌+◌, ◌≤◌, ◌<◌, ◌≡◌, refl, inl, inr, Bool, true, false, List, [], ◌∷◌, ◌++◌, ap, Bool-cases,
  ltb, ltb→lt, ltb→ge, arith,
}
use db_proxy_server.Handlers.Program.{Cell}
use db_proxy_server.Handlers.MessageQueries.{blob_length, page}

abbrev pub total : List Cell → ℕ
total [] = 0
total (b ∷ bs) = blob_length b + total bs

-- What the rows are cut into behind `p` bytes: all of them are kept, or those in front of one that
-- would not fit.
pub data IsPage (p : ℕ) (blobs kept : List Cell) : Bool → Type 0 where
  whole : blobs ≡ kept → IsPage p blobs kept false
  cut :
      (b : Cell) (rest : List Cell)
      → blobs ≡ kept ++ (b ∷ rest)
      → 8192 < p + (total kept + blob_length b)
      → IsPage p blobs kept true

more :
    (p : ℕ) (b : Cell) (bs kept : List Cell) (m : Bool)
    → IsPage (p + blob_length b) bs kept m
    → IsPage p (b ∷ bs) (b ∷ kept) m
more p b bs kept false (whole e) = whole (ap (◌∷◌ b) e)
more p b bs kept true (cut c rest e h) = cut c rest (ap (◌∷◌ b) e) (omega arith)

-- A page of messages is the longest beginning of the rows whose bytes, with those of the header, stay
-- within 8 * 1024, and is_more_data says whether a row was left out.
pub page-IsPage :
    (p : ℕ) (blobs : List Cell)
    → p ≤ 8192
    → (p + total (page p blobs).0 ≤ 8192) × IsPage p blobs (page p blobs).0 (page p blobs).1
unfolding page
page-IsPage p [] h = (omega arith, whole refl)
page-IsPage p (b ∷ bs) h = elim (Bool-cases (ltb 8192 (p + blob_length b))) [
  | inl e ↦ rw (e, page) (omega arith, cut b bs refl (omega (arith, ltb→lt _ _ e)))
  | inr e ↦
      let (fits, rest) = page-IsPage (p + blob_length b) bs (ltb→ge _ _ e) in
      rw (e, page) (omega arith, more p b bs _ _ rest)
]
