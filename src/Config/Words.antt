-- ===== src/Config/Words.antt =====
-- A file of lines `key=value` as load_file reads it.
use db_proxy_server.Config.{
  ConfigMap, same_text, find, insert, is_blank, skip_blanks, cut_blanks, trim_space, split_at,
  insert_pair, parse_line, fgets, cut_end, cut_comment, load_lines, load_file, get_config_value,
}
use db_proxy_server.Prelude.{
  ℕ, zero, suc, ◌+◌, ◌-◌, ◌≤◌, ◌<◌, ◌≡◌, refl, ap, sym, ◌∙◌, ◌≢◌, inl, inr, true, false, Option,
  none, some, List, [], ◌∷◌, ◌++◌, length, length-append, get_or, take-append_length, All, ne→==,
  ==_self, ==→eq, ◌==◌, arith, Bool-cases, Option-cases,
}

-- A byte that is no blank, no end of a line and begins no comment.
abbrev pub IsPlain : ℕ → Type 0
IsPlain c = (c ≢ 10) × (c ≢ 13) × (c ≢ b'#') × (is_blank c ≡ false)

-- A line `key=value`: both are not empty and of plain bytes, the key without '=', and fgets takes
-- the line at once.
abbrev pub IsEntry : List ℕ × List ℕ → Type 0
IsEntry (k, v) =
    (0 < length k)
    × (0 < length v)
    × All IsPlain k
    × All IsPlain v
    × All (λ c. c ≢ b'=') k
    × (length k + length v + 2 ≤ 255)

abbrev pub line_of : List ℕ × List ℕ → List ℕ
line_of (k, v) = k ++ (b'=' ∷ v)

abbrev pub file_of : List (List ℕ × List ℕ) → List ℕ
file_of [] = []
file_of (e ∷ es) = line_of e ++ (10 ∷ file_of es)

All-append : (P : ℕ → Type 0) (xs ys : List ℕ) → All P xs → All P ys → All P (xs ++ ys)
All-append P [] ys p q = q
All-append P (x ∷ xs) ys (p, ps) q = (p, All-append P xs ys ps q)

All-map : {P Q : ℕ → Type 0} (xs : List ℕ) → ((c : ℕ) → P c → Q c) → All P xs → All Q xs
All-map [] f p = tt
All-map (x ∷ xs) f (p, ps) = (f x p, All-map xs f ps)

All-get_or :
    (P : ℕ → Type 0) (xs ys : List ℕ) (i : ℕ) → i < length xs → All P xs → P (get_or (xs ++ ys) i 0)
All-get_or P [] ys i h p = absurd (omega arith)
All-get_or P (x ∷ xs) ys zero h (p, ps) = p
All-get_or P (x ∷ xs) ys (suc i) h (p, ps) = All-get_or P xs ys i (omega arith) ps

get_or-append : (xs : List ℕ) (x : ℕ) → get_or (xs ++ (x ∷ [])) (length xs) 0 ≡ x
get_or-append [] x = refl
get_or-append (y ∷ xs) x = get_or-append xs x

split_at_found :
    (c : ℕ) (xs ys : List ℕ) → All (λ x. x ≢ c) xs → split_at c (xs ++ (c ∷ ys)) ≡ some (xs, ys)
unfolding split_at
split_at_found c [] ys h = rw (==_self c, split_at)
split_at_found c (x ∷ xs) ys (h, hs) = rw (ne→== x c h, split_at_found c xs ys hs, split_at)

split_at_missing : (c : ℕ) (xs : List ℕ) → All (λ x. x ≢ c) xs → split_at c xs ≡ none
unfolding split_at
split_at_missing c [] h = refl
split_at_missing c (x ∷ xs) (h, hs) = rw (ne→== x c h, split_at_missing c xs hs, split_at)

fgets_line :
    (n : ℕ) (xs rest : List ℕ)
    → All (λ x. x ≢ 10) xs
    → length xs < n
    → fgets n (xs ++ (10 ∷ rest)) ≡ (xs ++ (10 ∷ []), rest)
unfolding fgets
fgets_line zero xs rest h l = absurd (omega arith)
fgets_line (suc n) [] rest h l = refl
fgets_line (suc n) (x ∷ xs) rest (h, hs) l =
    rw (ne→== x 10 h, fgets_line n xs rest hs (omega arith), fgets)

cut_end_line :
    (xs : List ℕ) → 0 < length xs → All (λ x. x ≢ 13) xs → cut_end (xs ++ (10 ∷ [])) ≡ some xs
unfolding cut_end
cut_end_line xs l h =
    let n : length (xs ++ (10 ∷ [])) ≡ length xs + 1 = length-append xs (10 ∷ []) in
    let one : (length xs + 1 == 1) ≡ false = ground arith in
    let before : length xs + 1 - 2 ≡ length xs - 1 = omega arith in
    let at_end : length xs + 1 - 1 ≡ length xs = omega arith in
    rw (
      n,
      one,
      cut_end,
      n,
      before,
      ne→== _ 13 (All-get_or (λ x. x ≢ 13) xs (10 ∷ []) (length xs - 1) (omega arith) h),
      at_end,
      get_or-append xs 10,
      take-append_length (length xs) xs (10 ∷ []) refl,
    )

skip_blanks_plain : (xs : List ℕ) → All IsPlain xs → skip_blanks xs ≡ xs
unfolding skip_blanks
skip_blanks_plain [] h = refl
skip_blanks_plain (x ∷ xs) ((_, _, _, b), hs) = rw (b, skip_blanks)

cut_blanks_plain : (xs : List ℕ) → All IsPlain xs → cut_blanks xs ≡ xs
unfolding cut_blanks
cut_blanks_plain [] h = refl
cut_blanks_plain (x ∷ []) ((_, _, _, b), hs) = rw (b, cut_blanks)
cut_blanks_plain (x ∷ y ∷ ys) (h, hs) = rw (cut_blanks_plain (y ∷ ys) hs, cut_blanks)

trim_space_plain : (xs : List ℕ) → 0 < length xs → All IsPlain xs → trim_space xs ≡ some xs
unfolding trim_space
trim_space_plain [] l h = absurd (omega arith)
trim_space_plain (x ∷ xs) l h =
    rw (skip_blanks_plain (x ∷ xs) h, trim_space) (ap some (cut_blanks_plain (x ∷ xs) h))

parse_line_entry :
    (k v : List ℕ) (m : ConfigMap) → IsEntry (k, v) → parse_line (line_of (k, v)) m ≡ insert k v m
unfolding parse_line insert_pair
parse_line_entry k v m (lk, lv, pk, pv, eq, n) =
    rw (split_at_found b'=' k v eq, parse_line, trim_space_plain k lk pk, trim_space_plain v lv pv)

-- What is left of an entry's line is the entry.
cut_comment_entry : (k v : List ℕ) → IsEntry (k, v) → cut_comment (line_of (k, v)) ≡ line_of (k, v)
unfolding cut_comment
cut_comment_entry k v (lk, lv, pk, pv, eq, n) = rw (
  split_at_missing b'#' (line_of (k, v)) (
      All-append (λ x. x ≢ b'#') k (b'=' ∷ v) (All-map k (λ c p. p.2) pk)
        (omega arith, All-map v (λ c p. p.2) pv)),
  cut_comment,
)

-- The entries inserted one after the other.
unfoldable pub insert_all : List (List ℕ × List ℕ) → ConfigMap → ConfigMap
insert_all [] m = m
insert_all ((k, v) ∷ es) m = insert_all es (insert k v m)

starts : (k v : List ℕ) → 0 < length k → (x : ℕ) × (xs : List ℕ) × (line_of (k, v) ≡ x ∷ xs)
starts [] v h = absurd (omega arith)
starts (x ∷ k) v h = (x, k ++ (b'=' ∷ v), refl)

load_round :
    (fuel : ℕ) (file buf rest line : List ℕ) (y : ℕ) (ys : List ℕ) (m : ConfigMap)
    → 0 < length file
    → fgets 255 file ≡ (buf, rest)
    → cut_end buf ≡ some line
    → cut_comment line ≡ y ∷ ys
    → load_lines (suc fuel) file m ≡ load_lines fuel rest (parse_line (y ∷ ys) m)
unfolding load_lines
load_round fuel [] buf rest line y ys m h e f g = absurd (omega arith)
load_round fuel (x ∷ xs) buf rest line y ys m h e f g =
    rw (load_lines, e, f, g)
      (ap (λ (p : List ℕ × List ℕ). load_lines fuel p.1 (parse_line (y ∷ ys) m)) e)

load_entry :
    (fuel : ℕ) (k v rest : List ℕ) (m : ConfigMap)
    → IsEntry (k, v)
    → load_lines (suc fuel) (line_of (k, v) ++ (10 ∷ rest)) m ≡ load_lines fuel rest (insert k v m)
load_entry fuel k v rest m h =
    let (lk, lv, pk, pv, eq, n) = h in
    let (y, ys, q) = starts k v lk in
    let plain : (P : ℕ → Type 0) → ((c : ℕ) → IsPlain c → P c) → P b'=' → All P (line_of (k, v)) =
      λ P f e. All-append P k (b'=' ∷ v) (All-map k f pk) (e, All-map v f pv) in
    let size : length (line_of (k, v)) ≡ length k + suc (length v) = length-append k (b'=' ∷ v) in
    load_round fuel (line_of (k, v) ++ (10 ∷ rest)) (line_of (k, v) ++ (10 ∷ [])) rest
      (line_of (k, v)) y ys m (omega (arith, length-append (line_of (k, v)) (10 ∷ rest)))
      (fgets_line 255 (line_of (k, v)) rest (plain (λ c. c ≢ 10) (λ c p. p.0) (omega arith))
        (omega (arith, size)))
      (cut_end_line (line_of (k, v)) (omega (arith, size))
        (plain (λ c. c ≢ 13) (λ c p. p.1) (omega arith)))
      (cut_comment_entry k v h ∙ q)
    ∙ ap (λ (l : List ℕ). load_lines fuel rest (parse_line l m)) (sym q)
    ∙ ap (load_lines fuel rest) (parse_line_entry k v m h)

load_entries :
    (es : List (List ℕ × List ℕ)) (fuel : ℕ) (m : ConfigMap)
    → length (file_of es) ≤ fuel
    → All IsEntry es
    → load_lines fuel (file_of es) m ≡ some (insert_all es m)
unfolding load_lines insert_all
load_entries [] fuel m l h = refl
load_entries ((k, v) ∷ es) zero m l h =
    absurd (omega (arith, length-append (line_of (k, v)) (10 ∷ file_of es)))
load_entries ((k, v) ∷ es) (suc fuel) m l (h, hs) =
    load_entry fuel k v (file_of es) m h
    ∙ load_entries es fuel (insert k v m)
        (omega (arith, length-append (line_of (k, v)) (10 ∷ file_of es))) hs

same_text→eq : (s t : List ℕ) → same_text s t ≡ true → s ≡ t
same_text→eq [] [] e = refl
same_text→eq [] (y ∷ t) e = cc
same_text→eq (x ∷ s) [] e = cc
same_text→eq (x ∷ s) (y ∷ t) e = elim (Bool-cases (x == y)) [
  | inl q ↦
      let rest : same_text s t ≡ true = rw q at e in
      let tails : s ≡ t = same_text→eq s t rest in let heads : x ≡ y = ==→eq x y q in cc
  | inr q ↦ let wrong : false ≡ true = rw q at e in cc
]

-- The first of two values.
abbrev pub first_of : Option (List ℕ) → Option (List ℕ) → Option (List ℕ)
first_of none o = o
first_of (some v) o = some v

right_none : (o : Option (List ℕ)) → first_of o none ≡ o
right_none none = refl
right_none (some w) = refl

find_front :
    (key k v : List ℕ) (es : ConfigMap)
    → first_of (find key ((k, v) ∷ [])) (find key es) ≡ find key ((k, v) ∷ es)
unfolding find
find_front key k v es = elim (Bool-cases (same_text k key)) [
  | inl e ↦ rw (e, find)
  | inr e ↦ rw (e, find)
]

find-append :
    (key k v : List ℕ) (m : ConfigMap)
    → find key (m ++ ((k, v) ∷ [])) ≡ first_of (find key m) (find key ((k, v) ∷ []))
unfolding find
find-append key k v [] = refl
find-append key k v ((j, w) ∷ m) = elim (Bool-cases (same_text j key)) [
  | inl e ↦ rw (e, find)
  | inr e ↦ rw (e, find) (find-append key k v m)
]

find-insert :
    (key k v : List ℕ) (m : ConfigMap)
    → find key (insert k v m) ≡ first_of (find key m) (find key ((k, v) ∷ []))
unfolding insert find
find-insert key k v m = elim (Option-cases (find k m)) [
  | inl e ↦ rw (e, insert) (find-append key k v m)
  | inr (w, e) ↦
      rw (e, insert)
        (elim (Bool-cases (same_text k key)) [
          | inl q ↦ rw (← same_text→eq k key q, e)
          | inr q ↦ sym (rw (q, find) (right_none (find key m)))
        ])
]

first_of_assoc : (a b c : Option (List ℕ)) → first_of (first_of a b) c ≡ first_of a (first_of b c)
first_of_assoc none b c = refl
first_of_assoc (some v) b c = refl

find-insert_all :
    (key : List ℕ) (es : List (List ℕ × List ℕ)) (m : ConfigMap)
    → find key (insert_all es m) ≡ first_of (find key m) (find key es)
unfolding insert_all find
find-insert_all key [] m = sym (right_none (find key m))
find-insert_all key ((k, v) ∷ es) m =
    find-insert_all key es (insert k v m)
    ∙ ap (λ (o : Option (List ℕ)). first_of o (find key es)) (find-insert key k v m)
    ∙ first_of_assoc (find key m) (find key ((k, v) ∷ [])) (find key es)
    ∙ ap (first_of (find key m)) (find_front key k v es)

-- A file of lines `key=value` whose texts are not empty and hold no blank, no '#' and no end of a
-- line, the key no '=' either, of at most 254 bytes each: load_file reads it without a wrong
-- access, and get_config_value finds for every name the value of the first line with this key, and
-- nothing for a name that no line has.
pub load_file-lines :
    (es : List (List ℕ × List ℕ)) (name : List ℕ)
    → All IsEntry es
    → (m : ConfigMap) × (load_file (file_of es) ≡ some m) × (get_config_value name m ≡ find name es)
unfolding load_file get_config_value find
load_file-lines es name h = (
  insert_all es [],
  load_entries es (length (file_of es)) [] (omega arith) h,
  find-insert_all name es [],
)
