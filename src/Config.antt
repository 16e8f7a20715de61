-- ===== src/Config.antt =====
-- src/config_file_oper.cpp: the configuration file, lines of `key = value` with comments behind '#'.
-- A text is the list of its bytes; the file holds no byte 0. fopen has succeeded.
pub mod Words
use db_proxy_server.Prelude.{
  ℕ, zero, suc, ◌-◌, Bool, true, false, ◌&&◌, ◌||◌, Option, none, some, List, [], ◌∷◌, ◌++◌, length,
  get_or, take, ◌==◌, if◌then◌else◌,
}

-- `m_map_config`, with the keys in the order of their insertion.
abbrev pub ConfigMap : Type 0
ConfigMap = List (List ℕ × List ℕ)

abbrev pub same_text : List ℕ → List ℕ → Bool
same_text [] [] = true
same_text [] (y ∷ t) = false
same_text (x ∷ s) [] = false
same_text (x ∷ s) (y ∷ t) = (x == y) && same_text s t

-- map::find.
unfoldable pub find : List ℕ → ConfigMap → Option (List ℕ)
find key [] = none
find key ((k, v) ∷ rest) = elim (same_text k key) [ true ↦ some v | false ↦ find key rest ]

-- map::insert: a key that is there keeps its value.
unfoldable pub insert : List ℕ → List ℕ → ConfigMap → ConfigMap
insert key value m = elim (find key m) [ some v ↦ m | none ↦ m ++ ((key, value) ∷ []) ]

abbrev pub is_blank : ℕ → Bool
is_blank c = (c == b' ') || (c == 9)

-- The first loop of trim_space.
unfoldable pub skip_blanks : List ℕ → List ℕ
skip_blanks [] = []
skip_blanks (x ∷ xs) = let rest = skip_blanks xs in if is_blank x then rest else x ∷ xs

-- The second loop, from the end.
unfoldable pub cut_blanks : List ℕ → List ℕ
cut_blanks [] = []
cut_blanks (x ∷ xs) = elim (cut_blanks xs) [
  | [] ↦ if is_blank x then [] else x ∷ []
  | y ∷ ys ↦ x ∷ y ∷ ys
]

-- config_file_oper::trim_space; none for NULL.
unfoldable pub trim_space : List ℕ → Option (List ℕ)
unfolding skip_blanks cut_blanks
trim_space name = elim (skip_blanks name) [ [] ↦ none | x ∷ xs ↦ some (cut_blanks (x ∷ xs)) ]

-- `strchr(line, '=')`: what stands before it and behind it.
unfoldable pub split_at : ℕ → List ℕ → Option (List ℕ × List ℕ)
split_at c [] = none
split_at c (x ∷ xs) =
    let rest = split_at c xs in
    elim (x == c) [
      | true ↦ some ([], xs)
      | false ↦ elim rest [ none ↦ none | some (before, behind) ↦ some (x ∷ before, behind) ]
    ]

-- `if (key && value)`.
unfoldable pub insert_pair : Option (List ℕ) → Option (List ℕ) → ConfigMap → ConfigMap
insert_pair none value m = m
insert_pair (some key) none m = m
insert_pair (some key) (some value) m = insert key value m

-- config_file_oper::parse_line.
unfoldable pub parse_line : List ℕ → ConfigMap → ConfigMap
unfolding insert_pair
parse_line line m = elim (split_at b'=' line) [
  | none ↦ m
  | some (before, behind) ↦ insert_pair (trim_space before) (trim_space behind) m
]

-- `fgets` for at most `n` bytes: the line, with its '\n', and the rest of the file.
unfoldable pub fgets : ℕ → List ℕ → List ℕ × List ℕ
fgets zero file = ([], file)
fgets (suc n) [] = ([], [])
fgets (suc n) (x ∷ xs) =
    let (line, rest) = fgets n xs in
    elim (x == 10) [ true ↦ (x ∷ [], xs) | false ↦ (x ∷ line, rest) ]

-- The line without its end. `none` for a line of one byte: the code reads the byte before `buf`.
-- A byte '\r' at the last place but one ends the text, whatever follows.
unfoldable pub cut_end : List ℕ → Option (List ℕ)
cut_end buf =
    let len = length buf in
    let last = get_or buf (len - 1) 0 in
    elim (len == 1) [
      | true ↦ none
      | false ↦ some (
          if get_or buf (len - 2) 0 == 13
          then take (len - 2) buf
          else (if (last == 10) || (last == 13) then take (len - 1) buf else buf))
    ]

-- `strchr(buf, '#')`.
unfoldable pub cut_comment : List ℕ → List ℕ
cut_comment buf = elim (split_at b'#' buf) [ none ↦ buf | some (before, behind) ↦ before ]

-- load_file's loop over a file, on fuel. `none` after a read outside `buf`, or without fuel.
unfoldable pub load_lines : ℕ → List ℕ → ConfigMap → Option ConfigMap
load_lines fuel [] m = some m
load_lines zero (x ∷ xs) m = none
load_lines (suc fuel) (x ∷ xs) m =
    let (buf, rest) = fgets 255 (x ∷ xs) in
    elim (cut_end buf) [
      | none ↦ none
      | some line ↦ elim (cut_comment line) [
        | [] ↦ load_lines fuel rest m
        | y ∷ ys ↦ load_lines fuel rest (parse_line (y ∷ ys) m)
      ]
    ]

-- config_file_oper::load_file: a round takes at least one byte, so the fuel is enough.
unfoldable pub load_file : List ℕ → Option ConfigMap
unfolding load_lines
load_file file = load_lines (length file) file []

-- config_file_oper::get_config_value on a file that was loaded.
unfoldable pub get_config_value : List ℕ → ConfigMap → Option (List ℕ)
unfolding find
get_config_value name m = find name m
