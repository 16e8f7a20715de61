-- ===== src/Tests/ConfigFile.antt =====
-- Files of a few lines.
use db_proxy_server.Config.{
  ConfigMap, trim_space, load_file, load_lines, get_config_value, cut_end, fgets, cut_comment,
  parse_line, split_at, find, insert,
}
use db_proxy_server.Config.Words.{file_of, load_file-lines}
use db_proxy_server.Prelude.{◌≡◌, refl, none, some, [], ◌∷◌, arith}

blanks_go : trim_space (b' ' ∷ b'a' ∷ b' ' ∷ b'b' ∷ 9 ∷ []) ≡ some (b'a' ∷ b' ' ∷ b'b' ∷ [])
unfolding trim_space
blanks_go = refl

-- `k = 1 # one`, with a blank on each side of the value.
comments_go :
    load_file (b'k' ∷ b' ' ∷ b'=' ∷ b' ' ∷ b'1' ∷ b' ' ∷ b'#' ∷ b'x' ∷ 10 ∷ [])
    ≡ some ((b'k' ∷ [], b'1' ∷ []) ∷ [])
unfolding load_file load_lines fgets cut_end cut_comment parse_line split_at trim_space insert find
comments_go = refl

-- An empty line.
before_buffer : load_file (10 ∷ []) ≡ none
unfolding load_file load_lines fgets cut_end
before_buffer = refl

load_file-lines_example :
    (m : ConfigMap) × (load_file (file_of ((b'k' ∷ [], b'1' ∷ []) ∷ (b'k' ∷ [], b'2' ∷ []) ∷ []))
      ≡ some m)
    × (get_config_value (b'k' ∷ []) m
        ≡ find (b'k' ∷ []) ((b'k' ∷ [], b'1' ∷ []) ∷ (b'k' ∷ [], b'2' ∷ []) ∷ []))
load_file-lines_example =
    load_file-lines ((b'k' ∷ [], b'1' ∷ []) ∷ (b'k' ∷ [], b'2' ∷ []) ∷ []) (b'k' ∷ []) (
      (
        omega arith,
        omega arith,
        ((omega arith, omega arith, omega arith, refl), tt),
        ((omega arith, omega arith, omega arith, refl), tt),
        (omega arith, tt),
        omega arith,
      ),
      (
        (
          omega arith,
          omega arith,
          ((omega arith, omega arith, omega arith, refl), tt),
          ((omega arith, omega arith, omega arith, refl), tt),
          (omega arith, tt),
          omega arith,
        ),
        tt,
      ),
    )
