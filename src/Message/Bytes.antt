-- ===== src/Message/Bytes.antt =====
-- Byte order and memory as message.cpp uses them: htons, htonl, ntohs and ntohl of the C library,
-- loads and stores of 16 and 32 bit words through a pointer, and the region that realloc returns.
use db_proxy_server.Prelude.{
  ℕ, ◌+◌, ◌*◌, ◌/◌, ◌%◌, ◌<◌, ◌≡◌, Option, none, some, List, [], ◌∷◌, ◌++◌, length, take, drop, leb,
  if◌then◌else◌, arith,
}

-- The byte order of the host. The network's is big endian.
pub data Host : Type 0 where
  little_endian big_endian : Host

abbrev pub u8 : ℕ → ℕ
u8 x = x % 256

abbrev pub u16 : ℕ → ℕ
u16 x = x % 65536

abbrev pub u32 : ℕ → ℕ
u32 x = x % 4294967296

-- `htons` and `ntohs` are one function, and so are `htonl` and `ntohl`. The argument is converted
-- to the word's width first.
unfoldable pub htons : Host → ℕ → ℕ
htons little_endian x = x % 256 * 256 + x / 256 % 256
htons big_endian x = u16 x

unfoldable pub htonl : Host → ℕ → ℕ
htonl little_endian x =
    x % 256 * 16777216 + x / 256 % 256 * 65536 + x / 65536 % 256 * 256 + x / 16777216 % 256
htonl big_endian x = u32 x

-- `*((uint16_t*)temp) = x` and `*((uint32_t*)temp) = x`: the bytes from `temp` on.
unfoldable pub store16 : Host → ℕ → List ℕ
store16 little_endian x = x % 256 ∷ (x / 256 % 256) ∷ []
store16 big_endian x = (x / 256 % 256) ∷ x % 256 ∷ []

unfoldable pub store32 : Host → ℕ → List ℕ
store32 little_endian x = x % 256 ∷ (x / 256 % 256) ∷ (x / 65536 % 256) ∷ (x / 16777216 % 256) ∷ []
store32 big_endian x = (x / 16777216 % 256) ∷ (x / 65536 % 256) ∷ (x / 256 % 256) ∷ x % 256 ∷ []

-- `*((uint16_t*)temp)` and `*((uint32_t*)temp)` over the bytes at `temp`.
unfoldable pub load16 : Host → ℕ → ℕ → ℕ
load16 little_endian a b = a + 256 * b
load16 big_endian a b = 256 * a + b

unfoldable pub load32 : Host → ℕ → ℕ → ℕ → ℕ → ℕ
load32 little_endian a b c d = a + 256 * b + 65536 * c + 16777216 * d
load32 big_endian a b c d = 16777216 * a + 65536 * b + 256 * c + d

-- On either host a converted word lies in memory with its high byte first, and is read back.
pub store16-htons : (h : Host) (x : ℕ) → store16 h (htons h x) ≡ (x / 256 % 256) ∷ x % 256 ∷ []
unfolding store16 htons
store16-htons little_endian x = ground arith
store16-htons big_endian x = ground arith

pub store32-htonl :
    (h : Host) (x : ℕ)
    → store32 h (htonl h x)
      ≡ (x / 16777216 % 256) ∷ (x / 65536 % 256) ∷ (x / 256 % 256) ∷ x % 256 ∷ []
unfolding store32 htonl
store32-htonl little_endian x = ground arith
store32-htonl big_endian x = ground arith

pub htons-load16 : (h : Host) (x : ℕ) → x < 65536 → htons h (load16 h (x / 256 % 256) (x % 256)) ≡ x
unfolding load16 htons
htons-load16 little_endian x b = omega arith
htons-load16 big_endian x b = omega arith

pub htonl-load32 :
    (h : Host) (x : ℕ)
    → x < 4294967296
    → htonl h (load32 h (x / 16777216 % 256) (x / 65536 % 256) (x / 256 % 256) (x % 256)) ≡ x
unfolding load32 htonl
htonl-load32 little_endian x b = omega arith
htonl-load32 big_endian x b = omega arith

-- The two bytes that are read as a 16 bit word are the word's high and low byte.
pub htons-load16_bytes :
    (h : Host) (a b : ℕ) → a < 256 → b < 256 → htons h (load16 h a b) ≡ 256 * a + b
unfolding load16 htons
htons-load16_bytes little_endian a b ha hb = omega arith
htons-load16_bytes big_endian a b ha hb = omega arith

-- Writing `bs` at offset `at` of a region; `none` is a write past its end.
unfoldable pub write_at : List ℕ → ℕ → List ℕ → Option (List ℕ)
write_at mem at bs =
    if leb (at + length bs) (length mem)
    then some (take at mem ++ (bs ++ drop (at + length bs) mem))
    else none

-- The C library's `realloc`: the old bytes that fit stay, and the rest of the region is not
-- specified.
pub record Allocator : Type 0 where
  pub realloc : Option (List ℕ) → ℕ → List ℕ
  pub length-realloc : (old : Option (List ℕ)) (n : ℕ) → length (realloc old n) ≡ n
