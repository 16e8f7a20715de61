-- ===== src/EvBuffer.antt =====
-- The evbuffer of libevent, which net_server.cpp and message.cpp read through: an interface, since
-- libevent is not part of the repository. `bytes` is what the buffer holds. The laws are what the
-- documentation of libevent says of each function.
use db_proxy_server.Prelude.{ℕ, ◌<◌, ◌≡◌, Option, none, some, List, [], ◌++◌, length, take, drop}

pub record EvBuffer : Type 1 where
  pub Buf : Type 0
  pub bytes : Buf → List ℕ
  -- evbuffer_get_length.
  pub get_length : Buf → ℕ
  -- evbuffer_copyout of n bytes.
  pub copyout : Buf → ℕ → List ℕ
  -- evbuffer_drain.
  pub drain : Buf → ℕ → Buf
  -- evbuffer_remove of n bytes.
  pub remove : Buf → ℕ → List ℕ × Buf
  -- evbuffer_peek(b, -1, NULL, vec, 1): none if it returns less than 1, else the first extent.
  pub peek : Buf → Option (List ℕ)
  pub get_length-bytes : (b : Buf) → get_length b ≡ length (bytes b)
  pub copyout-bytes : (b : Buf) (n : ℕ) → copyout b n ≡ take n (bytes b)
  pub drain-bytes : (b : Buf) (n : ℕ) → bytes (drain b n) ≡ drop n (bytes b)
  pub remove-bytes :
      (b : Buf) (n : ℕ)
      → ((remove b n).0 ≡ take n (bytes b)) × (bytes (remove b n).1 ≡ drop n (bytes b))
  pub peek-none : (b : Buf) → peek b ≡ none → bytes b ≡ []
  -- The first extent is not empty, and the buffer's bytes begin with it.
  pub peek-some :
      (b : Buf) (x : List ℕ)
      → peek b ≡ some x
      → (0 < length x) × (rest : List ℕ) × (bytes b ≡ x ++ rest)
