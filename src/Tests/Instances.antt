-- ===== src/Tests/Instances.antt =====
-- Concrete parameters: an allocator, a buffer in one extent, and messages.
use db_proxy_server.EvBuffer.{EvBuffer}
use db_proxy_server.Message.Bytes.{Allocator}
use db_proxy_server.Message.{MsgHead, Message, PbData, new_message}
use db_proxy_server.Message.RoundTrip.{IsHead}
use db_proxy_server.Prelude.{
  ℕ, zero, suc, ◌<◌, ◌≡◌, refl, ap, Option, none, some, List, [], ◌∷◌, ◌++◌, length, take, drop,
  arith,
}
use mathlib.Core.List.{append-nil}
use mathlib.Core.Path.{sym}

abbrev padded : ℕ → List ℕ → List ℕ
padded zero xs = []
padded (suc n) [] = 0xcd ∷ padded n []
padded (suc n) (x ∷ xs) = x ∷ padded n xs

length-padded : (n : ℕ) (xs : List ℕ) → length (padded n xs) ≡ n
length-padded zero xs = refl
length-padded (suc n) [] = ap suc (length-padded n [])
length-padded (suc n) (x ∷ xs) = ap suc (length-padded n xs)

-- Keeps the old bytes, and fills the rest with CD.
abbrev pub grow : Option (List ℕ) → ℕ → List ℕ
grow none n = padded n []
grow (some old) n = padded n old

pub length-grow : (old : Option (List ℕ)) (n : ℕ) → length (grow old n) ≡ n
length-grow none n = length-padded n []
length-grow (some old) n = length-padded n old

abbrev pub filling : Allocator
filling = record { realloc = grow; length-realloc = length-grow }

abbrev pub extent : List ℕ → Option (List ℕ)
extent [] = none
extent (x ∷ xs) = some (x ∷ xs)

pub extent-none : (b : List ℕ) → extent b ≡ none → b ≡ []
extent-none [] e = refl
extent-none (x ∷ xs) e = cc

pub extent-some :
    (b x : List ℕ) → extent b ≡ some x → (0 < length x) × (rest : List ℕ) × (b ≡ x ++ rest)
extent-some [] x e = cc
extent-some (y ∷ ys) x e =
    let p : y ∷ ys ≡ x = cc in rw (← p) (omega arith, [], sym (append-nil (y ∷ ys)))

-- The whole content in one extent.
abbrev pub flat : EvBuffer
flat = record {
  Buf = List ℕ;
  bytes = λ b. b;
  get_length = λ b. length b;
  copyout = λ b n. take n b;
  drain = λ b n. drop n b;
  remove = λ b n. (take n b, drop n b);
  peek = extent;
  get_length-bytes = λ b. refl;
  copyout-bytes = λ b n. refl;
  drain-bytes = λ b n. refl;
  remove-bytes = λ b n. (refl, refl);
  peek-none = extent-none;
  peek-some = extent-some;
}

abbrev pub sample_head : MsgHead
sample_head = record (new_message.m_msg_head) {
  s_node = 0x01020304;
  s_socket = 77;
  s_router = 1;
  seq_num = 300;
  service_id = 9;
  cmd_id = 0x1234;
  company_id = 5;
  pb_length = 3;
}

abbrev pub sample_payload : List ℕ
sample_payload = 8 ∷ 150 ∷ 1 ∷ []

abbrev pub sample : Message
sample = record { m_msg = none; m_msg_head = sample_head }

abbrev pub sample_data : PbData
sample_data = record { byte_size = 3; serialized = some sample_payload }

pub sample_head-IsHead : IsHead sample_head
sample_head-IsHead = omega arith
