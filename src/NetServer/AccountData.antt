-- ===== src/NetServer/AccountData.antt =====
-- net_server::account_handle_data and account_handle_head: cutting the input from the account
-- server into JSON texts, each from a byte '{' to a byte 0. `sum` stays below 2^31, as an int must.
pub mod Search
pub mod Stream
use db_proxy_server.EvBuffer.{EvBuffer}
use db_proxy_server.Prelude.{
  ℕ, zero, suc, ◌+◌, ◌*◌, Bool, true, false, Option, none, some, List, [], ◌∷◌, length, ltb, ◌==◌,
}

abbrev pub json_buffer_size : ℕ
json_buffer_size = 16 * 1024

-- How account_handle_head returns: a length, -1, or not within the fuel.
pub data Located {ℓ} (B : Type ℓ) : Type ℓ where
  located : ℕ → B → Located B
  missing : B → Located B
  out_of_fuel : Located B

-- The texts that were made into tasks, in order, and what is left of the input.
pub data Taken {ℓ} (B : Type ℓ) : Type ℓ where
  returned : List (List ℕ) → B → Taken B
  out_of_fuel : Taken B

abbrev pub with_text {ℓ} : {B : Type ℓ} → List ℕ → Taken B → Taken B
with_text t (returned ts b) = returned (t ∷ ts) b
with_text t out_of_fuel = out_of_fuel

-- A `for` loop over an extent, from index `i` on: the first index that holds the byte `c`.
unfoldable pub index_from : ℕ → ℕ → List ℕ → Option ℕ
index_from c i [] = none
index_from c i (x ∷ xs) = elim (x == c) [ true ↦ some i | false ↦ index_from c (i + 1) xs ]

module _ (evb : EvBuffer) where
  open evb use {Buf, get_length, drain, remove, peek}

  -- The inner `while` loop, on fuel: no round changes the buffer.
  unfoldable pub measure : ℕ → ℕ → Buf → Located Buf
  measure zero sum input = out_of_fuel
  measure (suc fuel) sum input = elim (peek input) [
    | none ↦ missing input
    | some vec_temp ↦ elim (index_from 0 0 vec_temp) [
      | some j ↦ located (sum + j) input
      | none ↦ measure fuel (sum + length vec_temp) input
    ]
  ]

  -- The outer `while` loop.
  unfoldable pub account_handle_head : ℕ → Buf → Located Buf
  account_handle_head zero input = out_of_fuel
  account_handle_head (suc fuel) input = elim (peek input) [
    | none ↦ missing input
    | some vec ↦ elim (index_from b'{' 0 vec) [
      | some i ↦ measure fuel 0 (drain input i)
      | none ↦ account_handle_head fuel (drain input (length vec))
    ]
  ]

  -- The body of account_handle_data's loop: `again` is its next round.
  unfoldable pub take_text : (Buf → Taken Buf) → Located Buf → Taken Buf
  take_text again (missing input) = returned [] input
  take_text again (located n input) = elim (ltb json_buffer_size n) [
    | true ↦ again (drain input (get_length input))
    | false ↦ let (text, left) = remove input (n + 1) in with_text text (again left)
  ]
  take_text again Located.out_of_fuel = out_of_fuel

  -- account_handle_data: `n` rounds at most, each with a search on `fuel`.
  unfoldable pub account_handle_data : ℕ → ℕ → Buf → Taken Buf
  account_handle_data fuel zero input = out_of_fuel
  account_handle_data fuel (suc n) input =
      take_text (account_handle_data fuel n) (account_handle_head fuel input)
