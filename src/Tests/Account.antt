-- ===== src/Tests/Account.antt =====
-- The input from the account server.
use db_proxy_server.NetServer.AccountData.{returned, out_of_fuel, account_handle_data}
use db_proxy_server.NetServer.AccountData.Stream.{
  account_handle_data-stream, account_handle_data-unended,
}
use db_proxy_server.Prelude.{ℕ, ◌<◌, ◌≡◌, refl, some, List, [], ◌∷◌, length, arith}
use db_proxy_server.Tests.Instances.{flat}

flat_whole : (l : List ℕ) → 0 < length l → flat.peek l ≡ some l
flat_whole [] h = absurd (omega arith)
flat_whole (x ∷ l) h = refl

account_handle_data-stream_example :
    (left : List ℕ) × (account_handle_data flat 2 3
        (7 ∷ b'{' ∷ b'a' ∷ b'}' ∷ 0 ∷ 10 ∷ b'{' ∷ b'}' ∷ 0 ∷ 13 ∷ 10 ∷ [])
      ≡ returned ((b'{' ∷ b'a' ∷ b'}' ∷ 0 ∷ []) ∷ (b'{' ∷ b'}' ∷ 0 ∷ []) ∷ []) left)
    × (left ≡ [])
account_handle_data-stream_example =
    account_handle_data-stream flat ((7 ∷ [], b'a' ∷ b'}' ∷ []) ∷ (10 ∷ [], b'}' ∷ []) ∷ [])
      (13 ∷ 10 ∷ []) (7 ∷ b'{' ∷ b'a' ∷ b'}' ∷ 0 ∷ 10 ∷ b'{' ∷ b'}' ∷ 0 ∷ 13 ∷ 10 ∷ []) 0 3
      (λ c r. flat_whole c) refl
      (
        ((omega arith, tt), ((omega arith, (omega arith, tt)), omega arith)),
        (((omega arith, tt), ((omega arith, tt), omega arith)), tt),
      )
      (omega arith, (omega arith, tt)) (omega arith)

account_handle_data-unended_example :
    account_handle_data flat 100 100 (b'{' ∷ b'}' ∷ 0 ∷ b'{' ∷ b'a' ∷ []) ≡ out_of_fuel
account_handle_data-unended_example =
    account_handle_data-unended flat (([], b'}' ∷ []) ∷ []) [] (b'a' ∷ [])
      (b'{' ∷ b'}' ∷ 0 ∷ b'{' ∷ b'a' ∷ []) 100 100 (λ c r. flat_whole c) refl
      ((tt, ((omega arith, tt), omega arith)), tt) tt (omega arith, tt)
