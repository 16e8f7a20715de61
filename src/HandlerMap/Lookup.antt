-- ===== src/HandlerMap/Lookup.antt =====
-- Commands and the handlers that they were registered with.
use db_proxy_server.HandlerMap.{Handler, registrations, find, get_handler}
use db_proxy_server.Prelude.{
  ℕ, ◌≡◌, refl, ap, ◌↔◌, subst, ◌⊎◌, inl, inr, Bool, true, false, some, List, [], ◌∷◌, ◌%◌, ◌&&◌,
  not, ltb, ◌==◌, ==→eq, ==→ne, ltb→lt, arith, Bool-cases,
}

-- `k` is no key of the list.
abbrev is_new : ℕ → List (ℕ × Handler) → Bool
is_new k [] = true
is_new k ((j, h) ∷ rest) = not (j == k) && is_new k rest

-- The keys are uint16_t values, no two the same.
abbrev are_distinct : List (ℕ × Handler) → Bool
are_distinct [] = true
are_distinct ((k, h) ∷ rest) = ltb k 65536 && (is_new k rest && are_distinct rest)

pub registrations_distinct : are_distinct registrations ≡ true
registrations_distinct = refl

-- `(k, h)` stands in the list.
abbrev pub Registers : ℕ → Handler → List (ℕ × Handler) → Type 0
Registers k h [] = ⊥
Registers k h ((j, g) ∷ rest) = ((j ≡ k) × (g ≡ h)) ⊎ Registers k h rest

split_and : (a b : Bool) → (a && b) ≡ true → (a ≡ true) × (b ≡ true)
split_and true b e = (refl, e)
split_and false b e = cc

not_registered :
    (k : ℕ) (h : Handler) (rest : List (ℕ × Handler))
    → is_new k rest ≡ true
    → Registers k h rest
    → ⊥
not_registered k h [] e r = r
not_registered k h ((j, g) ∷ rest) e (inl (same, _)) =
    let (first, _) = split_and (not (j == k)) (is_new k rest) e in ground arith
not_registered k h ((j, g) ∷ rest) e (inr r) =
    let (_, later) = split_and (not (j == k)) (is_new k rest) e in not_registered k h rest later r

find-Registers :
    (key : ℕ) (h : Handler) (l : List (ℕ × Handler))
    → are_distinct l ≡ true
    → find key l ≡ some h
    → Registers key h l
unfolding find
find-Registers key h [] d e = cc
find-Registers key h ((k, g) ∷ rest) d e =
    let (small, d') = split_and (ltb k 65536) (is_new k rest && are_distinct rest) d in
    let (fresh, d'') = split_and (is_new k rest) (are_distinct rest) d' in
    elim (Bool-cases (k % 65536 == key)) [
      | inl t ↦
          let same : some g ≡ some h = rw (t, find) at e in
          inl (omega (arith, ==→eq (k % 65536) key t, ltb→lt k 65536 small), cc)
      | inr t ↦ inr (find-Registers key h rest d'' (rw (t, find) at e))
    ]

Registers-find :
    (key : ℕ) (h : Handler) (l : List (ℕ × Handler))
    → are_distinct l ≡ true
    → Registers key h l
    → find key l ≡ some h
unfolding find
Registers-find key h [] d r = absurd r
Registers-find key h ((k, g) ∷ rest) d r =
    let (small, d') = split_and (ltb k 65536) (is_new k rest && are_distinct rest) d in
    let (fresh, d'') = split_and (is_new k rest) (are_distinct rest) d' in
    elim (Bool-cases (k % 65536 == key)) [
      | inl t ↦
          let at_key : k ≡ key = omega (arith, ==→eq (k % 65536) key t, ltb→lt k 65536 small) in
          rw (t, find)
            (elim r [
              | inl (_, e) ↦ ap some e
              | inr later ↦ absurd (
                  not_registered key h rest (subst (λ (x : ℕ). is_new x rest ≡ true) at_key fresh)
                    later)
            ])
      | inr t ↦
          rw (t, find)
            (elim r [
              | inl (e, _) ↦
                  absurd (omega (arith, ==→ne (k % 65536) key t, ltb→lt k 65536 small, e))
              | inr later ↦ Registers-find key h rest d'' later
            ])
    ]

-- get_handler finds a handler for a command exactly if the constructor of handler_map registers
-- this handler for it: no registration is hidden by another one or cut off by the narrowing of its
-- key, and no other command finds one.
pub get_handler-Registers :
    (cmd_id : ℕ) (h : Handler) → (get_handler cmd_id ≡ some h) ↔ Registers cmd_id h registrations
unfolding get_handler
get_handler-Registers cmd_id h = (
  find-Registers cmd_id h registrations registrations_distinct,
  Registers-find cmd_id h registrations registrations_distinct,
)
