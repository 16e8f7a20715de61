-- ===== src/NetServer/Logins.antt =====
-- The map m_login_session of src/net_server.cpp, from the number of a message to the task that waits for
-- the account server. It is a list of its entries; each function runs under its lock.
use db_proxy_server.Prelude.{
  ℕ, ◌≡◌, refl, ap, inl, inr, Bool-cases, Option, none, some, List, [], ◌∷◌, ◌==◌, ==→eq,
  if◌then◌else◌, ==→ne, ne→==, sym, ◌∙◌,
}

module _ {ℓ} {A : Type ℓ} where
  unfoldable pub find_map : ℕ → List (ℕ × A) → Option A
  find_map key [] = none
  find_map key ((k, t) ∷ m) = let rest = find_map key m in if key == k then some t else rest

  -- An entry that is there stays.
  unfoldable pub insert_map : ℕ → A → List (ℕ × A) → List (ℕ × A)
  unfolding find_map
  insert_map key t m = elim (find_map key m) [ none ↦ (key, t) ∷ m | some _ ↦ m ]

  -- With the task that is deleted.
  unfoldable pub eraser_map : ℕ → List (ℕ × A) → List (ℕ × A) × Option A
  eraser_map key [] = ([], none)
  eraser_map key ((k, t) ∷ m) =
      let (rest, task) = eraser_map key m in if key == k then (m, some t) else ((k, t) ∷ rest, task)

  -- Each key has one entry.
  abbrev pub IsMap : List (ℕ × A) → Type ℓ
  IsMap [] = Unit {ℓ}
  IsMap ((k, t) ∷ m) = (find_map k m ≡ none) × IsMap m

  abbrev pub kept : Option A → A → A
  kept none t = t
  kept (some u) t = u

  find_map-insert_map :
      (j key : ℕ) (t : A) (m : List (ℕ × A)) (o : Option A)
      → find_map key m ≡ o
      → find_map j (insert_map key t m) ≡ (if j == key then some (kept o t) else find_map j m)
  unfolding find_map insert_map
  find_map-insert_map j key t m none e = rw (insert_map, e) refl
  find_map-insert_map j key t m (some u) e = elim (Bool-cases (j == key)) [
    | inl h ↦ rw (insert_map, e, h, ==→eq j key h) e
    | inr h ↦ rw (insert_map, e, h) refl
  ]

  insert_map-IsMap :
      (key : ℕ) (t : A) (m : List (ℕ × A)) (o : Option A)
      → find_map key m ≡ o
      → IsMap m
      → IsMap (insert_map key t m)
  unfolding insert_map
  insert_map-IsMap key t m none e h = rw (insert_map, e) (e, h)
  insert_map-IsMap key t m (some u) e h = rw (insert_map, e) h

  find_map-eraser_map :
      (j key : ℕ) (m : List (ℕ × A))
      → IsMap m
      → find_map j (eraser_map key m).0 ≡ (if j == key then none else find_map j m)
  unfolding find_map eraser_map
  find_map-eraser_map j key [] h = elim (Bool-cases (j == key)) [
    | inl e ↦ rw e refl
    | inr e ↦ rw e refl
  ]
  find_map-eraser_map j key ((k, t) ∷ m) h = elim (Bool-cases (key == k)) [
    | inl e ↦ elim (Bool-cases (j == key)) [
      | inl f ↦
          rw (eraser_map, e, f) (ap (λ (x : ℕ). find_map x m) (==→eq j key f ∙ ==→eq key k e) ∙ h.0)
      | inr f ↦ rw (eraser_map, e, f, ne→== j k (λ q. ==→ne j key f (q ∙ sym (==→eq key k e)))) refl
    ]
    | inr e ↦ elim (Bool-cases (j == k)) [
      | inl f ↦
          rw (eraser_map, e, find_map, f, ne→== j key (λ q. ==→ne key k e (sym q ∙ ==→eq j k f)))
            refl
      | inr f ↦ rw (eraser_map, e, find_map, f) (find_map-eraser_map j key m h.1)
    ]
  ]

  still :
      (key k : ℕ) (t : A) (m : List (ℕ × A))
      → IsMap ((k, t) ∷ m)
      → find_map k (eraser_map key m).0 ≡ none
  still key k t m h = elim (Bool-cases (k == key)) [
    | inl e ↦ find_map-eraser_map k key m h.1 ∙ rw e refl
    | inr e ↦ find_map-eraser_map k key m h.1 ∙ rw e h.0
  ]

  eraser_map-IsMap : (key : ℕ) (m : List (ℕ × A)) → IsMap m → IsMap (eraser_map key m).0
  unfolding find_map eraser_map
  eraser_map-IsMap key [] h = tt
  eraser_map-IsMap key ((k, t) ∷ m) h = elim (Bool-cases (key == k)) [
    | inl e ↦ rw (eraser_map, e) h.1
    | inr e ↦ rw (eraser_map, e) (still key k t m h, eraser_map-IsMap key m h.1)
  ]

  deleted : (key : ℕ) (m : List (ℕ × A)) → (eraser_map key m).1 ≡ find_map key m
  unfolding find_map eraser_map
  deleted key [] = refl
  deleted key ((k, t) ∷ m) = elim (Bool-cases (key == k)) [
    | inl e ↦ rw (eraser_map, find_map, e) refl
    | inr e ↦ rw (eraser_map, find_map, e) (deleted key m)
  ]

  -- The list is a map from the numbers of messages to tasks, and the functions are those of such a map:
  -- each number has at most one entry, and this stays so; insert_map adds an entry only where the
  -- number had none, and leaves the other numbers; eraser_map takes the entry of the number and no
  -- other, and deletes the task that find_map gives.
  pub logins_lem :
      (m : List (ℕ × A)) (j key : ℕ) (t : A)
      → IsMap m
      → (find_map j (insert_map key t m)
          ≡ (if j == key then some (kept (find_map key m) t) else find_map j m))
        × (find_map j (eraser_map key m).0 ≡ (if j == key then none else find_map j m))
        × ((eraser_map key m).1 ≡ find_map key m)
        × IsMap (insert_map key t m)
        × IsMap (eraser_map key m).0
  logins_lem m j key t h = (
    find_map-insert_map j key t m (find_map key m) refl,
    find_map-eraser_map j key m h,
    deleted key m,
    insert_map-IsMap key t m (find_map key m) refl h,
    eraser_map-IsMap key m h,
  )
