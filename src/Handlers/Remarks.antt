-- ===== src/Handlers/Remarks.antt =====
-- The remarks in the listings that src/handler_cache.cpp puts into redis.
use Prim.Native.String.{String}
use db_proxy_server.Prelude.{
  ℕ, zero, suc, ◌<◌, ◌≡◌, refl, ap, ◌∙◌, inl, inr, Bool, true, Bool-cases, Option, none, some, List,
  [], ◌∷◌, map, length, length-set, get_or, set, arith,
}
use db_proxy_server.HttpTask.{text_eq}
use db_proxy_server.Handlers.Program.{
  Text, Cell, text, Built, end, add_each, Row, fill, rounds, declared, at, Formats, done, is_num,
}
use db_proxy_server.Handlers.CacheTables.{
  key2, clear_remark, group_columns, member_columns, friend_columns, group_item, member_item,
  friend_item,
}
use db_proxy_server.Handlers.Cache.{
  redis_user_friend_list, redis_user_group_list, redis_group_member_list,
}
use db_proxy_server.Handlers.Run.{Event, World, run}
use db_proxy_server.Handlers.Results.{Leaves, Leaves-run}
use db_proxy_server.Handlers.Cached.{sets, rows_read}
use db_proxy_server.Handlers.Fields.{field_of, inner, or_empty}

at_null :
    (vars : List Cell) (row : Row) (i : ℕ)
    → get_or row i none ≡ none
    → at (fill vars row) i ≡ at vars i
at_null [] row i h = refl
at_null (v ∷ vs) [] i h = refl
at_null (v ∷ vs) (none ∷ row) zero h = refl
at_null (v ∷ vs) (some w ∷ row) zero h = absurd cc
at_null (v ∷ vs) (none ∷ row) (suc i) h = at_null vs row i h
at_null (v ∷ vs) (some w ∷ row) (suc i) h = at_null vs row i h

at_value :
    (vars : List Cell) (row : Row) (i : ℕ) (w : Cell)
    → i < length vars
    → get_or row i none ≡ some w
    → at (fill vars row) i ≡ w
at_value [] row i w l h = absurd (omega arith)
at_value (v ∷ vs) [] i w l h = absurd cc
at_value (v ∷ vs) (none ∷ row) zero w l h = absurd cc
at_value (v ∷ vs) (some u ∷ row) zero w l h = cc
at_value (v ∷ vs) (none ∷ row) (suc i) w l h = at_value vs row i w (omega arith) h
at_value (v ∷ vs) (some u ∷ row) (suc i) w l h = at_value vs row i w (omega arith) h

length-fill : (vars : List Cell) (row : Row) → length (fill vars row) ≡ length vars
length-fill [] row = refl
length-fill (v ∷ vs) [] = refl
length-fill (v ∷ vs) (none ∷ row) = ap suc (length-fill vs row)
length-fill (v ∷ vs) (some w ∷ row) = ap suc (length-fill vs row)

at-set : (v : List Cell) (i : ℕ) (c : Cell) → i < length v → at (set v i c) i ≡ c
at-set [] i c h = absurd (omega arith)
at-set (x ∷ xs) zero c h = refl
at-set (x ∷ xs) (suc i) c h = at-set xs i c (omega arith)

-- The values of a column, each of its own row, and the values where NULL leaves that of the row before.
abbrev pub own : ℕ → List Row → List Cell
own i [] = []
own i (row ∷ rows) = or_empty (get_or row i none) ∷ own i rows

abbrev pub or_held : Cell → Option Cell → Cell
or_held held none = held
or_held held (some c) = c

abbrev pub carried : ℕ → Cell → List Row → List Cell
carried i held [] = []
carried i held (row ∷ rows) =
    or_held held (get_or row i none) ∷ carried i (or_held held (get_or row i none)) rows

at-fill :
    (vars : List Cell) (row : Row) (i : ℕ) (o : Option Cell)
    → get_or row i none ≡ o
    → i < length vars
    → at (fill vars row) i ≡ or_held (at vars i) o
at-fill vars row i none e l = at_null vars row i e
at-fill vars row i (some w) e l = at_value vars row i w l e

or_held_empty : (o : Option Cell) → or_held (text []) o ≡ or_empty o
or_held_empty none = refl
or_held_empty (some c) = refl

own-rounds :
    (i : ℕ) (vars : List Cell) (rows : List Row)
    → i < length vars
    → at vars i ≡ text []
    → map (λ v. at v i) (rounds (clear_remark i) vars rows) ≡ own i rows
own-rounds i vars [] l h = refl
own-rounds i vars (row ∷ rows) l h =
    let held = fill vars row in
    let first : at held i ≡ or_empty (get_or row i none) =
      at-fill vars row i (get_or row i none) refl l
      ∙ ap (λ c. or_held c (get_or row i none)) h
      ∙ or_held_empty (get_or row i none) in
    let rest =
      own-rounds i (set held i (text [])) rows
        (omega (arith, length-fill vars row, length-set held i (text [])))
        (at-set held i (text []) (omega (arith, length-fill vars row))) in
    rw (first, rest) refl

carried-rounds :
    (i : ℕ) (vars : List Cell) (rows : List Row)
    → i < length vars
    → map (λ v. at v i) (rounds (λ v. v) vars rows) ≡ carried i (at vars i) rows
carried-rounds i vars [] l = refl
carried-rounds i vars (row ∷ rows) l =
    let first = at-fill vars row i (get_or row i none) refl l in
    let rest = carried-rounds i (fill vars row) rows (omega (arith, length-fill vars row)) in
    rw (rest, first) refl

-- The field of the items of a list.
inner-add_each :
    (list f : String) (item : List Cell → Built) (i : ℕ) (vs : List (List Cell))
    → text_eq list list ≡ true
    → ((v : List Cell) → field_of f (item v) ≡ some (at v i))
    → map (field_of f) (inner list (add_each list item vs end)) ≡ map some (map (λ v. at v i) vs)
inner-add_each list f item i [] e h = refl
inner-add_each list f item i (v ∷ vs) e h = rw (e, h v, inner-add_each list f item i vs e h) refl

remark-group_item : (v : List Cell) → field_of "remark" (group_item v) ≡ some (at v 6)
remark-group_item v = elim (Bool-cases (is_num 1 (at v 3))) [
  | inl e ↦ rw e refl
  | inr e ↦ elim (Bool-cases (is_num 2 (at v 3))) [
    | inl e' ↦ rw (e, e') refl
    | inr e' ↦ elim (Bool-cases (is_num 3 (at v 3))) [
      | inl e'' ↦ rw (e, e', e'') refl
      | inr e'' ↦ rw (e, e', e'') refl
    ]
  ]
]

group_remarks :
    (rows : List Row)
    → map (field_of "remark") (
        inner "group_list" (
          add_each "group_list" group_item
            (rounds (clear_remark 6) (declared group_columns) rows)
            end))
      ≡ map some (own 6 rows)
group_remarks rows =
    inner-add_each "group_list" "remark" group_item 6
      (rounds (clear_remark 6) (declared group_columns) rows) refl remark-group_item
    ∙ ap (map some) (own-rounds 6 (declared group_columns) rows (omega arith) refl)

member_remarks :
    (rows : List Row)
    → map (field_of "member_remark") (
        inner "member_list" (
          add_each "member_list" member_item
            (rounds (clear_remark 3) (declared member_columns) rows)
            end))
      ≡ map some (own 3 rows)
member_remarks rows =
    inner-add_each "member_list" "member_remark" member_item 3
      (rounds (clear_remark 3) (declared member_columns) rows) refl (λ v. refl)
    ∙ ap (map some) (own-rounds 3 (declared member_columns) rows (omega arith) refl)

friend_remarks :
    (rows : List Row)
    → map (field_of "remark") (
        inner "friend_list"
          (add_each "friend_list" friend_item (rounds (λ v. v) (declared friend_columns) rows) end))
      ≡ map some (carried 5 (text []) rows)
friend_remarks rows =
    inner-add_each "friend_list" "remark" friend_item 5
      (rounds (λ v. v) (declared friend_columns) rows) refl (λ v. refl)
    ∙ ap (map some) (carried-rounds 5 (declared friend_columns) rows (omega arith))

module _ (formats : Formats) where
  open formats use {serialize}

  -- Redis is given nothing, or under the key the bytes of one message, whose items under `list` have in
  -- the field `f` what the rows that were read give.
  pub data IsShown (key : Text) (list f : String) (given : List Row → List Cell)
      : List Event → Type 0 where
    shown :
        {log : List Event} (built : Built)
        → sets log ≡ (key, serialize built) ∷ []
        → map (field_of f) (inner list built) ≡ map some (given (rows_read log))
        → IsShown key list f given log
    unset : {log : List Event} → sets log ≡ [] → IsShown key list f given log

  module _ (redis : Bool) (c n : ℕ) where
    groups-IsShown :
        Leaves
          (λ r log. IsShown (key2 "ugl_" c n) "group_list" "remark" (own 6) log)
          (redis_user_group_list formats redis c n done)
    unfolding redis_user_group_list sets rows_read
    groups-IsShown = (
      (
        (λ rows. ((λ e. shown _ refl (group_remarks rows)), (λ e. unset refl)), unset refl),
        unset refl,
      ),
      unset refl,
    )

    members-IsShown :
        Leaves
          (λ r log. IsShown (key2 "gml_" c n) "member_list" "member_remark" (own 3) log)
          (redis_group_member_list formats redis c n done)
    unfolding redis_group_member_list sets rows_read
    members-IsShown = (
      (
        (λ rows. ((λ e. shown _ refl (member_remarks rows)), (λ e. unset refl)), unset refl),
        unset refl,
      ),
      unset refl,
    )

    friends-IsShown :
        Leaves
          (λ r log. IsShown (key2 "uf_" c n) "friend_list" "remark" (carried 5 (text [])) log)
          (redis_user_friend_list formats redis c n done)
    unfolding redis_user_friend_list sets rows_read
    friends-IsShown = (
      (
        (λ rows. ((λ e. shown _ refl (friend_remarks rows)), (λ e. unset refl)), unset refl),
        unset refl,
      ),
      unset refl,
    )

  -- In every run of redis_user_group_list and of redis_group_member_list, where redis is given a value, it
  -- is a message with one item for each row that was read, in order, and the remark of an item is that
  -- of its own row, empty where the row has NULL.
  pub remarks-IsShown :
      (redis : Bool) (c n : ℕ) (world : World) (s : world.State)
      → IsShown
          (key2 "ugl_" c n)
          "group_list"
          "remark"
          (own 6)
          (run world (redis_user_group_list formats redis c n done) s).1
        × IsShown
            (key2 "gml_" c n)
            "member_list"
            "member_remark"
            (own 3)
            (run world (redis_group_member_list formats redis c n done) s).1
  remarks-IsShown redis c n world s = (
    Leaves-run world (λ r log. IsShown (key2 "ugl_" c n) "group_list" "remark" (own 6) log)
        (redis_user_group_list formats redis c n done) s (groups-IsShown redis c n),
    Leaves-run world (λ r log. IsShown (key2 "gml_" c n) "member_list" "member_remark" (own 3) log)
        (redis_group_member_list formats redis c n done) s (members-IsShown redis c n),
  )

  -- In every run of redis_user_friend_list, where redis is given a value, it is a message with one item
  -- for each row that was read, in order, and the remark of an item is that of its own row, but where
  -- the row has NULL it is the remark of the item before, and empty in the first item.
  pub friend_remark_stays :
      (redis : Bool) (c n : ℕ) (world : World) (s : world.State)
      → IsShown
          (key2 "uf_" c n)
          "friend_list"
          "remark"
          (carried 5 (text []))
          (run world (redis_user_friend_list formats redis c n done) s).1
  friend_remark_stays redis c n world s =
      Leaves-run world
        (λ r log. IsShown (key2 "uf_" c n) "friend_list" "remark" (carried 5 (text [])) log)
        (redis_user_friend_list formats redis c n done) s (friends-IsShown redis c n)
