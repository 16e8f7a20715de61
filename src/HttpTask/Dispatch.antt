-- ===== src/HttpTask/Dispatch.antt =====
-- Which requests reach which handler.
use Prim.Native.String.{String, compare}
use Prim.Native.Nat.{Ordering}
use text.Mathlib.TextEquality.{path_by_compare}
use text.Mathlib.TextPositions.{compare_refl}
use db_proxy_server.HttpTask.{
  HttpHandler, Json, called, answered_fail, text_eq, protocols, find_protocol, handler_of,
  call_handler, choose, on_protocol, on_head, on_value, run,
}
use db_proxy_server.Prelude.{
  ℕ, ◌≡◌, refl, ap, ◌∙◌, ◌↔◌, ◌⊎◌, inl, inr, subst, Bool, true, false, none, some, List, [], ◌∷◌,
  ◌||◌, ◌&&◌, not, Bool-cases, Option-cases,
}

text_eq→eq : (s t : String) → text_eq s t ≡ true → s ≡ t
text_eq→eq s t e = path_by_compare s t (go (compare s t) refl e)
  where
    go :
        (o : Ordering)
        → compare s t ≡ o
        → elim o [ Ordering.eq ↦ true | _ ↦ false ] ≡ true
        → compare s t ≡ Ordering.eq
    go Ordering.lt p e = cc
    go Ordering.eq p e = p
    go Ordering.gt p e = cc

text_eq_self : (s : String) → text_eq s s ≡ true
text_eq_self s = rw (text_eq, compare_refl s)

abbrev is_new : String → List (String × HttpHandler) → Bool
is_new k [] = true
is_new k ((j, h) ∷ rest) = not (text_eq j k) && is_new k rest

abbrev are_distinct : List (String × HttpHandler) → Bool
are_distinct [] = true
are_distinct ((k, h) ∷ rest) = is_new k rest && are_distinct rest

protocols_distinct : are_distinct protocols ≡ true
protocols_distinct = refl

-- `(s, h)` is a test of the chain and its handler.
abbrev pub Serves : String → HttpHandler → List (String × HttpHandler) → Type 0
Serves s h [] = ⊥
Serves s h ((t, g) ∷ rest) = ((t ≡ s) × (g ≡ h)) ⊎ Serves s h rest

split_and : (a b : Bool) → (a && b) ≡ true → (a ≡ true) × (b ≡ true)
split_and true b e = (refl, e)
split_and false b e = cc

not_served :
    (s : String) (h : HttpHandler) (rest : List (String × HttpHandler))
    → is_new s rest ≡ true
    → Serves s h rest
    → ⊥
not_served s h [] e r = r
not_served s h ((t, g) ∷ rest) e (inl (same, _)) =
    let (first, _) = split_and (not (text_eq t s)) (is_new s rest) e in
    let found : text_eq t s ≡ true = subst (λ x. text_eq t x ≡ true) same (text_eq_self t) in
    let wrong : not true ≡ true = rw found at first in cc
not_served s h ((t, g) ∷ rest) e (inr r) =
    let (_, later) = split_and (not (text_eq t s)) (is_new s rest) e in not_served s h rest later r

find_protocol-Serves :
    (s : String) (h : HttpHandler) (l : List (String × HttpHandler))
    → find_protocol s l ≡ some h
    → Serves s h l
unfolding find_protocol
find_protocol-Serves s h [] e = cc
find_protocol-Serves s h ((t, g) ∷ rest) e = elim (Bool-cases (text_eq t s)) [
  | inl q ↦ let same : some g ≡ some h = rw (q, find_protocol) at e in inl (text_eq→eq t s q, cc)
  | inr q ↦ inr (find_protocol-Serves s h rest (rw (q, find_protocol) at e))
]

Serves-find_protocol :
    (s : String) (h : HttpHandler) (l : List (String × HttpHandler))
    → are_distinct l ≡ true
    → Serves s h l
    → find_protocol s l ≡ some h
unfolding find_protocol
Serves-find_protocol s h [] d r = absurd r
Serves-find_protocol s h ((t, g) ∷ rest) d (inl (same, e)) =
    rw (subst (λ x. text_eq t x ≡ true) same (text_eq_self t), find_protocol) (ap some e)
Serves-find_protocol s h ((t, g) ∷ rest) d (inr later) =
    let (fresh, d') = split_and (is_new t rest) (are_distinct rest) d in
    elim (Bool-cases (text_eq t s)) [
      | inl q ↦
          absurd
            (not_served s h rest (subst (λ x. is_new x rest ≡ true) (text_eq→eq t s q) fresh) later)
      | inr q ↦ rw (q, find_protocol) (Serves-find_protocol s h rest d' later)
    ]

handler_of-Serves : (s : String) (h : HttpHandler) → (handler_of s ≡ some h) ↔ Serves s h protocols
unfolding handler_of
handler_of-Serves s h =
    (find_protocol-Serves s h protocols, Serves-find_protocol s h protocols protocols_distinct)

module _ (json : Json) where
  open json use {Value, parse, member, is_null, as_string}

  module _ (m_msg : List ℕ) (value protocol msgid body : Value) (s id : String)
      (parses : parse m_msg ≡ some value)
      (has_protocol : member value "protocol_type" ≡ some protocol)
      (has_msgid : member value "msgid" ≡ some msgid) (has_body : member value "body" ≡ some body)
      (not_null : (is_null protocol || is_null msgid) ≡ false)
      (protocol_text : as_string protocol ≡ some s) (msgid_text : as_string msgid ≡ some id) where
    run-choose : run json true m_msg ≡ choose json (handler_of s) msgid value
    unfolding run on_value on_head on_protocol
    run-choose = rw (
      parses, run, has_protocol, has_msgid, on_value, not_null, on_head, protocol_text, on_protocol,
    )

    run_named : (g : HttpHandler) → handler_of s ≡ some g → run json true m_msg ≡ called g id body
    unfolding choose call_handler
    run_named g e = run-choose ∙ rw (e, choose, msgid_text, has_body)

    run_unnamed : handler_of s ≡ none → run json true m_msg ≡ answered_fail
    unfolding choose
    run_unnamed e = run-choose ∙ rw (e, choose)

    -- A request whose text parses to a value with a protocol type and a message id that are not
    -- null and convert to texts, and with a body: a handler is called, with the message id and the
    -- body, exactly if the chain of tests names it for this protocol type (no earlier test catches
    -- the request), and the answer is "fail" exactly if the chain names none.
    pub run_dispatch :
        (h : HttpHandler)
        → ((run json true m_msg ≡ called h id body) ↔ Serves s h protocols)
          × ((run json true m_msg ≡ answered_fail) ↔ ¬ ((g : HttpHandler) × Serves s g protocols))
    run_dispatch h = elim (Option-cases (handler_of s)) [
      | inl e ↦
          let r = run_unnamed e in
          let unserved : ¬ ((g : HttpHandler) × Serves s g protocols) =
            λ (g, v). let q : handler_of s ≡ some g = (handler_of-Serves s g).1 v in cc in
          ((λ q. cc, λ v. absurd (unserved (h, v))), (λ q. unserved, λ q. r))
      | inr (g, e) ↦
          let r = run_named g e in
          let served : Serves s g protocols = (handler_of-Serves s g).0 e in
          (
            (
              λ q. let same : g ≡ h = cc in subst (λ x. Serves s x protocols) same served,
              λ v. run_named h ((handler_of-Serves s h).1 v),
            ),
            (λ q. cc, λ q. absurd (q (g, served))),
          )
    ]
