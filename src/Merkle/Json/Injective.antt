-- ===== src/Merkle/Json/Injective.antt =====
-- Canonical bytes determine the value, up to the order in which an object's keys were written.
use complex_git_sync.Prelude.{
  ℕ, suc, ◌<◌, ◌≡◌, refl, sym, ap, ap₂, ◌∙◌, ◌≢◌, ◌↔◌, true, false, [], ◌∷◌, arith, ◌==◌,
  if◌then◌else◌, drop, cons_head, cons_tail, Text,
}
use complex_git_sync.Merkle.Json.{
  Json, null, boolean, num, str, arr, obj, Items, nil, cons, Members, end, field, print,
  print_items, print_members, normalise, utf8, canonical_json,
}
use complex_git_sync.Merkle.Json.Encoding.{
  utf8-inj, escape-inj, Stops, digits-inj, StartsWithDigit, is_digit, digits-StartsWithDigit,
}

print_items-Stops : (xs : Items) (r : Text) → Stops (print_items xs r)
unfolding print_items
print_items-Stops nil r = refl
print_items-Stops (cons x xs) r = refl

print_members-Stops : (ms : Members) (r : Text) → Stops (print_members ms r)
unfolding print_members
print_members-Stops end r = refl
print_members-Stops (field k v ms) r = refl

-- Which value a text begins with, by its first character.
abbrev kind_of_head : Text → ℕ
kind_of_head [] = 9
kind_of_head (c ∷ r) =
    if c == 110
    then 0
    else if c == 116
    then 1
    else if c == 102
    then 2
    else if is_digit c
    then 3
    else if c == 34
    then 4
    else if c == 91
    then 5
    else if c == 123
    then 6
    else 9

abbrev kind : Json → ℕ
kind null = 0
kind (boolean true) = 1
kind (boolean false) = 2
kind (num n) = 3
kind (str s) = 4
kind (arr xs) = 5
kind (obj ms) = 6

kind_of_digit : (t : Text) → StartsWithDigit t → kind_of_head t ≡ 3
kind_of_digit [] h = absurd h
kind_of_digit (c ∷ r) h = ground arith

kind-print : (v : Json) (r : Text) → kind_of_head (print v r) ≡ kind v
unfolding print
kind-print null r = refl
kind-print (boolean true) r = refl
kind-print (boolean false) r = refl
kind-print (num n) r = kind_of_digit _ (digits-StartsWithDigit (suc n) n r (omega arith))
kind-print (str s) r = refl
kind-print (arr nil) r = refl
kind-print (arr (cons x xs)) r = refl
kind-print (obj end) r = refl
kind-print (obj (field k v ms)) r = refl

same_kind : (v w : Json) (r s : Text) → print v r ≡ print w s → kind v ≡ kind w
same_kind v w r s e = sym (kind-print v r) ∙ ap kind_of_head e ∙ kind-print w s

kind-lt : (v : Json) → kind v < 9
kind-lt null = omega arith
kind-lt (boolean true) = omega arith
kind-lt (boolean false) = omega arith
kind-lt _ = omega arith

-- A value's text does not begin with a closing bracket, or with a closing brace.
print-ne-close : (v : Json) (r s : Text) (c : ℕ) → kind_of_head (c ∷ s) ≡ 9 → print v r ≢ c ∷ s
print-ne-close v r s c h e =
    absurd (omega (arith, kind-lt v, sym (kind-print v r) ∙ ap kind_of_head e ∙ h))

clash : {c d : ℕ} {r s : Text} → ◌≡◌ {A = Text} (c ∷ r) (d ∷ s) → c ≢ d → ⊥
clash e h = h (cons_head e)

mutual
  unfolding print

  print-inj :
      (v w : Json) (r s : Text) → Stops r → Stops s → print v r ≡ print w s → (v ≡ w) × (r ≡ s)
  print-inj null null r s h k e = (refl, ap (drop 4) e)
  print-inj (boolean true) (boolean true) r s h k e = (refl, ap (drop 4) e)
  print-inj (boolean false) (boolean false) r s h k e = (refl, ap (drop 5) e)
  print-inj (num n) (num m) r s h k e =
      let p : (n ≡ m) × (r ≡ s) = digits-inj n m r s h k e in (ap num p.0, p.1)
  print-inj (str a) (str b) r s h k e =
      let p : (a ≡ b) × (r ≡ s) = escape-inj a b r s (cons_tail e) in (ap str p.0, p.1)
  print-inj (arr nil) (arr nil) r s h k e = (refl, ap (drop 2) e)
  print-inj (arr nil) (arr (cons y ys)) r s h k e =
      absurd (print-ne-close y _ r 93 refl (sym (cons_tail e)))
  print-inj (arr (cons x xs)) (arr nil) r s h k e =
      absurd (print-ne-close x _ s 93 refl (cons_tail e))
  print-inj (arr (cons x xs)) (arr (cons y ys)) r s h k e =
      let p : (x ≡ y) × (print_items xs r ≡ print_items ys s) =
        print-inj x y _ _ (print_items-Stops xs r) (print_items-Stops ys s) (cons_tail e) in
      let q : (xs ≡ ys) × (r ≡ s) = print_items-inj xs ys r s h k p.1 in
      (ap₂ (λ z zs. arr (cons z zs)) p.0 q.0, q.1)
  print-inj (obj end) (obj end) r s h k e = (refl, ap (drop 2) e)
  print-inj (obj end) (obj (field j w ns)) r s h k e = absurd (clash (cons_tail e) (omega arith))
  print-inj (obj (field i v ms)) (obj end) r s h k e = absurd (clash (cons_tail e) (omega arith))
  print-inj (obj (field i v ms)) (obj (field j w ns)) r s h k e =
      let c : (i ≡ j) × (58 ∷ print v (print_members ms r) ≡ 58 ∷ print w (print_members ns s)) =
        escape-inj i j _ _ (cons_tail (cons_tail e)) in
      let p : (v ≡ w) × (print_members ms r ≡ print_members ns s) =
        print-inj v w _ _ (print_members-Stops ms r) (print_members-Stops ns s) (cons_tail c.1) in
      let q : (ms ≡ ns) × (r ≡ s) = print_members-inj ms ns r s h k p.1 in
      (λ n. obj (field (c.0 n) (p.0 n) (q.0 n)), q.1)
  print-inj v w r s h k e = absurd (ground (arith, same_kind v w r s e))

  print_items-inj :
      (xs ys : Items) (r s : Text)
      → Stops r
      → Stops s
      → print_items xs r ≡ print_items ys s
      → (xs ≡ ys) × (r ≡ s)
  print_items-inj nil nil r s h k e = (refl, cons_tail e)
  print_items-inj nil (cons y ys) r s h k e = absurd (clash e (omega arith))
  print_items-inj (cons x xs) nil r s h k e = absurd (clash e (omega arith))
  print_items-inj (cons x xs) (cons y ys) r s h k e =
      let p : (x ≡ y) × (print_items xs r ≡ print_items ys s) =
        print-inj x y _ _ (print_items-Stops xs r) (print_items-Stops ys s) (cons_tail e) in
      let q : (xs ≡ ys) × (r ≡ s) = print_items-inj xs ys r s h k p.1 in
      (ap₂ (λ z zs. cons z zs) p.0 q.0, q.1)

  print_members-inj :
      (ms ns : Members) (r s : Text)
      → Stops r
      → Stops s
      → print_members ms r ≡ print_members ns s
      → (ms ≡ ns) × (r ≡ s)
  print_members-inj end end r s h k e = (refl, cons_tail e)
  print_members-inj end (field j w ns) r s h k e = absurd (clash e (omega arith))
  print_members-inj (field i v ms) end r s h k e = absurd (clash e (omega arith))
  print_members-inj (field i v ms) (field j w ns) r s h k e =
      let c : (i ≡ j) × (58 ∷ print v (print_members ms r) ≡ 58 ∷ print w (print_members ns s)) =
        escape-inj i j _ _ (cons_tail (cons_tail e)) in
      let p : (v ≡ w) × (print_members ms r ≡ print_members ns s) =
        print-inj v w _ _ (print_members-Stops ms r) (print_members-Stops ns s) (cons_tail c.1) in
      let q : (ms ≡ ns) × (r ≡ s) = print_members-inj ms ns r s h k p.1 in
      (λ n. field (c.0 n) (p.0 n) (q.0 n), q.1)

-- Two values have the same canonical bytes exactly when they differ at most in the order in which
-- the keys of their objects were written.
pub canonical_json-inj :
    (v w : Json) → (canonical_json v ≡ canonical_json w) ↔ (normalise v ≡ normalise w)
unfolding canonical_json
canonical_json-inj v w = (
  λ e. (print-inj (normalise v) (normalise w) [] [] tt tt (utf8-inj _ _ e)).0,
  λ e. ap (λ x. utf8 (print x [])) e,
)
