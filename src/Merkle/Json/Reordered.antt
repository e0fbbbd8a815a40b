-- ===== src/Merkle/Json/Reordered.antt =====
-- Which values `canonical_json` of merkle/merkle_root.py gives the same bytes.
use complex_git_sync.Prelude.{
  ◌≡◌, refl, sym, ap, ap₂, subst, ◌∙◌, ◌↔◌, inl, inr, true, false, Bool-cases, false_ne_true, Text,
  text_eq, text_eq_refl, text_eq_comm, text_eq→eq, text_lt, text_lt_irrefl, text_lt_trans,
  text_lt-antisym,
}
use complex_git_sync.Merkle.Json.{
  Json, null, boolean, num, str, arr, obj, Items, nil, cons, Members, end, field, insert_member,
  normalise, normalise_items, normalise_members, canonical_json,
}
use complex_git_sync.Merkle.Json.Injective.{canonical_json-inj}

mutual
  -- Two values that differ at most in the order in which the keys of their objects were written:
  -- two members with different keys may change places.
  pub data Reordered : Json → Json → Type 0 where
    same : {v : Json} → Reordered v v
    also : {u v w : Json} → Reordered u v → Reordered v w → Reordered u w
    in_array : {xs ys : Items} → ReorderedItems xs ys → Reordered (arr xs) (arr ys)
    in_object : {ms ns : Members} → ReorderedMembers ms ns → Reordered (obj ms) (obj ns)

  pub data ReorderedItems : Items → Items → Type 0 where
    no_items : ReorderedItems nil nil
    next_item :
        {v w : Json} {xs ys : Items}
        → Reordered v w
        → ReorderedItems xs ys
        → ReorderedItems (cons v xs) (cons w ys)

  pub data ReorderedMembers : Members → Members → Type 0 where
    no_members : ReorderedMembers end end
    next_member :
        {k : Text} {v w : Json} {ms ns : Members}
        → Reordered v w
        → ReorderedMembers ms ns
        → ReorderedMembers (field k v ms) (field k w ns)
    swapped :
        {j k : Text} {v w : Json} {ms : Members}
        → text_eq j k ≡ false
        → ReorderedMembers (field j v (field k w ms)) (field k w (field j v ms))
    followed :
        {ms ns os : Members}
        → ReorderedMembers ms ns
        → ReorderedMembers ns os
        → ReorderedMembers ms os

mutual
  reverse_json : {v w : Json} → Reordered v w → Reordered w v
  reverse_json same = same
  reverse_json (also r s) = also (reverse_json s) (reverse_json r)
  reverse_json (in_array r) = in_array (reverse_items r)
  reverse_json (in_object r) = in_object (reverse_members r)

  reverse_items : {xs ys : Items} → ReorderedItems xs ys → ReorderedItems ys xs
  reverse_items no_items = no_items
  reverse_items (next_item r rs) = next_item (reverse_json r) (reverse_items rs)

  reverse_members : {ms ns : Members} → ReorderedMembers ms ns → ReorderedMembers ns ms
  reverse_members no_members = no_members
  reverse_members (next_member r rs) = next_member (reverse_json r) (reverse_members rs)
  reverse_members (swapped {j} {k} differ) = swapped (text_eq_comm k j ∙ differ)
  reverse_members (followed r s) = followed (reverse_members s) (reverse_members r)

members_same : (ms : Members) → ReorderedMembers ms ms
members_same end = no_members
members_same (field k v ms) = next_member same (members_same ms)

lt_differ : (j k : Text) → text_lt j k ≡ true → text_eq k j ≡ false
lt_differ j k lt = elim (Bool-cases (text_eq k j)) [
  | inl is ↦
      absurd
        (false_ne_true (sym (text_lt_irrefl j) ∙ ap (text_lt j) (sym (text_eq→eq k j is)) ∙ lt))
  | inr differ ↦ differ
]

-- A member that is inserted changes places with those before it.
insert_member-Reordered :
    (k : Text) (v : Json) (ms : Members) → ReorderedMembers (field k v ms) (insert_member k v ms)
unfolding insert_member
insert_member-Reordered k v end = members_same (field k v end)
insert_member-Reordered k v (field j w ms) = elim (Bool-cases (text_lt j k)) [
  | inl before ↦ rw (before) (
      followed (swapped (lt_differ j k before)) (next_member same (insert_member-Reordered k v ms)))
  | inr after ↦ rw (after) (members_same (field k v (field j w ms)))
]

mutual
  unfolding normalise

  normalise-Reordered : (v : Json) → Reordered v (normalise v)
  normalise-Reordered null = same
  normalise-Reordered (boolean b) = same
  normalise-Reordered (num n) = same
  normalise-Reordered (str s) = same
  normalise-Reordered (arr xs) = in_array (normalise_items-Reordered xs)
  normalise-Reordered (obj ms) = in_object (normalise_members-Reordered ms)

  normalise_items-Reordered : (xs : Items) → ReorderedItems xs (normalise_items xs)
  normalise_items-Reordered nil = no_items
  normalise_items-Reordered (cons x xs) =
      next_item (normalise-Reordered x) (normalise_items-Reordered xs)

  normalise_members-Reordered : (ms : Members) → ReorderedMembers ms (normalise_members ms)
  normalise_members-Reordered end = no_members
  normalise_members-Reordered (field k v ms) =
      followed (next_member (normalise-Reordered v) (normalise_members-Reordered ms))
        (insert_member-Reordered k (normalise v) (normalise_members ms))

-- What is not above a text that is below another is below that other too.
lt_between : (i j k : Text) → text_lt i k ≡ true → text_lt i j ≡ false → text_lt j k ≡ true
lt_between i j k below not_below = elim (Bool-cases (text_lt j k)) [
  | inl is ↦ is
  | inr other ↦ elim (Bool-cases (text_lt k j)) [
    | inl above ↦ absurd (false_ne_true (sym not_below ∙ text_lt_trans i k j below above))
    | inr neither ↦
        let eq = text_lt-antisym j k other neither in
        absurd (false_ne_true (sym not_below ∙ ap (text_lt i) eq ∙ below))
  ]
]

lt_asym : (j k : Text) → text_lt j k ≡ true → text_lt k j ≡ false
lt_asym j k lt = elim (Bool-cases (text_lt k j)) [
  | inl back ↦ absurd (false_ne_true (sym (text_lt_irrefl j) ∙ text_lt_trans j k j lt back))
  | inr no_way ↦ no_way
]

lt_other : (j k : Text) → text_eq j k ≡ false → text_lt j k ≡ false → text_lt k j ≡ true
lt_other j k differ no_way = elim (Bool-cases (text_lt k j)) [
  | inl is ↦ is
  | inr neither ↦ absurd (
      false_ne_true
        (sym differ ∙ ap (text_eq j) (sym (text_lt-antisym j k no_way neither)) ∙ text_eq_refl j))
]

-- Two members with different keys are inserted in either order.
two_inserts :
    (j k : Text) (v w : Json) (ms : Members)
    → text_lt j k ≡ true
    → insert_member j v (insert_member k w ms) ≡ insert_member k w (insert_member j v ms)
unfolding insert_member
two_inserts j k v w end lt = rw (lt, lt_asym j k lt) refl
two_inserts j k v w (field i u ms) lt = elim (Bool-cases (text_lt i j)) [
  | inl before_j ↦
      let before_k = text_lt_trans i j k before_j lt in
      let ih = two_inserts j k v w ms lt in
      rw (before_j, before_k) (rw (before_j) (ap (field i u) ih))
  | inr after_j ↦ elim (Bool-cases (text_lt i k)) [
    | inl before_k ↦ rw (before_k, after_j) (rw (lt, before_k) refl)
    | inr after_k ↦
        let not_back = lt_asym j k lt in rw (after_k, after_j) (rw (not_back, lt, after_k) refl)
  ]
]

mutual
  unfolding normalise

  Reordered-normalise : {v w : Json} → Reordered v w → normalise v ≡ normalise w
  Reordered-normalise same = refl
  Reordered-normalise (also r s) = Reordered-normalise r ∙ Reordered-normalise s
  Reordered-normalise (in_array r) = ap arr (items-normalise r)
  Reordered-normalise (in_object r) = ap obj (members-normalise r)

  items-normalise : {xs ys : Items} → ReorderedItems xs ys → normalise_items xs ≡ normalise_items ys
  items-normalise no_items = refl
  items-normalise (next_item r rs) = ap₂ cons (Reordered-normalise r) (items-normalise rs)

  members-normalise :
      {ms ns : Members} → ReorderedMembers ms ns → normalise_members ms ≡ normalise_members ns
  members-normalise no_members = refl
  members-normalise (next_member {k} r rs) =
      ap₂ (insert_member k) (Reordered-normalise r) (members-normalise rs)
  members-normalise (swapped {j} {k} {v} {w} {ms} differ) = elim (Bool-cases (text_lt j k)) [
    | inl lt ↦ two_inserts j k (normalise v) (normalise w) (normalise_members ms) lt
    | inr no_way ↦ sym (
        two_inserts k j (normalise w) (normalise v) (normalise_members ms)
          (lt_other j k differ no_way))
  ]
  members-normalise (followed r s) = members-normalise r ∙ members-normalise s

-- Two values have the same canonical bytes exactly when they differ at most in the order in which the
-- keys of their objects were written.
pub canonical_json-Reordered : (v w : Json) → (canonical_json v ≡ canonical_json w) ↔ Reordered v w
canonical_json-Reordered v w = (
  λ e.
      let equal = (canonical_json-inj v w).0 e in
      let to_w : Reordered (normalise v) w =
        subst (λ x. Reordered x w) (sym equal) (reverse_json (normalise-Reordered w)) in
      also (normalise-Reordered v) to_w,
  λ r. (canonical_json-inj v w).1 (Reordered-normalise r),
)
