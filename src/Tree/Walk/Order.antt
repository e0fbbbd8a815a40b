-- ===== src/Tree/Walk/Order.antt =====
-- `_iter_tree` of tree/git_tree.py: what it yields and in which order.
use complex_git_sync.Tree.Registry.{has_id, DistinctIds}
use complex_git_sync.Tree.Walk.{walk_stack, iter_all}
use complex_git_sync.Prelude.{
  ℕ, zero, suc, ◌+◌, ◌≤◌, ◌≡◌, refl, sym, ap, subst, ◌∙◌, inl, inr, Bool, true, false, ◌&&◌, ◌||◌,
  not, Option, none, some, List, [], ◌∷◌, ◌++◌, arith, if◌then◌else◌, Bool-cases, Option-cases,
  length, Text, text_eq, text_eq_refl, text_eq→eq, text_eq_comm, count_if, filter, count_if-append,
  count_if-filter, count_if-and, count_if-true, count_if-or, count_if-sorted,
  count_if-contradiction, count_if-cong,
}
use complex_git_sync.Repo.{WorkingRepo}
use complex_git_sync.Tree.{children_of, child_lt, parent_is}

-- A root, or an entry whose parent is among the given ones.
unfoldable pub rooted : List WorkingRepo → WorkingRepo → Bool
rooted [] r = parent_is none r
rooted (e ∷ before) r = rooted before r || parent_is (some e.repo_id) r

-- Each entry comes after its parent.
unfoldable pub ParentsFirst : List WorkingRepo → List WorkingRepo → Type 0
ParentsFirst before [] = Unit
ParentsFirst before (r ∷ rest) = (rooted before r ≡ true) × ParentsFirst (r ∷ before) rest

parent_is-none : (r : WorkingRepo) (id : Text) → r.parent_id ≡ none → parent_is (some id) r ≡ false
parent_is-none r id e = ap (λ (o : Option Text). elim o [ none ↦ false | some p ↦ text_eq p id ]) e

parent_is-some :
    (r : WorkingRepo) (q id : Text) → r.parent_id ≡ some q → parent_is (some id) r ≡ text_eq q id
parent_is-some r q id e =
    ap (λ (o : Option Text). elim o [ none ↦ false | some p ↦ text_eq p id ]) e

-- The yielded entries, the last first.
onto : List WorkingRepo → List WorkingRepo → List WorkingRepo
onto [] before = before
onto (e ∷ out) before = onto out (e ∷ before)

rooted-or :
    (before : List WorkingRepo) (r : WorkingRepo)
    → rooted before r ≡ (parent_is none r || rooted before r)
unfolding rooted
rooted-or [] r = ground arith
rooted-or (e ∷ before) r = let ih = rooted-or before r in ground arith

rooted-onto :
    (out before : List WorkingRepo) (r : WorkingRepo)
    → rooted (onto out before) r ≡ (rooted out r || rooted before r)
unfolding onto rooted
rooted-onto [] before r = rooted-or before r
rooted-onto (e ∷ out) before r = let ih = rooted-onto out (e ∷ before) r in ground arith

module _ (repos : List WorkingRepo) where
  -- What is yielded and what waits are the entries whose parent was yielded, each once.
  Balanced : List WorkingRepo → List WorkingRepo → Type 0
  Balanced before stack =
      (p : WorkingRepo → Bool)
      → count_if p before + count_if p stack ≡ count_if (λ r. p r && rooted before r) repos

  count_if-children_of :
      (p : WorkingRepo → Bool) (parent : Option Text)
      → count_if p (children_of repos parent) ≡ count_if (λ r. p r && parent_is parent r) repos
  unfolding children_of
  count_if-children_of p parent =
      count_if-sorted child_lt p (filter (parent_is parent) repos)
      ∙ count_if-filter p (parent_is parent) repos

  Balanced-roots : Balanced [] (children_of repos none)
  unfolding Balanced rooted
  Balanced-roots p = let c = count_if-children_of p none in omega arith

  Absent : List WorkingRepo → Text → Type 0
  Absent before id = count_if (has_id id) before ≡ 0

  Absent-cons :
      (e : WorkingRepo) (before : List WorkingRepo) (id : Text)
      → Absent (e ∷ before) id
      → (text_eq e.repo_id id ≡ false) × Absent before id
  unfolding Absent has_id
  Absent-cons e before id h = elim (Bool-cases (text_eq e.repo_id id)) [
    | inl same ↦ absurd (
        omega (
          arith,
          subst
              (λ b.
                (if b then suc (count_if (has_id id) before) else count_if (has_id id) before) ≡ 0)
              same h,
        ))
    | inr other ↦ (other, ground arith)
  ]

  Absent-apart :
      (before : List WorkingRepo) (id : Text) (r : WorkingRepo)
      → Absent before id
      → (rooted before r && parent_is (some id) r) ≡ false
  unfolding Absent rooted has_id
  Absent-apart [] id r none_there = elim (Option-cases r.parent_id) [
    | inl root ↦ let no = parent_is-none r id root in ground arith
    | inr (q, under) ↦
        let no : parent_is none r ≡ false =
          ap (λ (o : Option Text). elim o [ none ↦ true | some p ↦ false ]) under in
        ground arith
  ]
  Absent-apart (e ∷ before) id r none_there =
      let (other, rest) = Absent-cons e before id none_there in
      let ih = Absent-apart before id r rest in
      elim (Option-cases r.parent_id) [
        | inl root ↦ let no = parent_is-none r id root in ground arith
        | inr (q, under) ↦
            let one = parent_is-some r q id under in
            let two = parent_is-some r q e.repo_id under in
            elim (Bool-cases (text_eq q id)) [
              | inl same ↦
                  let not_e : text_eq q e.repo_id ≡ false =
                    text_eq_comm q e.repo_id
                    ∙ subst (λ i. text_eq e.repo_id i ≡ false) (sym (text_eq→eq q id same)) other in
                  ground arith
              | inr differ ↦ ground arith
            ]
      ]

  Balanced-Absent :
      (before stack : List WorkingRepo) (e : WorkingRepo)
      → DistinctIds repos
      → Balanced before (e ∷ stack)
      → Absent before e.repo_id
  unfolding Absent Balanced DistinctIds
  Balanced-Absent before stack e distinct balanced =
      let b = balanced (has_id e.repo_id) in
      let most = count_if-and (has_id e.repo_id) (rooted before) repos in
      let once = distinct e.repo_id in
      let itself : has_id e.repo_id e ≡ true = unfold has_id in text_eq_refl e.repo_id in
      ground arith

  Balanced-step :
      (before stack : List WorkingRepo) (e : WorkingRepo)
      → DistinctIds repos
      → Balanced before (e ∷ stack)
      → Balanced (e ∷ before) (children_of repos (some e.repo_id) ++ stack)
  unfolding Balanced rooted
  Balanced-step before stack e distinct balanced p =
      let b = balanced p in
      let apart : (r : WorkingRepo) → (rooted before r && parent_is (some e.repo_id) r) ≡ false =
        λ r. Absent-apart before e.repo_id r (Balanced-Absent before stack e distinct balanced) in
      let split = count_if-or p (rooted before) (parent_is (some e.repo_id)) repos apart in
      let a = count_if-append p (children_of repos (some e.repo_id)) stack in
      let c = count_if-children_of p (some e.repo_id) in ground arith

  Balanced-rooted :
      (before stack : List WorkingRepo) (e : WorkingRepo)
      → Balanced before (e ∷ stack)
      → rooted before e ≡ true
  unfolding Balanced
  Balanced-rooted before stack e balanced =
      let b = balanced (λ r. not (rooted before r)) in
      let z = count_if-contradiction (rooted before) repos in ground arith

  Balanced-bounded :
      (before stack : List WorkingRepo) (e : WorkingRepo)
      → Balanced before (e ∷ stack)
      → length repos ≤ 0 + length before
      → ⊥
  unfolding Balanced
  Balanced-bounded before stack e balanced fuelled =
      let b = balanced (λ r. true) in
      let most = count_if-and (λ r. true) (rooted before) repos in
      let all = count_if-true repos in let seen = count_if-true before in omega arith

  -- What a walk_stack gives that starts from the given stack.
  Walked : List WorkingRepo → Option (List WorkingRepo) → Type 0
  Walked before result =
      (out : List WorkingRepo) × (result ≡ some out)
      × ParentsFirst before out
      × Balanced (onto out before) []

  walk_stack-Walked :
      (fuel : ℕ) (before stack : List WorkingRepo)
      → DistinctIds repos
      → Balanced before stack
      → length repos ≤ fuel + length before
      → Walked before (walk_stack fuel repos stack)
  unfolding walk_stack Walked onto ParentsFirst
  walk_stack-Walked zero before [] distinct balanced fuelled = ([], refl, tt, balanced)
  walk_stack-Walked zero before (e ∷ stack) distinct balanced fuelled =
      absurd (Balanced-bounded before stack e balanced fuelled)
  walk_stack-Walked (suc fuel) before [] distinct balanced fuelled = ([], refl, tt, balanced)
  walk_stack-Walked (suc fuel) before (e ∷ stack) distinct balanced fuelled =
      let next = Balanced-step before stack e distinct balanced in
      let (out, is, first, rest) =
        walk_stack-Walked fuel (e ∷ before) _ distinct next (omega arith) in
      (e ∷ out, rw (walk_stack, is) refl, (Balanced-rooted before stack e balanced, first), rest)

count_if-onto :
    (p : WorkingRepo → Bool) (out before : List WorkingRepo)
    → count_if p (onto out before) ≡ count_if p out + count_if p before
unfolding onto
count_if-onto p [] before = omega arith
count_if-onto p (e ∷ out) before = let ih = count_if-onto p out (e ∷ before) in ground arith

onto_balanced :
    (repos out : List WorkingRepo) (p : WorkingRepo → Bool)
    → count_if p (onto out []) + count_if p [] ≡ count_if (λ r. p r && rooted (onto out []) r) repos
    → count_if p out ≡ count_if (λ r. p r && rooted out r) repos
unfolding rooted
onto_balanced repos out p e =
    let same : (r : WorkingRepo) → (p r && rooted (onto out []) r) ≡ (p r && rooted out r) =
      λ r. let a = rooted-onto out [] r in let b = rooted-or out r in ground arith in
    let c = count_if-onto p out [] in
    let d =
      count_if-cong (λ r. p r && rooted (onto out []) r) (λ r. p r && rooted out r) repos same in
    omega arith

-- The walk_stack ends, has each parent before its children, and has each root and each child of what it
-- has, once.
pub iter_all-ParentsFirst :
    (repos : List WorkingRepo)
    → DistinctIds repos
    → (out : List WorkingRepo) × (iter_all repos ≡ some out)
      × ParentsFirst [] out
      × ((p : WorkingRepo → Bool) → count_if p out ≡ count_if (λ r. p r && rooted out r) repos)
unfolding iter_all Walked Balanced
iter_all-ParentsFirst repos distinct =
    let (out, is, first, balanced) =
      walk_stack-Walked repos (length repos) [] _ distinct (Balanced-roots repos) (omega arith) in
    (out, is, first, λ p. onto_balanced repos out p (balanced p))
