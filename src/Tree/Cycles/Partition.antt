-- ===== src/Tree/Cycles/Partition.antt =====
-- `find_strongly_connected_components` of tree/git_tree.py ends, and puts each node in one list.
use complex_git_sync.Prelude.{
  subst, sym, ℕ, ◌≤◌, ◌≡◌, refl, ap, ◌∙◌, inl, inr, Bool, true, not, Option, none, some, List, [],
  ◌∷◌, if◌then◌else◌, Bool-cases, Option-cases, length, All, All-weaken, All-sorted, All-unsorted,
  any-append_left, any-append_right, count_if, sorted, arith,
}
use complex_git_sync.Repo.{FilePath}
use complex_git_sync.Tree.Branches.{path_eq}
use complex_git_sync.Tree.Cycles.{
  path_get, has_path, is_some, PathGraph, successors, Search, path_lt, connect_all, keys, all_nodes,
  unvisited, find_strongly_connected_components,
}
use complex_git_sync.Tree.Cycles.Paths.{path_eq_refl}
use complex_git_sync.Tree.Cycles.Run.{
  times, all_of, once, visited, Sound, Grown, Grown-refl, Grown-trans,
}
use complex_git_sync.Tree.Cycles.Connect.{unnumbered, unnumbered-Grown, strong_connect_ends}

-- Between two calls of the loop over the nodes: nothing waits on the stack.
AtRest : Search → Type 0
AtRest s = Sound s.counter s × (s.stack ≡ [])

rest_again : (base : ℕ) (s : Search) → Sound base s → s.stack ≡ [] → AtRest s
unfolding AtRest
rest_again base s h empty = (
  record {
    both = h.both;
    counted = h.counted;
    flags = h.flags;
    below_counter = h.below_counter;
    low = λ x i l is ls.
        let (le, up) = h.low x i l is ls in
        let below = h.below_counter x i is in (le, λ k. omega arith);
    floor = λ x i on is. let none_there = ap (times x) empty in absurd (omega arith);
    started = omega arith;
  },
  empty,
)

module _ (graph : PathGraph) (nodes : List FilePath)
    (closed : (n : FilePath) → All (λ x. has_path x nodes ≡ true) (successors graph n)) where
  connect_all_ends :
      (fuel : ℕ) (rest : List FilePath) (s : Search)
      → All (λ x. has_path x nodes ≡ true) rest
      → AtRest s
      → unnumbered nodes s ≤ fuel
      → (t : Search) × (connect_all fuel graph rest s ≡ some t)
        × AtRest t
        × Grown s t
        × All (λ x. visited t x ≡ true) rest
  unfolding connect_all AtRest
  connect_all_ends fuel [] s all h enough = (s, refl, h, Grown-refl s, tt)
  connect_all_ends fuel (x ∷ rest) s all (h, empty) enough =
      elim (Option-cases (path_get s.index x)) [
        | inl fresh ↦
            let (t, is, ht, gt, num, cleared) =
              strong_connect_ends graph nodes closed s.counter fuel x s h fresh all.0 enough in
            let fewer = unnumbered-Grown nodes s t gt in
            let again = rest_again s.counter t ht (cleared refl ∙ empty) in
            let (u, isu, hu, gu, seen) = connect_all_ends fuel rest t all.1 again (omega arith) in
            (
              u,
              rw (connect_all, fresh, is) isu,
              hu,
              Grown-trans s t u gt gu,
              (ap is_some (gu.keeps x s.counter num), seen),
            )
        | inr (i, is) ↦
            let (u, isu, hu, gu, seen) = connect_all_ends fuel rest s all.1 (h, empty) enough in
            (u, rw (connect_all, is) isu, hu, gu, (ap is_some (gu.keeps x i is), seen))
      ]

has_path-skip :
    (x y : FilePath) (l : List FilePath) → has_path x l ≡ true → has_path x (y ∷ l) ≡ true
unfolding has_path
has_path-skip x y l h = ground arith

All-has_path : (l : List FilePath) → All (λ x. has_path x l ≡ true) l
unfolding has_path
All-has_path [] = tt
All-has_path (y ∷ l) =
    let itself = path_eq_refl y in
    (ground arith, All-weaken _ _ l (λ x h. has_path-skip x y l h) (All-has_path l))

keys-all_nodes : (graph : PathGraph) → All (λ x. has_path x (all_nodes graph) ≡ true) (keys graph)
unfolding has_path
keys-all_nodes [] = tt
keys-all_nodes ((n, targets) ∷ graph) =
    let itself = path_eq_refl n in
    (
      ground arith,
      All-weaken _ _ (keys graph)
          (λ x h.
            has_path-skip x n _ (any-append_right (λ p. path_eq p x) targets (all_nodes graph) h))
          (keys-all_nodes graph),
    )

targets_if :
    (targets : List FilePath) (o : Option (List FilePath)) {b c : Bool}
    → b ≡ c
    → (elim (if b then some targets else o) [ none ↦ [] | some l ↦ l ])
      ≡ elim (if c then some targets else o) [ none ↦ [] | some l ↦ l ]
targets_if targets o e =
    ap
      (λ (b : Bool).
        let p : Option (List FilePath) = if b then some targets else o in
        let l : List FilePath = elim p [ none ↦ [] | some l ↦ l ] in l)
      e

successors-all_nodes :
    (graph : PathGraph) (n : FilePath)
    → All (λ x. has_path x (all_nodes graph) ≡ true) (successors graph n)
unfolding successors path_get has_path
successors-all_nodes [] n = tt
successors-all_nodes ((k, targets) ∷ graph) n = elim (Bool-cases (path_eq k n)) [
  | inl same ↦
      subst (All (λ x. has_path x (all_nodes ((k, targets) ∷ graph)) ≡ true))
        (sym (targets_if targets (path_get graph n) same))
        (All-weaken _ _ targets
          (λ x h.
            has_path-skip x k _ (any-append_left (λ p. path_eq p x) targets (all_nodes graph) h))
          (All-has_path targets))
  | inr other ↦
      subst (All (λ x. has_path x (all_nodes ((k, targets) ∷ graph)) ≡ true))
        (sym (targets_if targets (path_get graph n) other))
        (All-weaken _ _ (successors graph n)
          (λ x h.
            has_path-skip x k _ (any-append_right (λ p. path_eq p x) targets (all_nodes graph) h))
          (successors-all_nodes graph n))
]

unvisited-AtRest : AtRest unvisited
unfolding AtRest path_get
unvisited-AtRest = (
  record {
    both = λ x. refl;
    counted = λ x. refl;
    flags = λ x. refl;
    below_counter = λ x i e. cc;
    low = λ x i l e f. cc;
    floor = λ x i on e. cc;
    started = omega arith;
  },
  refl,
)

count_if-le-length : (p : FilePath → Bool) (xs : List FilePath) → count_if p xs ≤ length xs
count_if-le-length p [] = omega arith
count_if-le-length p (x ∷ xs) = let ih = count_if-le-length p xs in ground arith

-- The search of a graph ends, with no missing key and no pop of an empty stack; each node of the
-- graph stands in its components once, and no path stands there more often.
pub find_strongly_connected_components-once :
    (graph : PathGraph)
    → (sccs : List (List FilePath)) × (find_strongly_connected_components graph ≡ some sccs)
      × All (λ x. times x (all_of sccs) ≡ 1) (keys graph)
      × ((x : FilePath) → times x (all_of sccs) ≤ 1)
unfolding find_strongly_connected_components AtRest
find_strongly_connected_components-once graph =
    let order = sorted path_lt (keys graph) in
    let (s, is, (h, empty), g, seen) =
      connect_all_ends graph (all_nodes graph) (successors-all_nodes graph)
        (length (all_nodes graph)) order unvisited (All-sorted path_lt _ _ (keys-all_nodes graph))
        unvisited-AtRest (count_if-le-length (λ x. not (visited unvisited x)) (all_nodes graph)) in
    let exact : (x : FilePath) → times x (all_of s.sccs) ≡ once (visited s x) =
      λ x. let c = h.counted x in let e = ap (times x) empty in omega arith in
    (
      s.sccs,
      rw (find_strongly_connected_components, is) refl,
      All-weaken _ _ (keys graph) (λ x v. exact x ∙ ap once v)
          (All-unsorted path_lt (λ x. visited s x ≡ true) (keys graph) seen),
      λ x. let e = exact x in ground arith,
    )
