-- ===== src/Tree/Cycles/Connect.antt =====
-- `_strong_connect` in tree/git_tree.py ends, with as many nested calls as there are new nodes.
use complex_git_sync.Prelude.{
  ℕ, zero, suc, ◌≤◌, ◌<◌, ◌≡◌, refl, sym, ap, ◌∙◌, inl, inr, true, false, not, Option, none, some,
  List, [], ◌∷◌, ◌++◌, Bool-cases, Option-cases, false_ne_true, none_ne_some, All, All-sorted,
  count_if, sorted, arith,
}
use mathlib.Core.List.{append_assoc}
use complex_git_sync.Repo.{FilePath}
use complex_git_sync.Tree.Branches.{path_eq}
use complex_git_sync.Tree.Cycles.{
  path_get, has_path, is_some, PathGraph, successors, Search, is_on_stack, enter, close, descend,
  path_lt, strong_connect,
}
use complex_git_sync.Tree.Cycles.Paths.{path_eq_refl, path_eq→eq}
use complex_git_sync.Tree.Cycles.Run.{
  times, visited, Sound, at_other, at_key, enter-Sound, Grown, Grown-refl, Grown-trans, Returns,
  lower-Returns,
}
use complex_git_sync.Tree.Cycles.Pop.{close_ends}

-- The nodes that are not numbered yet
abbrev pub unnumbered : List FilePath → Search → ℕ
unnumbered nodes s = count_if (λ x. not (visited s x)) nodes

Grown-visited : (s t : Search) (x : FilePath) → Grown s t → visited s x ≡ true → visited t x ≡ true
Grown-visited s t x g seen = elim (Option-cases (path_get s.index x)) [
  | inl fresh ↦ absurd (false_ne_true (ap is_some (sym fresh) ∙ seen))
  | inr (i, is) ↦ ap is_some (g.keeps x i is)
]

pub unnumbered-Grown :
    (nodes : List FilePath) (s t : Search) → Grown s t → unnumbered nodes t ≤ unnumbered nodes s
unnumbered-Grown [] s t g = omega arith
unnumbered-Grown (x ∷ nodes) s t g =
    let ih = unnumbered-Grown nodes s t g in let k = Grown-visited s t x g in ground arith

enter-Grown : (node : FilePath) (s : Search) → path_get s.index node ≡ none → Grown s (enter node s)
unfolding enter
enter-Grown node s fresh = record {
  keeps = λ x i is. elim (Bool-cases (path_eq node x)) [
    | inl same ↦
        absurd (none_ne_some (sym fresh ∙ ap (path_get s.index) (path_eq→eq node x same) ∙ is))
    | inr other ↦ at_other s.index node s.counter x other ∙ is
  ];
  above = node ∷ [];
  stacked = refl;
}

enter-numbers : (node : FilePath) (s : Search) → path_get (enter node s).index node ≡ some s.counter
unfolding enter
enter-numbers node s = at_key s.index node s.counter node (path_eq_refl node)

-- A node that is numbered was one of the nodes without a number.
enter-unnumbered :
    (nodes : List FilePath) (node : FilePath) (s : Search)
    → path_get s.index node ≡ none
    → has_path node nodes ≡ true
    → unnumbered nodes (enter node s) < unnumbered nodes s
unfolding has_path
enter-unnumbered [] node s fresh is = absurd (false_ne_true is)
enter-unnumbered (x ∷ nodes) node s fresh is = elim (Bool-cases (path_eq x node)) [
  | inl same ↦
      let fewer = unnumbered-Grown nodes s (enter node s) (enter-Grown node s fresh) in
      let here = path_eq→eq x node same in
      let before : visited s x ≡ false = ap is_some (ap (path_get s.index) here ∙ fresh) in
      let now : visited (enter node s) x ≡ true =
        ap is_some (ap (path_get (enter node s).index) here ∙ enter-numbers node s) in
      ground arith
  | inr other ↦
      let ih = enter-unnumbered nodes node s fresh (ground arith) in
      let k = Grown-visited s (enter node s) x (enter-Grown node s fresh) in ground arith
]

-- A call for a new node: it is numbered, and a call with the base as its number clears the stack.
abbrev pub Reaches : ℕ → FilePath → Search → Option Search → Type 0
Reaches base node s result =
    (t : Search) × (result ≡ some t)
    × Sound base t
    × Grown s t
    × (path_get t.index node ≡ some s.counter)
    × (s.counter ≡ base → t.stack ≡ s.stack)

-- The end of a call, from what its loop over the successors left
call_ends :
    (base : ℕ) (node : FilePath) (s t : Search)
    → path_get s.index node ≡ none
    → Sound base t
    → Grown (enter node s) t
    → Reaches base node s (close node t)
unfolding enter
call_ends base node s t fresh ht gt =
    let num = gt.keeps node s.counter (enter-numbers node s) in
    let before = enter-Grown node s fresh in
    let (u, is, hu, idx, alt) =
      close_ends base t node gt.above s.stack s.counter gt.stacked num ht in
    let same : (x : FilePath) → path_get t.index x ≡ path_get u.index x =
      λ x. ap (λ l. path_get l x) (sym idx) in
    let keeps : (x : FilePath) (i : ℕ) → path_get s.index x ≡ some i → path_get u.index x ≡ some i =
      λ x i e. sym (same x) ∙ gt.keeps x i (before.keeps x i e) in
    let at = sym (same node) ∙ num in
    elim alt [
      | inl cleared ↦
          (u, is, hu, record { keeps = keeps; above = []; stacked = cleared }, at, λ e. cleared)
      | inr (still, apart) ↦
          let g : Grown s u = record {
            keeps = keeps;
            above = gt.above ++ node ∷ [];
            stacked = still ∙ gt.stacked ∙ sym (append_assoc gt.above (node ∷ []) s.stack);
          } in
          (u, is, hu, g, at, λ e. absurd (apart e))
    ]

module _ (graph : PathGraph) (nodes : List FilePath)
    (closed : (n : FilePath) → All (λ x. has_path x nodes ≡ true) (successors graph n))
    (base : ℕ) where
  abbrev Connects : ℕ → (FilePath → Search → Option Search) → Type 0
  Connects fuel connect =
      (x : FilePath) (s : Search)
      → Sound base s
      → path_get s.index x ≡ none
      → has_path x nodes ≡ true
      → unnumbered nodes s ≤ fuel
      → Reaches base x s (connect x s)

  lowlink_of :
      (t : Search) (x : FilePath) (i : ℕ)
      → Sound base t
      → path_get t.index x ≡ some i
      → base ≤ i
      → (l : ℕ) × (path_get t.lowlink x ≡ some l) × (base ≤ l)
  lowlink_of t x i h at above = elim (Option-cases (path_get t.lowlink x)) [
    | inl missing ↦ absurd (false_ne_true (ap is_some (sym missing) ∙ h.both x ∙ ap is_some at))
    | inr (l, low) ↦ (l, low, (h.low x i l at low).1 above)
  ]

  descend_ends :
      (fuel : ℕ) (connect : FilePath → Search → Option Search)
      → Connects fuel connect
      → (node : FilePath) (i : ℕ) (xs : List FilePath) (s : Search) → path_get s.index node ≡ some i
      → All (λ x. has_path x nodes ≡ true) xs
      → Sound base s
      → unnumbered nodes s ≤ fuel
      → Returns base s (descend connect node xs s)
  unfolding descend
  descend_ends fuel connect connects node i [] s at all h enough = (s, refl, h, Grown-refl s)
  descend_ends fuel connect connects node i (x ∷ xs) s at all h enough =
      elim (Option-cases (path_get s.index x)) [
        | inl fresh ↦
            let (t, is, ht, gt, num, _) = connects x s h fresh all.0 enough in
            let (l, low, above) = lowlink_of t x s.counter ht num h.started in
            let (u, isu, hu, gu) = lower-Returns base node t i l ht (gt.keeps node i at) above in
            let g = Grown-trans s t u gt gu in
            let fewer = unnumbered-Grown nodes s u g in
            let (v, isv, hv, gv) =
              descend_ends fuel connect connects node i xs u (g.keeps node i at) all.1 hu
                (omega arith) in
            (v, rw (descend, fresh, is, low, isu) isv, hv, Grown-trans s u v g gv)
        | inr (j, seen) ↦ elim (Bool-cases (is_on_stack s x)) [
          | inl on ↦
              let waits : 0 < times x s.stack = let f = h.flags x in ground arith in
              let (u, isu, hu, gu) = lower-Returns base node s i j h at (h.floor x j waits seen) in
              let fewer = unnumbered-Grown nodes s u gu in
              let (v, isv, hv, gv) =
                descend_ends fuel connect connects node i xs u (gu.keeps node i at) all.1 hu
                  (omega arith) in
              (v, rw (descend, seen, on, isu) isv, hv, Grown-trans s u v gu gv)
          | inr off ↦
              let (v, isv, hv, gv) =
                descend_ends fuel connect connects node i xs s at all.1 h enough in
              (v, rw (descend, seen, off) isv, hv, gv)
        ]
      ]

  pub strong_connect_ends : (fuel : ℕ) → Connects fuel (strong_connect fuel graph)
  unfolding strong_connect
  strong_connect_ends zero node s h fresh is enough =
      let fewer = enter-unnumbered nodes node s fresh is in absurd (omega arith)
  strong_connect_ends (suc fuel) node s h fresh is enough =
      let fewer = enter-unnumbered nodes node s fresh is in
      let (t, ist, ht, gt) =
        descend_ends fuel (strong_connect fuel graph) (strong_connect_ends fuel) node s.counter
          (sorted path_lt (successors graph node)) (enter node s) (enter-numbers node s)
          (All-sorted path_lt _ _ (closed node)) (enter-Sound base node s h fresh) (omega arith) in
      rw (strong_connect, ist) (call_ends base node s t fresh ht gt)
