-- ===== src/Tree/Cycles/Pop.antt =====
-- The end of `_strong_connect` in tree/git_tree.py, which pops a component.
use complex_git_sync.Prelude.{
  ℕ, ◌+◌, ◌≡◌, refl, sym, ap, ◌∙◌, ◌⊎◌, inl, inr, Bool, false, Option, none, some, List, [], ◌∷◌,
  ◌++◌, if◌then◌else◌, ltb, ◌==◌, Bool-cases, Option-cases, false_ne_true, count_if-append, arith,
}
use complex_git_sync.Repo.{FilePath}
use complex_git_sync.Tree.Branches.{path_eq}
use complex_git_sync.Tree.Cycles.{path_get, path_put, is_some, Search, pop_until, close}
use complex_git_sync.Tree.Cycles.Paths.{path_eq_refl}
use complex_git_sync.Tree.Cycles.Run.{times, all_of, Sound, at_other, at_key}

off_all : List FilePath → List (FilePath × Bool) → List (FilePath × Bool)
off_all [] flags = flags
off_all (w ∷ ws) flags = off_all ws (path_put flags w false)

pop_until-found :
    (node : FilePath) (above below : List FilePath) (flags : List (FilePath × Bool))
    → times node above ≡ 0
    → pop_until node (above ++ node ∷ below) flags
      ≡ some (above ++ node ∷ [], below, off_all (above ++ node ∷ []) flags)
unfolding pop_until off_all
pop_until-found node [] below flags none_above = rw (path_eq_refl node) refl
pop_until-found node (w ∷ above) below flags none_above = elim (Bool-cases (path_eq w node)) [
  | inl same ↦ absurd (ground arith)
  | inr other ↦
      let ih = pop_until-found node above below (path_put flags w false) (ground arith) in
      rw (other, ih) refl
]

path_get-off_all :
    (ws : List FilePath) (flags : List (FilePath × Bool)) (x : FilePath)
    → path_get (off_all ws flags) x ≡ (if ltb 0 (times x ws) then some false else path_get flags x)
unfolding off_all
path_get-off_all [] flags x = refl
path_get-off_all (w ∷ ws) flags x =
    let ih = path_get-off_all ws (path_put flags w false) x in
    elim (Bool-cases (path_eq w x)) [
      | inl same ↦ let a = at_key flags w false x same in ground arith
      | inr other ↦ let a = at_other flags w false x other in ground arith
    ]

all_of-snoc :
    (x : FilePath) (sccs : List (List FilePath)) (scc : List FilePath)
    → times x (all_of (sccs ++ scc ∷ [])) ≡ times x (all_of sccs) + times x scc
all_of-snoc x [] scc = let a = count_if-append (λ p. path_eq p x) scc [] in omega arith
all_of-snoc x (s ∷ sccs) scc =
    let a = count_if-append (λ p. path_eq p x) s (all_of sccs) in
    let b = count_if-append (λ p. path_eq p x) s (all_of (sccs ++ scc ∷ [])) in
    let ih = all_of-snoc x sccs scc in omega arith

module _ (base : ℕ) (s : Search) (node : FilePath) (above below : List FilePath) where
  -- The state after the component is popped
  abbrev popped : Search
  popped = record s {
    stack = below;
    on_stack = off_all (above ++ node ∷ []) s.on_stack;
    sccs = s.sccs ++ (above ++ node ∷ []) ∷ [];
  }

  times_split :
      (x : FilePath)
      → s.stack ≡ above ++ node ∷ below
      → times x s.stack ≡ times x (above ++ node ∷ []) + times x below
  times_split x is =
      let a = count_if-append (λ p. path_eq p x) above (node ∷ []) in
      let b = count_if-append (λ p. path_eq p x) above (node ∷ below) in
      let c = ap (times x) is in ground arith

  popped-Sound : s.stack ≡ above ++ node ∷ below → Sound base s → Sound base popped
  popped-Sound is h = record {
    both = h.both;
    counted = λ x.
        let a = times_split x is in
        let b = all_of-snoc x s.sccs (above ++ node ∷ []) in let c = h.counted x in omega arith;
    flags = λ x.
        let a = times_split x is in
        let b = path_get-off_all (above ++ node ∷ []) s.on_stack x in
        let c = h.counted x in
        let d = h.flags x in
        elim (Bool-cases (ltb 0 (times x (above ++ node ∷ [])))) [
          | inl has ↦
              let off = b ∙ ap (λ q. if q then some false else path_get s.on_stack x) has in
              let none_below : ltb 0 (times x below) ≡ false = ground arith in
              ap (λ (o : Option Bool). elim o [ none ↦ false | some b ↦ b ]) off ∙ sym none_below
          | inr has_not ↦
              let same = b ∙ ap (λ q. if q then some false else path_get s.on_stack x) has_not in
              let as_before : ltb 0 (times x s.stack) ≡ ltb 0 (times x below) = ground arith in
              ap (λ (o : Option Bool). elim o [ none ↦ false | some b ↦ b ]) same ∙ d ∙ as_before
        ];
    below_counter = h.below_counter;
    low = h.low;
    floor = λ x i on e. let a = times_split x is in h.floor x i (omega arith) e;
    started = h.started;
  }

  none_above : s.stack ≡ above ++ node ∷ below → Sound base s → times node above ≡ 0
  none_above is h =
      let a = times_split node is in
      let b = count_if-append (λ p. path_eq p node) above (node ∷ []) in
      let c = h.counted node in let d = path_eq_refl node in ground arith

  -- It pops the component if its first node has the least number that it can reach.
  pub close_ends :
      (i : ℕ)
      → s.stack ≡ above ++ node ∷ below
      → path_get s.index node ≡ some i
      → Sound base s
      → (t : Search) × (close node s ≡ some t)
        × Sound base t
        × (t.index ≡ s.index)
        × ((t.stack ≡ below) ⊎ ((t.stack ≡ s.stack) × (i ≡ base → ⊥)))
  unfolding close
  close_ends i is at h = elim (Option-cases (path_get s.lowlink node)) [
    | inl missing ↦ absurd (false_ne_true (ap is_some (sym missing) ∙ h.both node ∙ ap is_some at))
    | inr (l, low) ↦
        let (le, up) = h.low node i l at low in
        elim (Bool-cases (l == i)) [
          | inl same ↦
              let found = pop_until-found node above below s.on_stack (none_above is h) in
              let pops = ap (λ st. pop_until node st s.on_stack) is ∙ found in
              (popped, rw (close, low, at, same, pops) refl, popped-Sound is h, refl, inl refl)
          | inr other ↦ (s, rw (close, low, at, other) refl, h, refl, inr (refl, λ e. ground arith))
        ]
  ]
