-- ===== src/Tree/Cycles/Run.antt =====
-- The state of the search for components in tree/git_tree.py: what each of its steps keeps.
use complex_git_sync.Prelude.{
  ℕ, ◌+◌, ◌≤◌, ◌<◌, ◌≡◌, refl, sym, ap, ◌∙◌, inl, inr, Bool, true, false, Option, none, some, List,
  [], ◌∷◌, ◌++◌, if◌then◌else◌, ltb, Bool-cases, Option-cases, some_inj, false_ne_true, count_if,
  arith,
}
use mathlib.Core.List.{append_assoc}
use complex_git_sync.Repo.{FilePath}
use complex_git_sync.Tree.Branches.{path_eq}
use complex_git_sync.Tree.Cycles.{
  path_get, path_put, is_some, Search, is_on_stack, enter, min, lower,
}
use complex_git_sync.Tree.Cycles.Paths.{path_eq→eq, path_get-path_put}

-- How often a path stands in a list
abbrev pub times : FilePath → List FilePath → ℕ
times x l = count_if (λ p. path_eq p x) l

abbrev pub all_of : List (List FilePath) → List FilePath
all_of [] = []
all_of (scc ∷ sccs) = scc ++ all_of sccs

abbrev pub once : Bool → ℕ
once b = if b then 1 else 0

abbrev pub visited : Search → FilePath → Bool
visited s x = is_some (path_get s.index x)

-- The search, with the stack above the nodes that were numbered below `base`.
pub record Sound (base : ℕ) (s : Search) : Type 0 where
  pub both : (x : FilePath) → is_some (path_get s.lowlink x) ≡ visited s x
  pub counted : (x : FilePath) → times x (all_of s.sccs) + times x s.stack ≡ once (visited s x)
  pub flags : (x : FilePath) → is_on_stack s x ≡ ltb 0 (times x s.stack)
  pub below_counter : (x : FilePath) (i : ℕ) → path_get s.index x ≡ some i → i < s.counter
  pub low :
      (x : FilePath) (i l : ℕ)
      → path_get s.index x ≡ some i
      → path_get s.lowlink x ≡ some l
      → (l ≤ i) × (base ≤ i → base ≤ l)
  pub floor : (x : FilePath) (i : ℕ) → 0 < times x s.stack → path_get s.index x ≡ some i → base ≤ i
  pub started : base ≤ s.counter

pub at_other {ℓ} :
    {A : Type ℓ} (items : List (FilePath × A)) (k : FilePath) (v : A) (x : FilePath)
    → path_eq k x ≡ false
    → path_get (path_put items k v) x ≡ path_get items x
at_other items k v x other =
    path_get-path_put items k v x ∙ ap (λ b. if b then some v else path_get items x) other

pub at_key {ℓ} :
    {A : Type ℓ} (items : List (FilePath × A)) (k : FilePath) (v : A) (x : FilePath)
    → path_eq k x ≡ true
    → path_get (path_put items k v) x ≡ some v
at_key items k v x same =
    path_get-path_put items k v x ∙ ap (λ b. if b then some v else path_get items x) same

module _ (base : ℕ) where
  pub enter-Sound :
      (node : FilePath) (s : Search)
      → Sound base s
      → path_get s.index node ≡ none
      → Sound base (enter node s)
  unfolding enter
  enter-Sound node s h fresh = record {
    both = λ x. elim (Bool-cases (path_eq node x)) [
      | inl same ↦
          let a = at_key s.lowlink node s.counter x same in
          let b = at_key s.index node s.counter x same in ap is_some (a ∙ sym b)
      | inr other ↦
          let a = at_other s.lowlink node s.counter x other in
          let b = at_other s.index node s.counter x other in
          ap is_some a ∙ h.both x ∙ ap is_some (sym b)
    ];
    counted = λ x. elim (Bool-cases (path_eq node x)) [
      | inl same ↦
          let b = ap is_some (at_key s.index node s.counter x same) in
          let before =
            h.counted x
            ∙ ap once (
                ap (λ n. is_some (path_get s.index n)) (sym (path_eq→eq node x same))
                ∙ ap is_some fresh) in
          ground arith
      | inr other ↦
          let b = ap is_some (at_other s.index node s.counter x other) in
          let before = h.counted x in ground arith
    ];
    flags = λ x. elim (Bool-cases (path_eq node x)) [
      | inl same ↦ let b = at_key s.on_stack node true x same in ground arith
      | inr other ↦
          let b = at_other s.on_stack node true x other in let before = h.flags x in ground arith
    ];
    below_counter = λ x i is. elim (Bool-cases (path_eq node x)) [
      | inl same ↦ let e = some_inj (sym (at_key s.index node s.counter x same) ∙ is) in omega arith
      | inr other ↦
          let e = h.below_counter x i (sym (at_other s.index node s.counter x other) ∙ is) in
          omega arith
    ];
    low = λ x i l is ls. elim (Bool-cases (path_eq node x)) [
      | inl same ↦
          let e = some_inj (sym (at_key s.index node s.counter x same) ∙ is) in
          let f = some_inj (sym (at_key s.lowlink node s.counter x same) ∙ ls) in
          let g = h.started in (omega arith, λ k. omega arith)
      | inr other ↦
          h.low x i l (sym (at_other s.index node s.counter x other) ∙ is)
            (sym (at_other s.lowlink node s.counter x other) ∙ ls)
    ];
    floor = λ x i on is. elim (Bool-cases (path_eq node x)) [
      | inl same ↦
          let e = some_inj (sym (at_key s.index node s.counter x same) ∙ is) in
          let g = h.started in omega arith
      | inr other ↦ h.floor x i (ground arith) (sym (at_other s.index node s.counter x other) ∙ is)
    ];
    started = let g = h.started in omega arith;
  }

  set_low-Sound :
      (node : FilePath) (s : Search) (i m : ℕ)
      → Sound base s
      → path_get s.index node ≡ some i
      → m ≤ i
      → (base ≤ i → base ≤ m)
      → Sound base (record s { lowlink = path_put s.lowlink node m })
  set_low-Sound node s i m h at le above = record {
    both = λ x. elim (Bool-cases (path_eq node x)) [
      | inl same ↦
          let a = at_key s.lowlink node m x same in
          let b = ap (path_get s.index) (sym (path_eq→eq node x same)) ∙ at in
          ap is_some a ∙ sym (ap is_some b)
      | inr other ↦ ap is_some (at_other s.lowlink node m x other) ∙ h.both x
    ];
    counted = h.counted;
    flags = h.flags;
    below_counter = h.below_counter;
    low = λ x j l is ls. elim (Bool-cases (path_eq node x)) [
      | inl same ↦
          let e = some_inj (sym (at_key s.lowlink node m x same) ∙ ls) in
          let f = some_inj (sym at ∙ ap (path_get s.index) (path_eq→eq node x same) ∙ is) in
          (omega arith, λ k. let g = above (omega arith) in omega arith)
      | inr other ↦ h.low x j l is (sym (at_other s.lowlink node m x other) ∙ ls)
    ];
    floor = h.floor;
    started = h.started;
  }

-- What a step of the search leaves of the state before it: the numbers, and the stack below.
pub record Grown (s t : Search) : Type 0 where
  pub keeps : (x : FilePath) (i : ℕ) → path_get s.index x ≡ some i → path_get t.index x ≡ some i
  pub above : List FilePath
  pub stacked : t.stack ≡ above ++ s.stack

pub Grown-refl : (s : Search) → Grown s s
Grown-refl s = record { keeps = λ x i e. e; above = []; stacked = refl }

pub Grown-trans : (s t u : Search) → Grown s t → Grown t u → Grown s u
Grown-trans s t u g h = record {
  keeps = λ x i e. h.keeps x i (g.keeps x i e);
  above = h.above ++ g.above;
  stacked =
      h.stacked ∙ ap (λ l. h.above ++ l) g.stacked ∙ sym (append_assoc h.above g.above s.stack);
}

-- A call that returns a state which is sound and grown from the state before
abbrev pub Returns : ℕ → Search → Option Search → Type 0
Returns base s result = (t : Search) × (result ≡ some t) × Sound base t × Grown s t

pub lower-Returns :
    (base : ℕ) (node : FilePath) (s : Search) (i bound : ℕ)
    → Sound base s
    → path_get s.index node ≡ some i
    → base ≤ bound
    → Returns base s (lower node (some bound) s)
unfolding lower
lower-Returns base node s i bound h at above = elim (Option-cases (path_get s.lowlink node)) [
  | inl missing ↦ absurd (false_ne_true (ap is_some (sym missing) ∙ h.both node ∙ ap is_some at))
  | inr (l, is) ↦
      let (le, up) = h.low node i l at is in
      (
        record s { lowlink = path_put s.lowlink node (min l bound) },
        rw (lower, is) refl,
        set_low-Sound base node s i (min l bound) h at (ground arith)
            (λ k. let g = up k in ground arith),
        record { keeps = λ x j e. e; above = []; stacked = refl },
      )
]
