-- ===== src/Tree/Cycles/Keep.antt =====
-- What `fix_circularities` of tree/git_tree.py keeps.
use complex_git_sync.Prelude.{
  ◌≡◌, refl, sym, ap, subst, ◌∙◌, inl, inr, true, false, not, Option, some, List, [], ◌∷◌,
  Bool-cases, Option-cases, some_inj, false_ne_true, All, All-weaken, All-filter, All-sorted,
  All-head?, head?, head?-sorted-filter, head?-sorted-none, All-both, count_if-zero,
  count_if-sorted, count_if-filter, count_if-and, nil_ne_cons, Text, text_eq, text_eq_refl,
  text_eq→eq, sorted, filter, count_if, arith,
}
use complex_git_sync.Repo.{WorkingRepo, FilePath}
use complex_git_sync.Tree.{find_repo}
use complex_git_sync.Tree.Registry.{has_id, DistinctIds, DistinctIds-IsRegistry}
use complex_git_sync.Tree.Cycles.Paths.{path_eq→eq}
use complex_git_sync.Tree.Cycles.Anchor.{colons, colons_lt, stands_at, entries_at}
use complex_git_sync.Tree.Cycles.Rules.{flag_from_rule, drop_from_rule}
use complex_git_sync.Tree.Cycles.Fix.{
  Repairs, among, is_back_edge, break_with, break_at, remaining, merge_with, merge_at,
}

-- The entry of a path that is nearest to the root, the first of them: it stands for the others.
unfoldable pub canonical_at : List WorkingRepo → FilePath → Option WorkingRepo
unfolding sorted colons entries_at
canonical_at repos path = head? (sorted colons_lt (entries_at repos path))

module _ (repos : List WorkingRepo) (distinct : DistinctIds repos) where
  abbrev pub Member : FilePath → WorkingRepo → Type 0
  Member path e = (find_repo repos e.repo_id ≡ some e) × (stands_at path e ≡ true)

  entries_at-Member : (path : FilePath) → All (Member path) (entries_at repos path)
  unfolding entries_at
  entries_at-Member path = All-filter _ _ repos (DistinctIds-IsRegistry repos distinct)

  pub canonical_at-Member :
      (path : FilePath) (c : WorkingRepo) → canonical_at repos path ≡ some c → Member path c
  unfolding canonical_at
  canonical_at-Member path c e =
      All-head? (Member path) _ c (All-sorted colons_lt _ _ (entries_at-Member path)) e

  same_entry :
      (a b : WorkingRepo)
      → find_repo repos a.repo_id ≡ some a
      → find_repo repos b.repo_id ≡ some b
      → text_eq a.repo_id b.repo_id ≡ true
      → a ≡ b
  same_entry a b fa fb same =
      let ids = text_eq→eq a.repo_id b.repo_id same in
      some_inj (sym fa ∙ ap (find_repo repos) ids ∙ fb)

  -- No entry that stands for its path is to be removed.
  abbrev pub Kept : Repairs → Type 0
  Kept s =
      (path : FilePath) (c : WorkingRepo)
      → canonical_at repos path ≡ some c
      → among s.ids c.repo_id ≡ false

  -- An entry of a path that is not the one that stands for it stands for no path.
  not_canonical :
      (path : FilePath) (c e : WorkingRepo)
      → canonical_at repos path ≡ some c
      → Member path e
      → text_eq e.repo_id c.repo_id ≡ false
      → (other : FilePath) (d : WorkingRepo) → canonical_at repos other ≡ some d
      → text_eq e.repo_id d.repo_id ≡ false
  not_canonical path c e is (found, at) apart other d also =
      elim (Bool-cases (text_eq e.repo_id d.repo_id)) [
        | inl same ↦
            let (found_d, at_d) = canonical_at-Member other d also in
            let e_is_d = same_entry e d found found_d same in
            let p1 = path_eq→eq e.absolute_path path at in
            let p2 = path_eq→eq d.absolute_path other at_d in
            let paths : path ≡ other =
              sym p1 ∙ ap (λ (r : WorkingRepo). r.absolute_path) e_is_d ∙ p2 in
            let c_is_d : c ≡ d = some_inj (sym is ∙ ap (canonical_at repos) paths ∙ also) in
            let ids : d.repo_id ≡ c.repo_id = ap (λ (r : WorkingRepo). r.repo_id) (sym c_is_d) in
            absurd (false_ne_true (sym apart ∙ subst (λ i. text_eq e.repo_id i ≡ true) ids same))
        | inr differ ↦ differ
      ]

  Kept-add :
      (s : Repairs) (id : Text)
      → Kept s
      → ((path : FilePath) (c : WorkingRepo)
          → canonical_at repos path ≡ some c
          → text_eq id c.repo_id ≡ false)
      → (path : FilePath) (c : WorkingRepo) → canonical_at repos path ≡ some c
      → among (id ∷ s.ids) c.repo_id ≡ false
  unfolding among
  Kept-add s id kept apart path c is = rw (apart path c is) (kept path c is)

  is_back_edge-parts :
      (anchor : FilePath) (id : Text) (others : List FilePath) (e : WorkingRepo)
      → is_back_edge repos anchor id others e ≡ true
      → (stands_at anchor e ≡ true) × (text_eq e.repo_id id ≡ false)
  unfolding is_back_edge
  is_back_edge-parts anchor id others e h = ground arith

  break_with-Kept :
      (anchor : FilePath) (scc : List FilePath) (entries : List WorkingRepo) (s : Repairs)
      → head? entries ≡ canonical_at repos anchor
      → Kept s
      → Kept (break_with repos anchor scc entries s)
  unfolding break_with
  break_with-Kept anchor scc [] s first kept = kept
  break_with-Kept anchor scc (c ∷ more) s first kept =
      let is : canonical_at repos anchor ≡ some c = sym first in
      flag_from_rule Kept repos anchor c _ _
        (λ e t found back k.
          let (at, apart) = is_back_edge-parts anchor c.repo_id _ e back in
          Kept-add t e.repo_id k (not_canonical anchor c e is (found, at) apart))
        repos s (DistinctIds-IsRegistry repos distinct) kept

  pub break_at-Kept :
      (anchor : FilePath) (scc : List FilePath) (s : Repairs)
      → Kept s
      → Kept (break_at repos anchor scc s)
  unfolding break_at canonical_at
  break_at-Kept anchor scc s kept = break_with-Kept anchor scc _ s refl kept

  pub remaining-first :
      (s : Repairs) (path : FilePath) (c : WorkingRepo) (more : List WorkingRepo)
      → Kept s
      → remaining repos s.ids path ≡ c ∷ more
      → canonical_at repos path ≡ some c
  unfolding remaining canonical_at
  remaining-first s path c more kept is = elim (Option-cases (canonical_at repos path)) [
    | inl none_there ↦
        let no_entry : entries_at repos path ≡ [] =
          head?-sorted-none colons (entries_at repos path) none_there in
        let empty : remaining repos s.ids path ≡ [] =
          ap (λ l. sorted colons_lt (filter (λ e. not (among s.ids e.repo_id)) l)) no_entry in
        absurd (nil_ne_cons (sym empty ∙ is))
    | inr (d, first) ↦
        let keeps : not (among s.ids d.repo_id) ≡ true = ap not (kept path d first) in
        let still =
          head?-sorted-filter colons (λ e. not (among s.ids e.repo_id)) (entries_at repos path) d
            first keeps in
        first ∙ sym still ∙ ap head? is
  ]

  remaining-apart :
      (ids : List Text) (path : FilePath) (c : WorkingRepo) (more : List WorkingRepo)
      → remaining repos ids path ≡ c ∷ more
      → All (λ e. Member path e × (text_eq e.repo_id c.repo_id ≡ false)) more
  unfolding remaining entries_at DistinctIds has_id
  remaining-apart ids path c more is =
      let test = λ (e : WorkingRepo). not (among ids e.repo_id) in
      let kept = filter test (entries_at repos path) in
      let all : All (Member path) kept =
        All-weaken _ (Member path) kept (λ e h. h.0)
          (All-filter (Member path) test _ (entries_at-Member path)) in
      let each : All (Member path) (c ∷ more) =
        subst (All (Member path)) is (All-sorted colons_lt (Member path) kept all) in
      let a = count_if-sorted colons_lt (has_id c.repo_id) kept in
      let b = count_if-filter (has_id c.repo_id) test (entries_at repos path) in
      let d = count_if-and (has_id c.repo_id) test (entries_at repos path) in
      let f = count_if-filter (has_id c.repo_id) (stands_at path) repos in
      let g = count_if-and (has_id c.repo_id) (stands_at path) repos in
      let once = distinct c.repo_id in
      let total = ap (count_if (has_id c.repo_id)) is in
      let itself : has_id c.repo_id c ≡ true = unfold has_id in text_eq_refl c.repo_id in
      All-both (Member path) _ more each.1 (count_if-zero (has_id c.repo_id) more (ground arith))

  merge_with-Kept :
      (path : FilePath) (entries : List WorkingRepo) (s : Repairs)
      → remaining repos s.ids path ≡ entries
      → Kept s
      → Kept (merge_with entries s)
  unfolding merge_with
  merge_with-Kept path [] s is kept = kept
  merge_with-Kept path (c ∷ more) s is kept =
      let first = remaining-first s path c more kept is in
      drop_from_rule Kept c _
        (λ e t (member, apart) same k.
          Kept-add t e.repo_id k (not_canonical path c e first member apart))
        more s (remaining-apart s.ids path c more is) kept

  pub merge_at-Kept : (s : Repairs) (path : FilePath) → Kept s → Kept (merge_at repos s path)
  unfolding merge_at
  merge_at-Kept s path kept = merge_with-Kept path _ s refl kept
