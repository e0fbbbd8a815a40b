-- ===== src/Tree/Cycles/Duplicates.antt =====
-- What `fix_circularities` of tree/git_tree.py does with the duplicates of a path.
use complex_git_sync.Prelude.{
  arith, ◌≡◌, refl, sym, ap, subst, ◌∙◌, ◌⊎◌, inl, inr, Bool, true, false, ◌||◌, not, some, List,
  [], ◌∷◌, if◌then◌else◌, Bool-cases, some_inj, false_ne_true, All, All-weaken, All-unsorted,
  All-unfilter, filter, Text, text_eq, text_eq_refl,
}
use complex_git_sync.Repo.{WorkingRepo, FilePath}
use complex_git_sync.Tree.Branches.{path_eq}
use complex_git_sync.Tree.Registry.{DistinctIds}
use complex_git_sync.Tree.Cycles.{has_path}
use complex_git_sync.Tree.Cycles.Paths.{path_eq_refl, path_eq→eq}
use complex_git_sync.Tree.Cycles.Anchor.{colons_lt, entries_at, paths}
use complex_git_sync.Tree.Cycles.Compatible.{is_compatible_duplicate}
use complex_git_sync.Tree.Cycles.Fix.{
  Repairs, among, drop_duplicate, drop_from, remaining, merge_with, merge_at, merge_all,
}
use complex_git_sync.Tree.Cycles.Rules.{either_true, every_unit, drop_from_rule, merge_all_rule}
use complex_git_sync.Tree.Cycles.Keep.{canonical_at, Kept, remaining-first, merge_at-Kept}

All-has_path :
    (P : FilePath → Type 0) (l : List FilePath) (p : FilePath) → All P l → has_path p l ≡ true → P p
unfolding has_path
All-has_path P [] p all h = absurd (false_ne_true h)
All-has_path P (q ∷ l) p all h = elim (Bool-cases (path_eq q p)) [
  | inl same ↦ subst P (path_eq→eq q p same) all.0
  | inr other ↦ All-has_path P l p all.1 (ground arith)
]

has_path_kept :
    (p q : FilePath) (l : List FilePath)
    → has_path q l ≡ true
    → has_path q (p ∷ filter (λ r. not (path_eq r p)) l) ≡ true
unfolding has_path filter
has_path_kept p q [] h = absurd (false_ne_true h)
has_path_kept p q (r ∷ l) h = elim (Bool-cases (path_eq r q)) [
  | inl same ↦ elim (Bool-cases (path_eq r p)) [
    | inl also ↦
        let is_p : path_eq p q ≡ true =
          subst (λ x. path_eq x q ≡ true) (path_eq→eq r p also) same in
        ground arith
    | inr differ ↦ ground arith
  ]
  | inr other ↦ let ih = has_path_kept p q l (ground arith) in ground arith
]

pub has_path-paths :
    (entries : List WorkingRepo)
    → All (λ e. has_path e.absolute_path (paths entries) ≡ true) entries
unfolding paths has_path
has_path-paths [] = tt
has_path-paths (e ∷ entries) =
    let itself = path_eq_refl e.absolute_path in
    (
      ground arith,
      All-weaken _ _ entries
          (λ d h. has_path_kept e.absolute_path d.absolute_path (paths entries) h)
          (has_path-paths entries),
    )

-- What is to be removed stays to be removed.
abbrev Grows : List Text → Repairs → Type 0
Grows ids s = (id : Text) → among ids id ≡ true → among s.ids id ≡ true

drop_from-Grows :
    (ids : List Text) (c : WorkingRepo) (entries : List WorkingRepo) (s : Repairs)
    → Grows ids s
    → Grows ids (drop_from c entries s)
unfolding among
drop_from-Grows ids c entries s grows =
    drop_from_rule (Grows ids) c (λ e. Unit)
      (λ e t u same g id h. either_true (text_eq e.repo_id id) (g id h)) entries s
      (every_unit entries) grows

merge_with-Grows :
    (ids : List Text) (entries : List WorkingRepo) (s : Repairs)
    → Grows ids s
    → Grows ids (merge_with entries s)
unfolding merge_with
merge_with-Grows ids [] s grows = grows
merge_with-Grows ids (c ∷ more) s grows = drop_from-Grows ids c more s grows

merge_all-Grows :
    (repos : List WorkingRepo) (ids : List Text) (rest : List FilePath) (s : Repairs)
    → Grows ids s
    → Grows ids (merge_all repos rest s)
unfolding merge_at
merge_all-Grows repos ids =
    merge_all_rule (Grows ids) repos (λ s path. merge_with-Grows ids (remaining repos s.ids path) s)

-- An entry is the one that stands for its path, or is to be removed, or is not compatible with it.
abbrev pub Settled : WorkingRepo → List Text → WorkingRepo → Type 0
Settled c ids e =
    (text_eq e.repo_id c.repo_id ≡ true)
    ⊎ (among ids e.repo_id ≡ true)
    ⊎ (is_compatible_duplicate c e ≡ false)

Settled-Grows :
    (c e : WorkingRepo) (ids : List Text) (s : Repairs)
    → Grows ids s
    → Settled c ids e
    → Settled c s.ids e
Settled-Grows c e ids s grows (inl itself) = inl itself
Settled-Grows c e ids s grows (inr (inl gone)) = inr (inl (grows e.repo_id gone))
Settled-Grows c e ids s grows (inr (inr apart)) = inr (inr apart)

either_left : {a : Bool} (b : Bool) → a ≡ true → (a || b) ≡ true
either_left b h = ground arith

drop_from-Settled :
    (c : WorkingRepo) (entries : List WorkingRepo) (s : Repairs)
    → All (Settled c (drop_from c entries s).ids) entries
unfolding drop_from among
drop_from-Settled c [] s = tt
drop_from-Settled c (e ∷ entries) s =
    let next = if is_compatible_duplicate c e then drop_duplicate c e s else s in
    let rest = drop_from-Settled c entries next in
    elim (Bool-cases (is_compatible_duplicate c e)) [
      | inl same ↦
          let now : among next.ids e.repo_id ≡ true =
            subst (λ b. among (if b then drop_duplicate c e s else s).ids e.repo_id ≡ true)
              (sym same) (either_left _ (text_eq_refl e.repo_id)) in
          (inr (inl (drop_from-Grows next.ids c entries next (λ id h. h) e.repo_id now)), rest)
      | inr apart ↦ (inr (inr apart), rest)
    ]

module _ (repos : List WorkingRepo) (distinct : DistinctIds repos) where
  SettledAt : Repairs → FilePath → Type 0
  SettledAt s path =
      (c : WorkingRepo)
      → canonical_at repos path ≡ some c
      → All (Settled c s.ids) (entries_at repos path)

  All-Settled :
      (path : FilePath) (c : WorkingRepo) (ids : List Text) (s : Repairs)
      → Grows ids s
      → All (Settled c s.ids) (remaining repos ids path)
      → All (Settled c s.ids) (entries_at repos path)
  unfolding remaining
  All-Settled path c ids s grows all =
      let kept = All-unsorted colons_lt (Settled c s.ids) _ all in
      let each =
        All-unfilter (Settled c s.ids) (λ e. not (among ids e.repo_id)) (entries_at repos path)
          kept in
      All-weaken _ (Settled c s.ids) (entries_at repos path)
        (λ e (h : not (among ids e.repo_id) ≡ true → Settled c s.ids e).
          elim (Bool-cases (among ids e.repo_id)) [
            | inl gone ↦ inr (inl (grows e.repo_id gone))
            | inr stays ↦ h (ap not stays)
          ])
        each

  merge_with-Settled :
      (path : FilePath) (entries : List WorkingRepo) (s : Repairs)
      → remaining repos s.ids path ≡ entries
      → Kept repos distinct s
      → SettledAt (merge_with entries s) path
  unfolding merge_with SettledAt
  merge_with-Settled path [] s is kept c first =
      All-Settled path c s.ids s (λ id h. h) (subst (All _) (sym is) tt)
  merge_with-Settled path (d ∷ more) s is kept c first =
      let same : d ≡ c =
        some_inj (sym (remaining-first repos distinct s path d more kept is) ∙ first) in
      let all : All (Settled d (drop_from d more s).ids) (d ∷ more) =
        (inl (text_eq_refl d.repo_id), drop_from-Settled d more s) in
      let moved = subst (All (Settled d (drop_from d more s).ids)) (sym is) all in
      subst (λ w. All (Settled w (drop_from d more s).ids) (entries_at repos path)) same
        (All-Settled path d s.ids (drop_from d more s) (drop_from-Grows s.ids d more s (λ id h. h))
          moved)

  merge_all-Settled :
      (rest : List FilePath) (s : Repairs)
      → Kept repos distinct s
      → All (SettledAt (merge_all repos rest s)) rest
  unfolding merge_all merge_at SettledAt
  merge_all-Settled [] s kept = tt
  merge_all-Settled (path ∷ rest) s kept =
      let next = merge_at repos s path in
      let here = merge_with-Settled path (remaining repos s.ids path) s refl kept in
      let grows = merge_all-Grows repos next.ids rest next (λ id h. h) in
      (
        λ c first.
            All-weaken _ _ (entries_at repos path)
              (λ e. Settled-Grows c e next.ids (merge_all repos rest next) grows) (here c first),
        merge_all-Settled rest next (merge_at-Kept repos distinct s path kept),
      )

  -- Afterwards, each entry of each path is settled.
  pub merge_all-paths :
      (s : Repairs)
      → Kept repos distinct s
      → (path : FilePath) (c : WorkingRepo) → canonical_at repos path ≡ some c
      → has_path path (paths repos) ≡ true
      → All (Settled c (merge_all repos (paths repos) s).ids) (entries_at repos path)
  unfolding SettledAt
  merge_all-paths s kept path c first there =
      All-has_path (SettledAt (merge_all repos (paths repos) s)) (paths repos) path
        (merge_all-Settled (paths repos) s kept) there c first
