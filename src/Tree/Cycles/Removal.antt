-- ===== src/Tree/Cycles/Removal.antt =====
-- The lookups in the tree that `fix_circularities` of tree/git_tree.py leaves.
use complex_git_sync.Prelude.{
  arith, ◌≡◌, refl, sym, ap, ◌∙◌, inl, inr, Bool, true, false, ◌||◌, not, none, List, [], ◌∷◌,
  if◌then◌else◌, Bool-cases, false_ne_true, Text, Bytes, text_eq, text_eq→eq, filter,
}
use complex_git_sync.Repo.{WorkingRepo, FilePath}
use complex_git_sync.Tree.{WorkingGitTree, find_repo, recompute_tree_state}
use complex_git_sync.Tree.Registry.{DistinctIds}
use complex_git_sync.Tree.Cycles.Anchor.{paths}
use complex_git_sync.Tree.Cycles.Fix.{
  Repairs, among, break_with, break_at, remaining, merge_with, merge_at, flag_all, remove_all,
  finish, repairs,
}
use complex_git_sync.Tree.Cycles.Rules.{
  either_true, every_unit, flag_from_rule, drop_from_rule, merge_all_rule, break_all_rule,
}
use complex_git_sync.Tree.Cycles.Keep.{Kept, break_at-Kept, merge_at-Kept}

module _ (repos : List WorkingRepo) (distinct : DistinctIds repos) where
  pub repairs-Kept :
      (sha256 : Bytes → Bytes) (sccs : List (List FilePath))
      → Kept repos distinct (repairs sha256 repos sccs)
  unfolding repairs among
  repairs-Kept sha256 sccs =
      merge_all_rule (Kept repos distinct) repos (merge_at-Kept repos distinct) (paths repos) _ (
        break_all_rule (Kept repos distinct) repos (break_at-Kept repos distinct) sha256 _ sccs _
          (λ path c is. refl))

-- What is flagged is removed.
abbrev pub FlaggedGone : Repairs → Type 0
FlaggedGone s = (id : Text) → among s.flagged id ≡ true → among s.ids id ≡ true

either_weaken : (a b c : Bool) → (b ≡ true → c ≡ true) → (a || b) ≡ true → (a || c) ≡ true
either_weaken a b c f h = ground arith

break_with-FlaggedGone :
    (repos : List WorkingRepo) (anchor : FilePath) (scc : List FilePath)
    (entries : List WorkingRepo) (s : Repairs)
    → FlaggedGone s
    → FlaggedGone (break_with repos anchor scc entries s)
unfolding break_with among
break_with-FlaggedGone repos anchor scc [] s gone = gone
break_with-FlaggedGone repos anchor scc (c ∷ more) s gone =
    flag_from_rule FlaggedGone repos anchor c _ (λ e. Unit)
      (λ e t u back g id. either_weaken (text_eq e.repo_id id) _ _ (g id)) repos s
      (every_unit repos) gone

merge_with-FlaggedGone :
    (entries : List WorkingRepo) (s : Repairs) → FlaggedGone s → FlaggedGone (merge_with entries s)
unfolding merge_with among
merge_with-FlaggedGone [] s gone = gone
merge_with-FlaggedGone (c ∷ more) s gone =
    drop_from_rule FlaggedGone c (λ e. Unit)
      (λ e t u same g id h. either_true (text_eq e.repo_id id) (g id h)) more s (every_unit more)
      gone

pub repairs-FlaggedGone :
    (sha256 : Bytes → Bytes) (repos : List WorkingRepo) (sccs : List (List FilePath))
    → FlaggedGone (repairs sha256 repos sccs)
unfolding repairs among merge_at break_at
repairs-FlaggedGone sha256 repos sccs =
    merge_all_rule FlaggedGone repos
      (λ s path. merge_with-FlaggedGone (remaining repos s.ids path) s) (paths repos) _
      (break_all_rule FlaggedGone repos
        (λ anchor scc s. break_with-FlaggedGone repos anchor scc _ s) sha256 _ sccs _ (λ id h. h))

-- The flags are lost with the entries.
remove_all-flag_all :
    (flagged ids : List Text) (repos : List WorkingRepo)
    → ((id : Text) → among flagged id ≡ true → among ids id ≡ true)
    → remove_all ids (flag_all flagged repos) ≡ remove_all ids repos
unfolding remove_all flag_all filter
remove_all-flag_all flagged ids [] gone = refl
remove_all-flag_all flagged ids (e ∷ entries) gone =
    let ih = remove_all-flag_all flagged ids entries gone in
    elim (Bool-cases (among flagged e.repo_id)) [
      | inl flag ↦ let removed = gone e.repo_id flag in rw (flag, removed) ih
      | inr not_flagged ↦
          rw (not_flagged) (ap (λ l. if not (among ids e.repo_id) then e ∷ l else l) ih)
    ]

find_repo-remove_all :
    (ids : List Text) (repos : List WorkingRepo) (id : Text)
    → among ids id ≡ false
    → find_repo (remove_all ids repos) id ≡ find_repo repos id
unfolding remove_all filter find_repo
find_repo-remove_all ids [] id kept = refl
find_repo-remove_all ids (e ∷ entries) id kept =
    let ih = find_repo-remove_all ids entries id kept in
    elim (Bool-cases (text_eq e.repo_id id)) [
      | inl same ↦
          let stays = ap (among ids) (text_eq→eq e.repo_id id same) ∙ kept in rw (stays, same) refl
      | inr other ↦ elim (Bool-cases (among ids e.repo_id)) [
        | inl gone ↦ rw (gone, other) ih
        | inr stays ↦ rw (stays, other) ih
      ]
    ]

find_repo-removed :
    (ids : List Text) (repos : List WorkingRepo) (id : Text)
    → among ids id ≡ true
    → find_repo (remove_all ids repos) id ≡ none
unfolding remove_all filter find_repo
find_repo-removed ids [] id removed = refl
find_repo-removed ids (e ∷ entries) id removed =
    let ih = find_repo-removed ids entries id removed in
    elim (Bool-cases (among ids e.repo_id)) [
      | inl gone ↦ rw (gone) ih
      | inr stays ↦
          let other : text_eq e.repo_id id ≡ false = elim (Bool-cases (text_eq e.repo_id id)) [
            | inl same ↦ absurd (
                false_ne_true (sym stays ∙ ap (among ids) (text_eq→eq e.repo_id id same) ∙ removed))
            | inr differ ↦ differ
          ] in
          rw (stays, other) ih
    ]

found_of :
    (ids : List Text) (repos : List WorkingRepo) (id : Text)
    → find_repo (remove_all ids repos) id ≡ (if among ids id then none else find_repo repos id)
found_of ids repos id = elim (Bool-cases (among ids id)) [
  | inl gone ↦ rw (gone) (find_repo-removed ids repos id gone)
  | inr stays ↦ rw (stays) (find_repo-remove_all ids repos id stays)
]

-- What is looked up afterwards: what was there, but for the ids that are removed.
finish_parts :
    (tree : WorkingGitTree) (id : Text) (changes flagged ids : List Text)
    → ((i : Text) → among flagged i ≡ true → among ids i ≡ true)
    → find_repo (finish tree (record { ids = ids; changes = changes; flagged = flagged })).repos id
      ≡ (if among ids id then none else find_repo tree.repos id)
unfolding finish recompute_tree_state among
finish_parts tree id changes flagged [] gone = refl
finish_parts tree id changes flagged (i ∷ is) gone =
    ap (λ l. find_repo l id) (remove_all-flag_all flagged (i ∷ is) tree.repos gone)
    ∙ found_of (i ∷ is) tree.repos id

pub finish-find_repo :
    (tree : WorkingGitTree) (s : Repairs) (id : Text)
    → FlaggedGone s
    → find_repo (finish tree s).repos id
      ≡ (if among s.ids id then none else find_repo tree.repos id)
finish-find_repo tree s id gone = finish_parts tree id s.changes s.flagged s.ids gone
