-- ===== src/Tree/Cycles/Fixed.antt =====
-- The registry that `fix_circularities` of tree/git_tree.py leaves.
use complex_git_sync.Prelude.{
  ◌≡◌, refl, sym, ap, ◌∙◌, ◌⊎◌, inl, inr, Bool, true, false, Option, none, some, List, [],
  if◌then◌else◌, none_ne_some, false_ne_true, All-unfilter, Text, Bytes, text_eq,
}
use complex_git_sync.Repo.{WorkingRepo, FilePath}
use complex_git_sync.Tree.{WorkingGitTree, find_repo}
use complex_git_sync.Tree.Registry.{DistinctIds}
use complex_git_sync.Tree.Propagate.Lookup.{All-find_repo, found_id}
use complex_git_sync.Tree.Cycles.{build_path_graph}
use complex_git_sync.Tree.Cycles.Paths.{path_eq_refl}
use complex_git_sync.Tree.Cycles.Partition.{find_strongly_connected_components-once}
use complex_git_sync.Tree.Cycles.Anchor.{stands_at, entries_at}
use complex_git_sync.Tree.Cycles.Compatible.{is_compatible_duplicate}
use complex_git_sync.Tree.Cycles.Fix.{Repairs, among, repairs, finish, fix_circularities}
use complex_git_sync.Tree.Cycles.Rules.{break_all_rule}
use complex_git_sync.Tree.Cycles.Keep.{canonical_at, canonical_at-Member, Kept, break_at-Kept}
use complex_git_sync.Tree.Cycles.Removal.{repairs-Kept, repairs-FlaggedGone, finish-find_repo}
use complex_git_sync.Tree.Cycles.Duplicates.{Settled, has_path-paths, merge_all-paths}

-- Of the first registry, the second keeps the entry that stands for each path, and what else it has
-- was there and is not compatible with the entry that stands for its path.
pub record Repaired (before after : List WorkingRepo) : Type 0 where
  pub canonical :
      (path : FilePath) (c : WorkingRepo)
      → canonical_at before path ≡ some c
      → find_repo after c.repo_id ≡ some c
  pub no_other :
      (id : Text) (e : WorkingRepo) → find_repo after id ≡ some e → find_repo before id ≡ some e
  pub no_duplicate :
      (c : WorkingRepo) (id : Text) (e : WorkingRepo)
      → find_repo after id ≡ some e
      → canonical_at before e.absolute_path ≡ some c
      → (text_eq e.repo_id c.repo_id ≡ true) ⊎ (is_compatible_duplicate c e ≡ false)

lookup_left :
    {b : Bool} {o : Option WorkingRepo} {e : WorkingRepo}
    → (if b then none else o) ≡ some e
    → (b ≡ false) × (o ≡ some e)
lookup_left {b = true} h = absurd (none_ne_some h)
lookup_left {b = false} h = (refl, h)

module _ (sha256 : Bytes → Bytes) (tree : WorkingGitTree) (distinct : DistinctIds tree.repos) where
  repairs-Settled :
      (sccs : List (List FilePath)) (c e : WorkingRepo) (id : Text)
      → find_repo tree.repos id ≡ some e
      → canonical_at tree.repos e.absolute_path ≡ some c
      → Settled c (repairs sha256 tree.repos sccs).ids e
  unfolding repairs entries_at among
  repairs-Settled sccs c e id found first =
      let start : Repairs = record { ids = []; changes = []; flagged = [] } in
      let kept =
        break_all_rule (Kept tree.repos distinct) tree.repos (break_at-Kept tree.repos distinct)
          sha256 (build_path_graph tree.repos) sccs start (λ path d is. refl) in
      let there = All-find_repo _ tree.repos id e (has_path-paths tree.repos) found in
      let all = merge_all-paths tree.repos distinct _ kept e.absolute_path c first there in
      All-find_repo _ tree.repos id e (All-unfilter _ (stands_at e.absolute_path) tree.repos all)
        found (path_eq_refl e.absolute_path)

  finish-Repaired :
      (sccs : List (List FilePath))
      → Repaired tree.repos (finish tree (repairs sha256 tree.repos sccs)).repos
  finish-Repaired sccs =
      let s = repairs sha256 tree.repos sccs in
      let looked : (id : Text)
          → find_repo (finish tree s).repos id
            ≡ (if among s.ids id then none else find_repo tree.repos id) =
        λ id. finish-find_repo tree s id (repairs-FlaggedGone sha256 tree.repos sccs) in
      record {
        canonical = λ path c first.
            let stays = repairs-Kept tree.repos distinct sha256 sccs path c first in
            looked c.repo_id
            ∙ ap (λ b. if b then none else find_repo tree.repos c.repo_id) stays
            ∙ (canonical_at-Member tree.repos distinct path c first).0;
        no_other = λ id e found. (lookup_left (sym (looked id) ∙ found)).1;
        no_duplicate = λ c id e found first.
            let (stays, was) = lookup_left (sym (looked id) ∙ found) in
            let here : among s.ids e.repo_id ≡ false =
              ap (among s.ids) (found_id tree.repos id e was) ∙ stays in
            elim (repairs-Settled sccs c e id was first) [
              | inl itself ↦ inl itself
              | inr (inl gone) ↦ absurd (false_ne_true (sym here ∙ gone))
              | inr (inr apart) ↦ inr apart
            ];
      }

  -- With one entry for an identifier, fix_circularities returns. The entry of each path that is
  -- nearest to the root, the first with the fewest colons in its identifier, stays as it was; each
  -- other entry that stays was there before, and is not a compatible duplicate of the one that
  -- stands for its path.
  pub fix_circularities-Repaired :
      (after : WorkingGitTree) × (changes : List Text) × (fix_circularities sha256 tree
        ≡ some (after, changes))
      × Repaired tree.repos after.repos
  unfolding fix_circularities
  fix_circularities-Repaired =
      let (sccs, is, every, once) =
        find_strongly_connected_components-once (build_path_graph tree.repos) in
      let s = repairs sha256 tree.repos sccs in
      (finish tree s, s.changes, rw (fix_circularities, is) refl, finish-Repaired sccs)
