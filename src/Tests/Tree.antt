-- ===== src/Tests/Tree.antt =====
-- The theorems on the registry and its branches, at a tree of three repositories.
use complex_git_sync.Prelude.{
  ℕ, ◌+◌, ◌≤◌, ◌<◌, ◌≡◌, refl, sym, subst, ◌∙◌, ◌↔◌, Bool, true, false, ◌&&◌, ◌||◌, not, Option,
  none, some, List, [], ◌∷◌, map, arith, if◌then◌else◌, some_inj, none_ne_some, All, Text, codes,
  text_eq, sorted, strip_white, count_if, Result, ok,
}
use complex_git_sync.Repo.{WorkingRepo, FilePath, all_scope, effective_private, effective_writable}
use complex_git_sync.Tree.{
  WorkingGitTree, find_repo, put_repo, add_repo, tree_ready, is_ready, recompute_tree_state,
}
use complex_git_sync.Tree.Registry.{
  DistinctIds, add_repo-DistinctIds, add_all, last_with, named_by, add_all-DistinctIds,
}
use complex_git_sync.Tree.State.{recompute_tree_state-is_ready}
use complex_git_sync.Tree.Propagate.{Flags, parent_under, parent_in, propagate_privacy, with_flags}
use complex_git_sync.Tree.Propagate.Lookup.{Follows, All-find_repo}
use complex_git_sync.Tree.Propagate.Privacy.{Ranked, propagate_privacy-Follows}
use complex_git_sync.Tree.Propagate.Subtree.{child, propagate_privacy-Below}
use complex_git_sync.Tree.Walk.{iter_all, iter_tree_leaf_first}
use complex_git_sync.Tree.Walk.Order.{rooted, ParentsFirst, iter_all-ParentsFirst}
use complex_git_sync.Tree.Branches.{tree_branch, parent_of, owner, owner_within, deviations}
use complex_git_sync.Tree.Branches.Owner.{Deep, NamesOwner, owner-NamesOwner}
use complex_git_sync.Branch.{main_branch, or_else, as_optional_str, private_local_branch}
use complex_git_sync.Tree.Branches.Settle.{settle_memory_twin}
use complex_git_sync.Tree.Branches.Settle.Twin.{settle_memory_twin-private_local_branch}
use complex_git_sync.Tree.Branches.{
  memory_of, tree_project_name, tree_branch, parent_of, owner, owner_within, deviations,
}
use complex_git_sync.Tree.Branches.Deviations.{OnBranch, deviations-OnBranch}
use complex_git_sync.Tests.Samples.{
  garden, root_entry, notes_entry, seeds_entry, garden_repos, garden_tree,
}

abbrev empty_tree : WorkingGitTree
empty_tree = record garden_tree { repos = [] }

empty_tree-DistinctIds : DistinctIds []
unfolding DistinctIds
empty_tree-DistinctIds id = omega arith

abbrev two_tree : WorkingGitTree
two_tree = record garden_tree { repos = seeds_entry ∷ root_entry ∷ [] }

two_tree-DistinctIds : DistinctIds (seeds_entry ∷ root_entry ∷ [])
unfolding put_repo add_repo
two_tree-DistinctIds =
    (add_repo-DistinctIds (add_repo empty_tree seeds_entry) root_entry
      (add_repo-DistinctIds empty_tree seeds_entry empty_tree-DistinctIds).0).0

garden_repos-DistinctIds : DistinctIds garden_repos
unfolding put_repo add_repo
garden_repos-DistinctIds = (add_repo-DistinctIds two_tree notes_entry two_tree-DistinctIds).0

add_all-DistinctIds_example :
    DistinctIds (add_all two_tree (notes_entry ∷ root_entry ∷ [])).repos
    × ((id : Text)
        → find_repo (add_all two_tree (notes_entry ∷ root_entry ∷ [])).repos id
          ≡ last_with id (find_repo two_tree.repos id) (notes_entry ∷ root_entry ∷ []))
    × ((add_all two_tree (notes_entry ∷ root_entry ∷ [])).project_name
        ≡ named_by two_tree.project_name (notes_entry ∷ root_entry ∷ []))
add_all-DistinctIds_example =
    add_all-DistinctIds (notes_entry ∷ root_entry ∷ []) two_tree two_tree-DistinctIds

recompute_tree_state-is_ready_example :
    ((recompute_tree_state garden_tree).lifecycle_state ≡ tree_ready)
    ↔ (is_ready garden_tree.repos ≡ true)
recompute_tree_state-is_ready_example = recompute_tree_state-is_ready garden_tree

iter_all-ParentsFirst_example :
    (out : List WorkingRepo) × (iter_all garden_repos ≡ some out)
    × ParentsFirst [] out
    × ((p : WorkingRepo → Bool) → count_if p out ≡ count_if (λ r. p r && rooted out r) garden_repos)
iter_all-ParentsFirst_example = iter_all-ParentsFirst garden_repos garden_repos-DistinctIds

abbrev garden_rank : Text → ℕ
garden_rank id =
    if text_eq id (codes "seeds") then 2 else if text_eq id (codes "notes") then 1 else 0

garden_rank-le : (id : Text) → garden_rank id ≤ 3
garden_rank-le id = ground arith

-- The parent of an entry is the given one.
only_parent :
    (s : WorkingRepo) (n : ℕ) (o : Option WorkingRepo)
    → o ≡ some s
    → garden_rank s.repo_id < n
    → (q : WorkingRepo) → o ≡ some q
    → garden_rank q.repo_id < n
only_parent s n o is lt q e = subst (λ t. garden_rank t.repo_id < n) (some_inj (sym is ∙ e)) lt

garden_parents :
    All
      (λ s.
        (q : WorkingRepo)
        → parent_in garden_repos s ≡ some q
        → garden_rank q.repo_id < garden_rank s.repo_id)
      garden_repos
unfolding parent_under find_repo text_eq
garden_parents = (
  only_parent notes_entry 2 (parent_in garden_repos seeds_entry) refl (omega arith),
  (
    λ q e. absurd (none_ne_some e),
    (only_parent root_entry 1 (parent_in garden_repos notes_entry) refl (omega arith), tt),
  ),
)

garden_repos-Ranked : Ranked garden_repos garden_rank
garden_repos-Ranked = record {
  parent_lower = λ r p found under.
      All-find_repo
        (λ s.
          (q : WorkingRepo)
          → parent_in garden_repos s ≡ some q
          → garden_rank q.repo_id < garden_rank s.repo_id)
        garden_repos r.repo_id r garden_parents found p under;
  bounded = garden_rank-le;
}

propagate_privacy-Follows_example :
    (flags : Text → Flags) × (propagate_privacy garden_repos
      ≡ map (λ r. with_flags r (flags r.repo_id)) garden_repos)
    × All (λ r. Follows flags r (parent_in garden_repos r)) garden_repos
propagate_privacy-Follows_example =
    propagate_privacy-Follows garden_repos garden_rank garden_repos-DistinctIds garden_repos-Ranked

abbrev settled_notes : WorkingRepo
settled_notes = record notes_entry {
  propagated_private = some true;
  propagated_writable = some false;
}

propagate_privacy-Below_example :
    (s : WorkingRepo) × (find_repo (propagate_privacy garden_repos) (codes "seeds") ≡ some s)
    × (effective_private s ≡ true)
    × ((not (effective_writable s) || effective_writable settled_notes) ≡ true)
unfolding parent_under find_repo text_eq propagate_privacy effective_private
propagate_privacy-Below_example =
    propagate_privacy-Below garden_repos garden_rank garden_repos-DistinctIds garden_repos-Ranked
      seeds_entry notes_entry settled_notes (child seeds_entry notes_entry refl refl) refl refl refl

garden_owners :
    All
      (λ s.
        (q : WorkingRepo)
        → parent_of garden_repos s.parent_id ≡ some q
        → garden_rank q.repo_id < garden_rank s.repo_id)
      garden_repos
unfolding parent_of text_eq
garden_owners = (
  only_parent notes_entry 2 (parent_of garden_repos seeds_entry.parent_id) refl (omega arith),
  (
    λ q e. absurd (none_ne_some e),
    (
      only_parent root_entry 1 (parent_of garden_repos notes_entry.parent_id) refl (omega arith),
      tt,
    ),
  ),
)

garden_repos-Deep : Deep garden_repos garden_rank
garden_repos-Deep = record {
  parent_lower = λ r p found under.
      All-find_repo
        (λ s.
          (q : WorkingRepo)
          → parent_of garden_repos s.parent_id ≡ some q
          → garden_rank q.repo_id < garden_rank s.repo_id)
        garden_repos r.repo_id r garden_owners found p under;
  bounded = garden_rank-le;
}

owner-NamesOwner_example :
    ((more : ℕ) → owner_within (4 + more) garden_repos seeds_entry ≡ owner garden_repos seeds_entry)
    × ((name : Text)
        → owner garden_repos seeds_entry ≡ some name
        → NamesOwner garden_repos seeds_entry name)
unfolding find_repo text_eq
owner-NamesOwner_example =
    owner-NamesOwner garden_repos garden_rank seeds_entry garden_repos-Deep refl

-- Git has every repository on the branch main, but for one that is detached.
abbrev on_main : FilePath → Result Text (Option Text)
on_main (p ∷ []) = ok (some (codes "main"))
on_main path = ok none

deviations-OnBranch_example :
    (deviations on_main all_scope false garden_tree ≡ some (ok []))
    ↔ All
        (OnBranch on_main false garden_tree (codes "main"))
        (seeds_entry ∷ notes_entry ∷ root_entry ∷ [])
unfolding tree_branch iter_tree_leaf_first text_eq sorted
deviations-OnBranch_example =
    deviations-OnBranch on_main all_scope false garden_tree (codes "main")
      (seeds_entry ∷ notes_entry ∷ root_entry ∷ []) refl refl

-- The memory of the tree, on the branch of a twin of its project.
abbrev memory_entry : WorkingRepo
memory_entry = record notes_entry {
  repo_id = codes "memory";
  absolute_path = garden ∷ codes ".cgitsync" ∷ codes ".memory" ∷ [];
}

abbrev twin_tree : WorkingGitTree
twin_tree = record garden_tree { repos = root_entry ∷ memory_entry ∷ [] }

abbrev on_twin : FilePath → Result Text (Option Text)
on_twin path = ok (some (private_local_branch garden main_branch true none))

settle_memory_twin-private_local_branch_example :
    (settle_memory_twin (λ path. true) on_twin twin_tree).memory_twin ≡ true
unfolding memory_of tree_project_name text_eq private_local_branch or_else strip_white
    as_optional_str
settle_memory_twin-private_local_branch_example =
    settle_memory_twin-private_local_branch (λ path. true) on_twin twin_tree memory_entry garden
      main_branch refl refl refl refl refl
