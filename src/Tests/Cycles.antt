-- ===== src/Tests/Cycles.antt =====
-- The theorems on the cycles of a tree, at a tree of three repositories that declare each other.
use complex_git_sync.Prelude.{
  sorted, text_lt, ◌≤◌, ◌≡◌, refl, some, List, [], ◌∷◌, arith, All, Text, Bytes, codes,
}
use complex_git_sync.Repo.{WorkingRepo, FilePath, behind}
use complex_git_sync.Tree.{tree_partial, WorkingGitTree, put_repo, add_repo}
use complex_git_sync.Tree.Registry.{DistinctIds, add_repo-DistinctIds}
use complex_git_sync.Tree.Cycles.{keys, build_path_graph, find_strongly_connected_components}
use complex_git_sync.Tree.Cycles.Run.{times, all_of}
use complex_git_sync.Tree.Cycles.Partition.{find_strongly_connected_components-once}
use complex_git_sync.Tree.Cycles.Fix.{fix_circularities}
use complex_git_sync.Tree.Cycles.Fixed.{Repaired, fix_circularities-Repaired}
use complex_git_sync.Tests.Samples.{root_entry, garden_tree}

abbrev entry_at : Text → Text → Text → WorkingRepo
entry_at id parent path = record root_entry {
  repo_id = id;
  parent_id = some parent;
  absolute_path = codes "/" ∷ path ∷ [];
}

abbrev top : WorkingRepo
top = record root_entry { absolute_path = codes "/" ∷ codes "a" ∷ [] }

abbrev beds : WorkingRepo
beds = entry_at (codes "root:b") (codes "root") (codes "b")

abbrev seeds : WorkingRepo
seeds = entry_at (codes "root:b:c") (codes "root:b") (codes "c")

-- The third repository declares the first, and the second, which is in another state there.
abbrev top_again : WorkingRepo
top_again = entry_at (codes "root:b:c:a") (codes "root:b:c") (codes "a")

abbrev beds_again : WorkingRepo
beds_again = record (entry_at (codes "root:b:c:b") (codes "root:b:c") (codes "b")) {
  sync_state = behind;
}

abbrev path_a : FilePath
path_a = codes "/" ∷ codes "a" ∷ []

abbrev path_b : FilePath
path_b = codes "/" ∷ codes "b" ∷ []

abbrev path_c : FilePath
path_c = codes "/" ∷ codes "c" ∷ []

empty_tree-DistinctIds : DistinctIds []
unfolding DistinctIds
empty_tree-DistinctIds id = omega arith

abbrev empty_tree : WorkingGitTree
empty_tree = record garden_tree { repos = [] }

abbrev cyclic_tree : WorkingGitTree
cyclic_tree = record garden_tree { repos = top ∷ beds ∷ seeds ∷ top_again ∷ beds_again ∷ [] }

abbrev no_digest : Bytes → Bytes
no_digest bytes = bytes

cyclic_tree-DistinctIds : DistinctIds cyclic_tree.repos
unfolding put_repo add_repo
cyclic_tree-DistinctIds =
    let a = (add_repo-DistinctIds empty_tree top empty_tree-DistinctIds).0 in
    let t1 = record empty_tree { repos = top ∷ [] } in
    let b = (add_repo-DistinctIds t1 beds a).0 in
    let t2 = record empty_tree { repos = top ∷ beds ∷ [] } in
    let c = (add_repo-DistinctIds t2 seeds b).0 in
    let t3 = record empty_tree { repos = top ∷ beds ∷ seeds ∷ [] } in
    let d = (add_repo-DistinctIds t3 top_again c).0 in
    let t4 = record empty_tree { repos = top ∷ beds ∷ seeds ∷ top_again ∷ [] } in
    (add_repo-DistinctIds t4 beds_again d).0

find_strongly_connected_components-once_example :
    (sccs : List (List FilePath)) × (find_strongly_connected_components
        (build_path_graph cyclic_tree.repos)
      ≡ some sccs)
    × All (λ x. times x (all_of sccs) ≡ 1) (keys (build_path_graph cyclic_tree.repos))
    × ((x : FilePath) → times x (all_of sccs) ≤ 1)
find_strongly_connected_components-once_example =
    find_strongly_connected_components-once (build_path_graph cyclic_tree.repos)

fix_circularities-Repaired_example :
    (after : WorkingGitTree) × (changes : List Text) × (fix_circularities no_digest cyclic_tree
      ≡ some (after, changes))
    × Repaired cyclic_tree.repos after.repos
fix_circularities-Repaired_example =
    fix_circularities-Repaired no_digest cyclic_tree cyclic_tree-DistinctIds

-- The first repository is not declared twice any more; the second is.
abbrev kept_tree : WorkingGitTree
kept_tree = record garden_tree {
  lifecycle_state = tree_partial;
  repos = top ∷ beds ∷ seeds ∷ beds_again ∷ [];
}

fix_circularities-cyclic_tree :
    fix_circularities no_digest cyclic_tree
    ≡ some (kept_tree, codes "fixed_circularity:root:b:c:a→root" ∷ [])
unfolding fix_circularities
fix_circularities-cyclic_tree = refl

-- The second and the third still declare each other.
components-kept_tree :
    find_strongly_connected_components (build_path_graph kept_tree.repos)
    ≡ some ((path_c ∷ path_b ∷ []) ∷ (path_a ∷ []) ∷ [])
unfolding find_strongly_connected_components build_path_graph sorted text_lt
components-kept_tree = refl
