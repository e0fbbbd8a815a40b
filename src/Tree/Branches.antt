-- ===== src/Tree/Branches.antt =====
-- tree/git_tree_branch.py, and the owner of a mount of tree/mount_guard.py: the branch of the tree,
-- and the one that each repository follows. Git's answer, `current_branch`, is a parameter; within
-- one instance it is read once for a repository, so it is a function of the repository.
pub mod Owner
pub mod Deviations
pub mod Settle
use complex_git_sync.Prelude.{
  ℕ, zero, suc, Bool, true, false, ◌&&◌, ◌||◌, not, Option, none, some, List, [], ◌∷◌, ◌++◌,
  if◌then◌else◌, length, Text, codes, text_eq, Result, ◌>>=◌, ok, err,
}
use complex_git_sync.Repo.{
  WorkingRepo, RepoScope, FilePath, RefKind, branch_ref, effective_private, effective_writable,
}
use complex_git_sync.Branch.{
  BranchResolution, main_branch, as_optional_str, or_else, behind_gate, resolve_propagated_ref,
  is_tag,
}
use complex_git_sync.Tree.{WorkingGitTree, root_repo_id, find_repo, in_declared}
use complex_git_sync.Tree.Walk.{iter_tree_leaf_first}

-- tree_project_name
unfoldable pub tree_project_name : WorkingGitTree → Option Text
unfolding as_optional_str
tree_project_name tree = as_optional_str tree.project_name

-- GitTreeBranches.root
unfoldable pub root_of : List WorkingRepo → Option WorkingRepo
unfolding find_repo
root_of repos = find_repo repos root_repo_id

-- `repo is root`
unfoldable pub is_root : WorkingRepo → Bool
unfolding text_eq
is_root r = text_eq r.repo_id root_repo_id

unfoldable pub path_eq : FilePath → FilePath → Bool
unfolding text_eq
path_eq [] [] = true
path_eq (p ∷ ps) (q ∷ qs) = text_eq p q && path_eq ps qs
path_eq _ _ = false

-- path.is_relative_to(other)
unfoldable pub is_relative_to : FilePath → FilePath → Bool
unfolding text_eq
is_relative_to path [] = true
is_relative_to [] (q ∷ qs) = false
is_relative_to (p ∷ ps) (q ∷ qs) = text_eq p q && is_relative_to ps qs

-- `registry.repos.get(entry.parent_id) if entry.parent_id else None`
unfoldable pub parent_of : List WorkingRepo → Option Text → Option WorkingRepo
unfolding find_repo
parent_of repos none = none
parent_of repos (some []) = none
parent_of repos (some (c ∷ cs)) = find_repo repos (c ∷ cs)

abbrev pub same_spec : Option FilePath → FilePath → Bool
same_spec none spec = false
same_spec (some held) spec = path_eq held spec

-- The last test of MountGuard.owner, on the parent's spec
abbrev pub holds_spec : WorkingRepo → FilePath → Bool
holds_spec parent spec = elim parent.source_cgs_path [
  | none ↦ false
  | some held ↦ path_eq held spec || is_relative_to held parent.absolute_path
]

-- The parent that declared an entry, of the root, the parent and the entry's spec
unfoldable pub declared_by :
    Option WorkingRepo → Option WorkingRepo → Option FilePath → Option WorkingRepo
unfolding is_root path_eq is_relative_to
declared_by none parent spec = none
declared_by (some root) parent none = none
declared_by (some root) none (some spec) = none
declared_by (some root) (some parent) (some spec) =
    if same_spec root.source_cgs_path spec || is_root parent
    then none
    else if holds_spec parent spec
    then some parent
    else none

abbrev pub declaring : List WorkingRepo → WorkingRepo → Option WorkingRepo
declaring repos entry =
    declared_by (root_of repos) (parent_of repos entry.parent_id) entry.source_cgs_path

-- MountGuard.owner
unfoldable pub owner_within : ℕ → List WorkingRepo → WorkingRepo → Option Text
unfolding declared_by root_of parent_of effective_private
owner_within zero repos entry = none
owner_within (suc fuel) repos entry = elim (declaring repos entry) [
  | none ↦ none
  | some parent ↦
      let above = owner_within fuel repos parent in
      if effective_private parent then above else some parent.name
]

unfoldable pub owner : List WorkingRepo → WorkingRepo → Option Text
unfolding owner_within
owner repos entry = owner_within (suc (length repos)) repos entry

-- MountGuard.depth
unfoldable pub depth_within : ℕ → List WorkingRepo → WorkingRepo → ℕ
unfolding find_repo
depth_within zero repos entry = 0
depth_within (suc fuel) repos entry = elim entry.parent_id [
  | none ↦ 0
  | some p ↦ elim (find_repo repos p) [
    | none ↦ 0
    | some parent ↦ suc (depth_within fuel repos parent)
  ]
]

-- GitTreeBranches.level_of
unfoldable pub level_of : List WorkingRepo → Option Text → Option Text
unfolding root_of as_optional_str text_eq
level_of repos none = none
level_of repos (some branch) = elim (root_of repos) [
  | none ↦ some branch
  | some root ↦ elim (as_optional_str root.target_ref_name) [
    | none ↦ some branch
    | some wanted ↦
        let waiting =
          root.fallback_applied
          && not (elim root.target_ref_kind [ none ↦ false | some k ↦ is_tag k ]) in
        let fallen =
          elim root.fallback_branch [ none ↦ false | some f ↦ text_eq f branch ]
          || text_eq branch main_branch in
        if waiting && not (text_eq wanted branch) && fallen then some wanted else some branch
  ]
]

-- GitTreeBranches.guest
unfoldable pub guest : WorkingGitTree → WorkingRepo → Bool
unfolding root_of is_root behind_gate tree_project_name
guest tree repo = elim (root_of tree.repos) [
  | none ↦ false
  | some root ↦ not (is_root repo) && behind_gate repo (tree_project_name tree) root.fallback_branch
]

-- repository.MOUNT_PATH
abbrev pub mount_path : FilePath
mount_path = codes ".cgitsync" ∷ codes ".memory" ∷ []

unfoldable pub mounted_at : FilePath → List WorkingRepo → Option WorkingRepo
unfolding is_root path_eq
mounted_at mount [] = none
mounted_at mount (r ∷ repos) =
    if not (is_root r) && path_eq r.absolute_path mount then some r else mounted_at mount repos

-- GitTreeBranches.memory
unfoldable pub memory_of : List WorkingRepo → Option WorkingRepo
unfolding root_of mounted_at
memory_of repos = elim (root_of repos) [
  | none ↦ none
  | some root ↦ mounted_at (root.absolute_path ++ mount_path) repos
]

-- GitTreeBranches.in_memory
unfoldable pub within_memory : List WorkingRepo → WorkingRepo → Bool
unfolding memory_of is_relative_to text_eq
within_memory repos repo = elim (memory_of repos) [
  | none ↦ false
  | some m ↦ text_eq repo.repo_id m.repo_id || is_relative_to repo.absolute_path m.absolute_path
]

-- The name that `target` moves a repository to: of a derived repository, the level
unfoldable pub wanted_name : WorkingRepo → Text → Option Text → Bool → Text
unfolding effective_private effective_writable or_else
wanted_name repo ref_name level is_guest =
    if is_guest || effective_private repo && effective_writable repo
    then or_else level ref_name
    else ref_name

-- GitTreeBranches.target
unfoldable pub target :
    WorkingGitTree → WorkingRepo → Text → RefKind → Option Text → BranchResolution
unfolding within_memory owner guest wanted_name resolve_propagated_ref tree_project_name
target tree repo ref_name ref_kind level =
    let twin = tree.memory_twin && within_memory tree.repos repo in
    let is_guest = guest tree repo in
    resolve_propagated_ref repo (wanted_name repo ref_name level is_guest) ref_kind
      (tree_project_name tree) twin (if twin then none else owner tree.repos repo) is_guest

-- The test of one repository in `declare_targets`
abbrev pub derived : WorkingGitTree → WorkingRepo → Bool
derived tree repo =
    not (is_root repo)
    && not (elim repo.target_ref_kind [ none ↦ false | some k ↦ is_tag k ])
    && in_declared repo
    && (effective_private repo && effective_writable repo || guest tree repo)

unfoldable pub declare_from : WorkingGitTree → Text → List WorkingRepo → List WorkingRepo
unfolding guest target is_root effective_private effective_writable
declare_from tree tree_ref [] = []
declare_from tree tree_ref (repo ∷ repos) =
    let name = (target tree repo tree_ref branch_ref none).name in
    (if derived tree repo
      then record repo { target_ref_name = name; default_branch = name }
      else repo)
    ∷ declare_from tree tree_ref repos

-- GitTreeBranches.declare_targets: what `target` reads of the other entries does not change meanwhile.
unfoldable pub declare_targets : WorkingGitTree → WorkingGitTree
unfolding declare_from root_of or_else as_optional_str
declare_targets tree = elim (root_of tree.repos) [
  | none ↦ tree
  | some root ↦ elim (tree_project_name tree) [
    | none ↦ tree
    | some p ↦ record tree {
      repos =
          declare_from tree (or_else (as_optional_str root.target_ref_name) main_branch) tree.repos;
    }
  ]
]

pub record BranchDeviation : Type 0 where
  pub repo : WorkingRepo
  pub expected : Option Text
  pub observed : Text

abbrev pub is_on : Option Text → Text → Bool
is_on none observed = false
is_on (some name) observed = text_eq name observed

-- One step of the loop of `deviations`: Git's answer, and what the rest of the loop gives
unfoldable pub deviation :
    Bool
    → WorkingRepo
    → Option Text
    → Result Text (Option Text)
    → Result Text (List BranchDeviation)
    → Result Text (List BranchDeviation)
unfolding text_eq
deviation ignore repo expected (err message) rest = if ignore then rest else err message
deviation ignore repo expected (ok none) rest = rest
deviation ignore repo expected (ok (some observed)) rest =
    if is_on expected observed
    then rest
    else (rest >>= λ found.
        ok (record { repo = repo; expected = expected; observed = observed } ∷ found))

module _ (current_branch : FilePath → Result Text (Option Text)) where
  -- GitTreeBranches.tree_branch
  unfoldable pub tree_branch : List WorkingRepo → Option Text
  unfolding root_of
  tree_branch repos = elim (root_of repos) [
    | none ↦ none
    | some root ↦ elim (current_branch root.absolute_path) [
      | err message ↦ none
      | ok branch ↦ branch
    ]
  ]

  abbrev pub expected_name : WorkingGitTree → Text → WorkingRepo → Option Text
  expected_name tree branch repo =
      (target tree repo branch branch_ref (level_of tree.repos (some branch))).name

  -- GitTreeBranches.expected
  unfoldable pub expected_branch : WorkingGitTree → WorkingRepo → Option Text
  unfolding tree_branch target level_of
  expected_branch tree repo = elim (tree_branch tree.repos) [
    | none ↦ none
    | some branch ↦ expected_name tree branch repo
  ]

  -- The loop of `deviations`
  unfoldable pub deviations_from :
      Bool → WorkingGitTree → Text → List WorkingRepo → Result Text (List BranchDeviation)
  unfolding target level_of deviation
  deviations_from ignore tree branch [] = ok []
  deviations_from ignore tree branch (repo ∷ repos) =
      deviation ignore repo (expected_name tree branch repo) (current_branch repo.absolute_path)
        (deviations_from ignore tree branch repos)

  -- GitTreeBranches.deviations: `none` is a walk that does not end
  unfoldable pub deviations :
      RepoScope → Bool → WorkingGitTree → Option (Result Text (List BranchDeviation))
  unfolding tree_branch deviations_from iter_tree_leaf_first
  deviations scope ignore tree = elim (tree_branch tree.repos) [
    | none ↦ some (ok [])
    | some branch ↦ elim (iter_tree_leaf_first tree.repos scope) [
      | none ↦ none
      | some repos ↦ some (deviations_from ignore tree branch repos)
    ]
  ]
