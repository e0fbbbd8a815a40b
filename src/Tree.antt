-- ===== src/Tree.antt =====
-- tree/git_tree.py: the registry of the repositories of one tree. A repository is kept under its own
-- `repo_id`, which `add` is alone to set, so the dictionary is the list of its values.
pub mod Registry
pub mod Propagate
pub mod Walk
pub mod State
pub mod Branches
pub mod Cycles
use complex_git_sync.Prelude.{
  Bool, true, false, ◌&&◌, ◌||◌, not, Option, none, some, List, [], ◌∷◌, ◌++◌, if◌then◌else◌, any,
  is_empty, Text, codes, text_eq, text_lt, sorted, filter,
}
use complex_git_sync.Repo.{
  WorkingRepo, FilePath, root_node, parent_node, leaf_node, RepoLifecycleState, declared, pending,
  ready, fallback_ready, error_state, effective_private,
}

pub data TreeLifecycleState : Type 0 where
  tree_unloaded tree_declared tree_discovering tree_pending tree_ready : TreeLifecycleState
  tree_partial tree_error : TreeLifecycleState

pub data TreeProfile : Type 0 where
  user dev : TreeProfile

abbrev pub root_repo_id : Text
root_repo_id = codes "root"

-- The parts of `WorkingGitTree` that change after it was built.
pub record WorkingGitTree : Type 0 where
  pub repos : List WorkingRepo
  pub project_name : Option Text
  pub lifecycle_state : TreeLifecycleState
  pub memory_twin : Bool

-- tree.repos.get(repo_id)
unfoldable pub find_repo : List WorkingRepo → Text → Option WorkingRepo
find_repo [] repo_id = none
find_repo (r ∷ repos) repo_id =
    if text_eq r.repo_id repo_id then some r else find_repo repos repo_id

-- self.repos[repo.repo_id] = repo
unfoldable pub put_repo : List WorkingRepo → WorkingRepo → List WorkingRepo
put_repo [] repo = repo ∷ []
put_repo (r ∷ repos) repo =
    if text_eq r.repo_id repo.repo_id then repo ∷ repos else r ∷ put_repo repos repo

-- WorkingGitTree.add; the root names a tree that has no name
unfoldable pub add_repo : WorkingGitTree → WorkingRepo → WorkingGitTree
unfolding put_repo text_eq
add_repo tree repo = record tree {
  repos = put_repo tree.repos repo;
  project_name = elim tree.project_name [
    | some n ↦ some n
    | none ↦ if text_eq repo.repo_id root_repo_id then some repo.name else none
  ];
}

-- Path.as_posix, of a relative path
unfoldable pub as_posix : FilePath → Text
as_posix [] = codes "."
as_posix (p ∷ []) = p
as_posix (p ∷ q ∷ ps) = p ++ b'/' ∷ as_posix (q ∷ ps)

abbrev pub parent_is : Option Text → WorkingRepo → Bool
parent_is none r = elim r.parent_id [ none ↦ true | some p ↦ false ]
parent_is (some parent) r = elim r.parent_id [ none ↦ false | some p ↦ text_eq p parent ]

abbrev pub path_key : WorkingRepo → Text
path_key r = elim r.relative_path [ none ↦ [] | some p ↦ as_posix p ]

unfoldable pub child_lt : WorkingRepo → WorkingRepo → Bool
unfolding as_posix
child_lt a b =
    text_lt (path_key a) (path_key b) || text_eq (path_key a) (path_key b) && text_lt a.name b.name

-- WorkingGitTree.children_of
unfoldable pub children_of : List WorkingRepo → Option Text → List WorkingRepo
unfolding filter child_lt
children_of repos parent = sorted child_lt (filter (parent_is parent) repos)

-- The test of one repository in `is_complete`; every entry has an absolute path.
abbrev pub has_paths : WorkingRepo → Bool
has_paths r = r.is_reachable && elim r.parent_id [
  | none ↦ true
  | some p ↦ elim r.relative_path [ none ↦ false | some q ↦ true ]
]

unfoldable pub every : (WorkingRepo → Bool) → List WorkingRepo → Bool
every test [] = true
every test (r ∷ repos) = test r && every test repos

-- WorkingGitTree.is_complete
unfoldable pub is_complete : List WorkingRepo → Bool
unfolding every
is_complete repos = not (is_empty repos) && every has_paths repos

abbrev pub is_named : Option Text → Bool
is_named none = false
is_named (some t) = not (is_empty t)

abbrev pub is_settled : RepoLifecycleState → Bool
is_settled ready = true
is_settled fallback_ready = true
is_settled _ = false

-- The test of one repository in `is_ready`
abbrev pub repo_ready : WorkingRepo → Bool
repo_ready r =
    is_settled r.repo_lifecycle_state
    && is_named r.commit_sha
    && elim r.resolved_ref_kind [ none ↦ false | some k ↦ true ]
    && is_named r.resolved_ref_name

-- WorkingGitTree.is_ready
unfoldable pub is_ready : List WorkingRepo → Bool
unfolding is_complete every
is_ready repos = is_complete repos && every repo_ready repos

abbrev pub in_error : WorkingRepo → Bool
in_error r = elim r.repo_lifecycle_state [ error_state ↦ true | _ ↦ false ]

abbrev pub in_pending : WorkingRepo → Bool
in_pending r = elim r.repo_lifecycle_state [ pending ↦ true | _ ↦ false ]

abbrev pub in_declared : WorkingRepo → Bool
in_declared r = elim r.repo_lifecycle_state [ declared ↦ true | _ ↦ false ]

unfoldable pub tree_state : List WorkingRepo → TreeLifecycleState
unfolding is_ready every
tree_state repos =
    if is_empty repos
    then tree_unloaded
    else if any in_error repos
    then tree_error
    else if is_ready repos
    then tree_ready
    else if any in_pending repos
    then tree_pending
    else if every in_declared repos
    then tree_declared
    else tree_partial

-- WorkingGitTree.recompute_tree_state
unfoldable pub recompute_tree_state : WorkingGitTree → WorkingGitTree
unfolding tree_state
recompute_tree_state tree = record tree { lifecycle_state = tree_state tree.repos }

-- WorkingGitTree.profile
unfoldable pub profile : List WorkingRepo → TreeProfile
unfolding effective_private
profile repos = if any effective_private repos then dev else user

-- WorkingGitTree.require_dev: `false` is the `GitSyncError`
unfoldable pub require_dev : List WorkingRepo → Bool
unfolding profile
require_dev repos = elim (profile repos) [ dev ↦ true | user ↦ false ]

unfoldable pub is_parent_of_some : List WorkingRepo → Text → Bool
unfolding text_eq
is_parent_of_some [] repo_id = false
is_parent_of_some (r ∷ repos) repo_id =
    elim r.parent_id [ none ↦ false | some p ↦ text_eq p repo_id ]
    || is_parent_of_some repos repo_id

unfoldable pub typed : List WorkingRepo → List WorkingRepo → List WorkingRepo
unfolding is_parent_of_some
typed whole [] = []
typed whole (r ∷ repos) =
    record r {
      node_type =
          if text_eq r.repo_id root_repo_id
          then root_node
          else if is_parent_of_some whole r.repo_id
          then parent_node
          else leaf_node;
    }
    ∷ typed whole repos

-- normalize_node_types
unfoldable pub normalize_node_types : List WorkingRepo → List WorkingRepo
unfolding typed
normalize_node_types repos = typed repos repos
