-- ===== src/Tree/Branches/Settle.antt =====
-- What tree/git_tree_branch.py reads back from Git: whether the memory is a twin's, and the branches
-- where a State recorded a tag. `has_git` is whether a path holds a `.git`.
pub mod Twin
use complex_git_sync.Prelude.{
  Bool, true, false, ◌&&◌, ◌||◌, not, Option, none, some, List, [], ◌∷◌, if◌then◌else◌, is_empty,
  Text, text_eq, Result, ok, err,
}
use complex_git_sync.Repo.{WorkingRepo, FilePath, RefKind, branch_ref}
use complex_git_sync.Branch.{main_branch, as_optional_str, or_else, is_tag, is_twin_branch}
use complex_git_sync.Tree.{WorkingGitTree, put_repo}
use complex_git_sync.Tree.Walk.{iter_all}
use complex_git_sync.Tree.Branches.{tree_project_name, root_of, memory_of, declare_targets}

abbrev pub tag_kind : Option RefKind → Bool
tag_kind none = false
tag_kind (some k) = is_tag k

module _ (has_git : FilePath → Bool) (current_branch : FilePath → Result Text (Option Text)) where
  -- The branch that Git has checked out, where there is a clone
  unfoldable pub cloned_branch : WorkingRepo → Option Text
  cloned_branch r =
      if has_git r.absolute_path
      then elim (current_branch r.absolute_path) [ err message ↦ none | ok branch ↦ branch ]
      else none

  -- The branch of the memory in `settle_memory_twin`; an empty name counts as none
  unfoldable pub memory_branch : WorkingRepo → Text
  unfolding cloned_branch or_else as_optional_str text_eq
  memory_branch memory =
      let recorded = or_else (cloned_branch memory) (
        or_else (as_optional_str memory.current_ref_name)
          (or_else (as_optional_str memory.resolved_ref_name) [])) in
      if text_eq recorded (or_else memory.fallback_branch main_branch)
      then or_else (as_optional_str memory.target_ref_name) recorded
      else recorded

  -- GitTreeBranches.settle_memory_twin: the tree has the answer as its `memory_twin`
  unfoldable pub settle_memory_twin : WorkingGitTree → WorkingGitTree
  unfolding memory_of memory_branch is_twin_branch declare_targets tree_project_name
  settle_memory_twin tree = elim (memory_of tree.repos) [
    | none ↦ tree
    | some memory ↦ elim (tree_project_name tree) [
      | none ↦ tree
      | some project ↦
          let branch = memory_branch memory in
          if not (is_empty branch) && is_twin_branch project branch
          then declare_targets (record tree { memory_twin = true })
          else tree
    ]
  ]

  -- repo.resolved_ref_name or repo.current_ref_name
  abbrev pub recorded_tag : WorkingRepo → Option Text
  recorded_tag r = elim r.resolved_ref_name [
    | none ↦ r.current_ref_name
    | some [] ↦ r.current_ref_name
    | some (c ∷ cs) ↦ some (c ∷ cs)
  ]

  abbrev pub same_option : Option Text → Option Text → Bool
  same_option none none = true
  same_option (some a) (some b) = text_eq a b
  same_option _ _ = false

  -- The repository, recorded on the branch
  unfoldable pub on_branch : WorkingRepo → Text → WorkingRepo
  unfolding text_eq
  on_branch r branch =
      let moves = tag_kind r.target_ref_kind && same_option r.target_ref_name (recorded_tag r) in
      record r {
        target_ref_kind = if moves then some branch_ref else r.target_ref_kind;
        target_ref_name = if moves then some branch else r.target_ref_name;
        current_ref_kind = some branch_ref;
        resolved_ref_kind = some branch_ref;
        current_ref_name = some branch;
        resolved_ref_name = some branch;
      }

  -- One step of the loop of `settle_recorded_tags`: the repository if it was settled
  unfoldable pub settle_one : WorkingRepo → Option WorkingRepo
  unfolding on_branch cloned_branch
  settle_one r =
      if tag_kind r.current_ref_kind || tag_kind r.resolved_ref_kind
      then elim (cloned_branch r) [ none ↦ none | some branch ↦ some (on_branch r branch) ]
      else none

  unfoldable pub settle_from : List WorkingRepo → List WorkingRepo → List WorkingRepo × List Text
  unfolding settle_one put_repo
  settle_from repos [] = (repos, [])
  settle_from repos (r ∷ order) = elim (settle_one r) [
    | none ↦ settle_from repos order
    | some s ↦ let (after, names) = settle_from (put_repo repos s) order in (after, r.name ∷ names)
  ]

  -- GitTreeBranches.settle_recorded_tags: the tree and the names that it settled; `none` is a walk
  -- that does not end
  unfoldable pub settle_recorded_tags : WorkingGitTree → Option (WorkingGitTree × List Text)
  unfolding root_of iter_all settle_from
  settle_recorded_tags tree = elim (root_of tree.repos) [
    | none ↦ some (tree, [])
    | some root ↦
        if tag_kind root.target_ref_kind
        then elim (iter_all tree.repos) [
          | none ↦ none
          | some order ↦
              let (after, names) = settle_from tree.repos order in
              some (record tree { repos = after }, names)
        ]
        else some (tree, [])
  ]
