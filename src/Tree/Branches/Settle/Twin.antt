-- ===== src/Tree/Branches/Settle/Twin.antt =====
-- `settle_memory_twin` of tree/git_tree_branch.py reads back the branch that `target` gave a twin.
use complex_git_sync.Prelude.{
  ◌≡◌, refl, sym, ap, ◌∙◌, inl, inr, Bool, true, false, Option, none, some, [], ◌∷◌, if◌then◌else◌,
  Bool-cases, Option-cases, false_ne_true, is_empty, Text, text_eq, Result, ok,
}
use complex_git_sync.Repo.{WorkingRepo, FilePath}
use complex_git_sync.Branch.{
  main_branch, as_optional_str, or_else, is_twin_branch, private_local_branch, has_separator,
}
use complex_git_sync.Branch.Twin.{is_twin_branch-private_local_branch}
use complex_git_sync.Tree.{WorkingGitTree}
use complex_git_sync.Tree.Branches.{tree_project_name, root_of, memory_of, declare_targets}
use complex_git_sync.Tree.Branches.Settle.{cloned_branch, memory_branch, settle_memory_twin}

declare_targets-memory_twin :
    (tree : WorkingGitTree) → (declare_targets tree).memory_twin ≡ tree.memory_twin
unfolding declare_targets
declare_targets-memory_twin tree = elim (Option-cases (root_of tree.repos)) [
  | inl rootless ↦ simp (declare_targets, rootless) refl
  | inr (root, has) ↦ elim (Option-cases (tree_project_name tree)) [
    | inl unnamed ↦ simp (declare_targets, has, unnamed) refl
    | inr (p, project) ↦ simp (declare_targets, has, project) refl
  ]
]

twin_nonempty : (p b : Text) → is_empty (private_local_branch p b true none) ≡ false
unfolding private_local_branch
twin_nonempty p b = elim (Bool-cases (text_eq b main_branch)) [
  | inl main ↦ simp (private_local_branch, main) refl
  | inr other ↦ simp (private_local_branch, other) refl
]

or_else-some : (x other : Text) → is_empty x ≡ false → or_else (some x) other ≡ x
unfolding or_else
or_else-some [] other filled = absurd (false_ne_true (sym filled))
or_else-some (c ∷ cs) other filled = refl

module _ (has_git : FilePath → Bool) (current_branch : FilePath → Result Text (Option Text)) where
  memory_branch-cloned_branch :
      (memory : WorkingRepo) (x : Text)
      → cloned_branch has_git current_branch memory ≡ some x
      → is_empty x ≡ false
      → text_eq x (or_else memory.fallback_branch main_branch) ≡ false
      → memory_branch has_git current_branch memory ≡ x
  unfolding memory_branch
  memory_branch-cloned_branch memory x is filled other =
      let rest : Text =
        or_else (as_optional_str memory.current_ref_name)
          (or_else (as_optional_str memory.resolved_ref_name) []) in
      let first : or_else (cloned_branch has_git current_branch memory) rest ≡ x =
        ap (λ o. or_else o rest) is ∙ or_else-some x rest filled in
      ap
        (λ t.
          if text_eq t (or_else memory.fallback_branch main_branch)
          then or_else (as_optional_str memory.target_ref_name) t
          else t)
        first
      ∙ (rw (other) refl)

  -- A memory that has checked out the branch that a twin of the project has, and that is not its
  -- fallback, makes the tree a twin's again.
  pub settle_memory_twin-private_local_branch :
      (tree : WorkingGitTree) (memory : WorkingRepo) (project b : Text)
      → memory_of tree.repos ≡ some memory
      → tree_project_name tree ≡ some project
      → has_git memory.absolute_path ≡ true
      → current_branch memory.absolute_path ≡ ok (some (private_local_branch project b true none))
      → text_eq
          (private_local_branch project b true none)
          (or_else memory.fallback_branch main_branch)
        ≡ false
      → (settle_memory_twin has_git current_branch tree).memory_twin ≡ true
  unfolding settle_memory_twin
  settle_memory_twin-private_local_branch tree memory project b mounted named cloned on other =
      let branch : Text = private_local_branch project b true none in
      let is : cloned_branch has_git current_branch memory
          ≡ some (private_local_branch project b true none) =
        unfold cloned_branch in simp (cloned_branch, cloned, on) refl in
      let read : memory_branch has_git current_branch memory
          ≡ private_local_branch project b true none =
        memory_branch-cloned_branch memory branch is (twin_nonempty project b) other in
      let twin : is_twin_branch project (private_local_branch project b true none) ≡ true =
        (is_twin_branch-private_local_branch project [] b [] (unfold has_separator in refl)).0 in
      let settled : settle_memory_twin has_git current_branch tree
          ≡ declare_targets (record tree { memory_twin = true }) =
        simp (settle_memory_twin, mounted, named, read, twin_nonempty project b, twin) refl in
      ap (λ (t : WorkingGitTree). t.memory_twin) settled
      ∙ declare_targets-memory_twin (record tree { memory_twin = true })
