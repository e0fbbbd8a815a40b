-- ===== src/Tree/Branches/Deviations.antt =====
-- `deviations` of tree/git_tree_branch.py.
use complex_git_sync.Prelude.{
  ◌≡◌, refl, sym, ap, subst, ◌∙◌, ◌↔◌, inl, inr, Bool, true, false, Option, none, some, List, [],
  ◌∷◌, Bool-cases, some_inj, false_ne_true, none_ne_some, All, Text, text_eq, text_eq_refl,
  text_eq→eq, Result, ◌>>=◌, ok, err,
}
use complex_git_sync.Repo.{WorkingRepo, RepoScope, FilePath}
use complex_git_sync.Tree.{WorkingGitTree}
use complex_git_sync.Tree.Walk.{iter_tree_leaf_first}
use complex_git_sync.Tree.Branches.{
  BranchDeviation, tree_branch, expected_name, is_on, deviation, deviations_from, deviations,
}

-- What is no deviation: a repository on its branch, a detached one, and one that Git cannot answer
-- for, where those are skipped.
abbrev pub Aligned : Bool → Option Text → Result Text (Option Text) → Type 0
Aligned ignore expected (err message) = ignore ≡ true
Aligned ignore expected (ok none) = Unit
Aligned ignore expected (ok (some observed)) = expected ≡ some observed

is_on-some :
    (expected : Option Text) (observed : Text)
    → (is_on expected observed ≡ true) ↔ (expected ≡ some observed)
is_on-some none observed = (λ e. absurd (false_ne_true e), λ e. absurd (none_ne_some e))
is_on-some (some name) observed = (
  λ e. ap some (text_eq→eq name observed e),
  λ e. subst (λ n. text_eq name n ≡ true) (some_inj e) (text_eq_refl name),
)

more_than_none :
    (x : BranchDeviation) (rest : Result Text (List BranchDeviation))
    → (rest >>= λ found. ok (x ∷ found)) ≡ ok []
    → ⊥
more_than_none x (err message) e = cc
more_than_none x (ok found) e = cc

deviation-Aligned :
    (ignore : Bool) (repo : WorkingRepo) (expected : Option Text)
    (answer : Result Text (Option Text)) (rest : Result Text (List BranchDeviation))
    → (deviation ignore repo expected answer rest ≡ ok [])
      ↔ (Aligned ignore expected answer × (rest ≡ ok []))
unfolding deviation
deviation-Aligned true repo expected (err message) rest = (λ e. (refl, e), λ h. h.1)
deviation-Aligned false repo expected (err message) rest =
    (λ e. absurd (cc), λ h. absurd (false_ne_true h.0))
deviation-Aligned ignore repo expected (ok none) rest = (λ e. (tt, e), λ h. h.1)
deviation-Aligned ignore repo expected (ok (some observed)) rest =
    elim (Bool-cases (is_on expected observed)) [
      | inl on ↦ rw (on) (λ e. ((is_on-some expected observed).0 on, e), λ h. h.1)
      | inr off ↦ rw (off) (
        λ e. absurd (more_than_none _ rest e),
        λ h. absurd (false_ne_true (sym off ∙ (is_on-some expected observed).1 h.0)),
      )
    ]

module _ (current_branch : FilePath → Result Text (Option Text)) where
  abbrev pub OnBranch : Bool → WorkingGitTree → Text → WorkingRepo → Type 0
  OnBranch ignore tree branch r =
      Aligned ignore (expected_name current_branch tree branch r) (current_branch r.absolute_path)

  deviations_from-OnBranch :
      (ignore : Bool) (tree : WorkingGitTree) (branch : Text) (repos : List WorkingRepo)
      → (deviations_from current_branch ignore tree branch repos ≡ ok [])
        ↔ All (OnBranch ignore tree branch) repos
  unfolding deviations_from
  deviations_from-OnBranch ignore tree branch [] = (λ e. tt, λ h. refl)
  deviations_from-OnBranch ignore tree branch (r ∷ repos) =
      let step =
        deviation-Aligned ignore r (expected_name current_branch tree branch r)
          (current_branch r.absolute_path)
          (deviations_from current_branch ignore tree branch repos) in
      let ih = deviations_from-OnBranch ignore tree branch repos in
      (λ e. let (here, rest) = step.0 e in (here, ih.0 rest), λ h. step.1 (h.0, ih.1 h.1))

  -- With a branch to measure against, there is no deviation exactly when each repository of the scope
  -- is on its target, is detached, or cannot be read and is skipped.
  pub deviations-OnBranch :
      (scope : RepoScope) (ignore : Bool) (tree : WorkingGitTree) (branch : Text)
      (repos : List WorkingRepo)
      → tree_branch current_branch tree.repos ≡ some branch
      → iter_tree_leaf_first tree.repos scope ≡ some repos
      → (deviations current_branch scope ignore tree ≡ some (ok []))
        ↔ All (OnBranch ignore tree branch) repos
  unfolding deviations
  deviations-OnBranch scope ignore tree branch repos on visits =
      let is : deviations current_branch scope ignore tree
          ≡ some (deviations_from current_branch ignore tree branch repos) =
        simp (deviations, on, visits) refl in
      let loop = deviations_from-OnBranch ignore tree branch repos in
      (λ e. loop.0 (some_inj (sym is ∙ e)), λ h. is ∙ ap some (loop.1 h))
