-- ===== src/Tree/Walk.antt =====
-- The traversals of tree/git_tree.py. `none` is a walk_stack that the fuel does not finish.
pub mod Order
use complex_git_sync.Prelude.{ℕ, zero, suc, Option, none, some, List, [], ◌∷◌, ◌++◌, length, filter}
use complex_git_sync.Repo.{WorkingRepo, RepoScope, includes}
use complex_git_sync.Tree.{children_of}

-- The loop of `_iter_tree`: the head of the stack is its top.
unfoldable pub walk_stack : ℕ → List WorkingRepo → List WorkingRepo → Option (List WorkingRepo)
unfolding children_of
walk_stack fuel repos [] = some []
walk_stack zero repos (entry ∷ stack) = none
walk_stack (suc fuel) repos (entry ∷ stack) =
    elim (walk_stack fuel repos (children_of repos (some entry.repo_id) ++ stack)) [
      | none ↦ none
      | some rest ↦ some (entry ∷ rest)
    ]

-- _iter_tree
unfoldable pub iter_all : List WorkingRepo → Option (List WorkingRepo)
unfolding walk_stack
iter_all repos = walk_stack (length repos) repos (children_of repos none)

-- iter_tree
unfoldable pub iter_tree : List WorkingRepo → RepoScope → Option (List WorkingRepo)
unfolding iter_all filter includes
iter_tree repos scope = elim (iter_all repos) [
  | none ↦ none
  | some out ↦ some (filter (includes scope) out)
]

unfoldable pub reversed : List WorkingRepo → List WorkingRepo
reversed [] = []
reversed (r ∷ repos) = reversed repos ++ r ∷ []

-- iter_tree_leaf_first
unfoldable pub iter_tree_leaf_first : List WorkingRepo → RepoScope → Option (List WorkingRepo)
unfolding iter_tree reversed
iter_tree_leaf_first repos scope = elim (iter_tree repos scope) [
  | none ↦ none
  | some out ↦ some (reversed out)
]
