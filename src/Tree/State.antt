-- ===== src/Tree/State.antt =====
-- `recompute_tree_state` of tree/git_tree.py, and the dev profile.
use complex_git_sync.Prelude.{
  ◌≡◌, refl, ap₂, ◌↔◌, inl, inr, Bool, true, false, ◌||◌, List, [], ◌∷◌, arith, if◌then◌else◌,
  false_ne_true, if_cases, and_left, and_right, any, is_empty,
}
use complex_git_sync.Repo.{
  WorkingRepo, RepoLifecycleState, declared, pending, ready, fallback_ready, missing, error_state,
}
use complex_git_sync.Tree.{
  WorkingGitTree, tree_declared, tree_pending, tree_ready, tree_partial, is_ready, tree_state,
  recompute_tree_state, in_error, in_pending, in_declared, repo_ready, is_settled, every,
  is_complete, TreeLifecycleState, tree_unloaded, tree_error,
}

settled-error :
    (s : RepoLifecycleState)
    → is_settled s ≡ true
    → (elim s [ error_state ↦ true | _ ↦ false ]) ≡ false
settled-error declared h = refl
settled-error pending h = refl
settled-error ready h = refl
settled-error fallback_ready h = refl
settled-error missing h = refl
settled-error error_state h = absurd (false_ne_true h)

repo_ready-settled :
    (r : WorkingRepo) → repo_ready r ≡ true → is_settled r.repo_lifecycle_state ≡ true
repo_ready-settled r h = ground arith

every-in_error :
    (repos : List WorkingRepo) → every repo_ready repos ≡ true → any in_error repos ≡ false
unfolding every
every-in_error [] h = refl
every-in_error (r ∷ repos) h =
    let head : in_error r ≡ false =
      settled-error r.repo_lifecycle_state
        (repo_ready-settled r (and_left (repo_ready r) (every repo_ready repos) h)) in
    let tail = every-in_error repos (and_right (repo_ready r) (every repo_ready repos) h) in
    ap₂ (λ a b. a || b) head tail

is_ready_nonempty : (repos : List WorkingRepo) → is_ready repos ≡ true → is_empty repos ≡ false
unfolding is_ready is_complete
is_ready_nonempty [] h = absurd (false_ne_true h)
is_ready_nonempty (r ∷ repos) h = refl

is_ready-every : (repos : List WorkingRepo) → is_ready repos ≡ true → every repo_ready repos ≡ true
unfolding is_ready
is_ready-every repos h = and_right (is_complete repos) (every repo_ready repos) h

ready_state :
    (empty failed settled : Bool) (rest : TreeLifecycleState)
    → empty ≡ false
    → failed ≡ false
    → settled ≡ true
    → (if empty
        then tree_unloaded
        else if failed
        then tree_error
        else if settled
        then tree_ready
        else rest)
      ≡ tree_ready
ready_state empty failed settled rest e f h = rw (e, f, h) refl

not_ready_state :
    (repos : List WorkingRepo)
    → (if any in_pending repos
        then tree_pending
        else if every in_declared repos
        then tree_declared
        else tree_partial)
      ≡ tree_ready
    → ⊥
not_ready_state repos e = elim (if_cases (any in_pending repos) e) [
  | inl (waits, is) ↦ cc
  | inr (waits_not, e1) ↦ elim (if_cases (every in_declared repos) e1) [
    | inl (all, is) ↦ cc
    | inr (some_not, is) ↦ cc
  ]
]

-- A tree becomes ready exactly when it has repositories, all with their paths and all settled with
-- a commit and a resolved reference.
pub recompute_tree_state-is_ready :
    (tree : WorkingGitTree)
    → ((recompute_tree_state tree).lifecycle_state ≡ tree_ready) ↔ (is_ready tree.repos ≡ true)
unfolding recompute_tree_state tree_state is_ready
recompute_tree_state-is_ready tree = (
  λ e. elim (if_cases (is_empty tree.repos) e) [
    | inl (empty, is) ↦ absurd (cc)
    | inr (filled, e1) ↦ elim (if_cases (any in_error tree.repos) e1) [
      | inl (failed, is) ↦ absurd (cc)
      | inr (fine, e2) ↦ elim (if_cases (is_ready tree.repos) e2) [
        | inl (is, same) ↦ is
        | inr (not_ready, e3) ↦ absurd (not_ready_state tree.repos e3)
      ]
    ]
  ],
  λ h.
      let filled = is_ready_nonempty tree.repos h in
      let fine = every-in_error tree.repos (is_ready-every tree.repos h) in
      ready_state (is_empty tree.repos) (any in_error tree.repos) (is_ready tree.repos) _ filled
        fine h,
)
