-- ===== src/Tree/Propagate.antt =====
-- `propagate_privacy` of tree/git_tree.py: each parent's privacy, pushed down.
pub mod Lookup
pub mod Privacy
pub mod Subtree
use complex_git_sync.Prelude.{
  ℕ, zero, suc, Bool, true, false, ◌&&◌, ◌||◌, not, Option, none, some, List, [], ◌∷◌,
  if◌then◌else◌, length, is_empty, Text, text_eq,
}
use complex_git_sync.Repo.{WorkingRepo}
use complex_git_sync.Tree.{find_repo}

-- The flags of an entry, private and writable.
abbrev pub Flags : Type 0
Flags = Bool × Bool

-- `resolved`: the answers so far, by `repo_id`
abbrev pub Answers : Type 0
Answers = List (Text × Flags)

unfoldable pub answer_of : Answers → Text → Option Flags
answer_of [] repo_id = none
answer_of ((k, flags) ∷ answers) repo_id =
    if text_eq k repo_id then some flags else answer_of answers repo_id

unfoldable pub is_in : Text → List Text → Bool
is_in t [] = false
is_in t (u ∷ us) = text_eq u t || is_in t us

-- The parent that counts: it is there, and it is not the entry itself.
unfoldable pub parent_under : List WorkingRepo → Text → Option Text → Option WorkingRepo
unfolding find_repo
parent_under repos repo_id none = none
parent_under repos repo_id (some p) =
    if is_empty p then none else if text_eq p repo_id then none else find_repo repos p

abbrev pub parent_in : List WorkingRepo → WorkingRepo → Option WorkingRepo
parent_in repos r = parent_under repos r.repo_id r.parent_id

abbrev pub declared_flags : WorkingRepo → Flags
declared_flags r = (r.private, r.writable)

-- The rule for an entry under a parent with the given flags.
unfoldable pub inherit : WorkingRepo → Flags → Flags
inherit r (parent_private, parent_writable) =
    if not parent_private
    then declared_flags r
    else if r.private
    then (true, r.writable && parent_writable)
    else (true, parent_writable)

-- The inner function `resolve`: the fuel bounds the depth, since no entry is resolved within itself.
unfoldable pub resolve : ℕ → List WorkingRepo → List Text → Answers → WorkingRepo → Flags × Answers
unfolding answer_of is_in parent_under inherit
resolve zero repos resolving resolved r = (declared_flags r, resolved)
resolve (suc fuel) repos resolving resolved r = elim (answer_of resolved r.repo_id) [
  | some flags ↦ (flags, resolved)
  | none ↦ elim (is_in r.repo_id resolving) [
    | true ↦ (declared_flags r, resolved)
    | false ↦ elim (parent_in repos r) [
      | none ↦ (declared_flags r, (r.repo_id, declared_flags r) ∷ resolved)
      | some p ↦
          let (flags, after) = resolve fuel repos (r.repo_id ∷ resolving) resolved p in
          (inherit r flags, (r.repo_id, inherit r flags) ∷ after)
    ]
  ]
]

abbrev pub with_flags : WorkingRepo → Flags → WorkingRepo
with_flags r flags = record r {
  propagated_private = some flags.0;
  propagated_writable = some flags.1;
}

-- The loop over the entries.
unfoldable pub propagate_from : List WorkingRepo → Answers → List WorkingRepo → List WorkingRepo
unfolding resolve
propagate_from repos resolved [] = []
propagate_from repos resolved (r ∷ rest) =
    let (flags, after) = resolve (suc (length repos)) repos [] resolved r in
    with_flags r flags ∷ propagate_from repos after rest

-- propagate_privacy
unfoldable pub propagate_privacy : List WorkingRepo → List WorkingRepo
unfolding propagate_from
propagate_privacy repos = propagate_from repos [] repos
