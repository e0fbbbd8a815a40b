-- ===== src/Tree/Registry.antt =====
-- The registry of tree/git_tree.py as a dictionary: one entry for an identifier.
use complex_git_sync.Prelude.{
  Option, none, ◌∙◌, ◌≤◌, ◌≡◌, refl, sym, ap, subst, inl, inr, Bool, true, false, some, List, [],
  ◌∷◌, arith, if◌then◌else◌, Bool-cases, none_ne_some, if_cases, All, All-weaken, Text, text_eq,
  text_eq_refl, text_eq→eq, count_if,
}
use complex_git_sync.Repo.{WorkingRepo}
use complex_git_sync.Tree.{WorkingGitTree, root_repo_id, find_repo, put_repo, add_repo}

unfoldable pub has_id : Text → WorkingRepo → Bool
has_id id r = text_eq r.repo_id id

-- No two entries have one identifier.
unfoldable pub DistinctIds : List WorkingRepo → Type 0
DistinctIds repos = (id : Text) → count_if (has_id id) repos ≤ 1

-- Each entry is the one that is found under its identifier.
abbrev pub IsRegistry : List WorkingRepo → List WorkingRepo → Type 0
IsRegistry repos rest = All (λ r. find_repo repos r.repo_id ≡ some r) rest

has_id-swap :
    (r s : WorkingRepo) (id : Text) → text_eq r.repo_id s.repo_id ≡ true → has_id id r ≡ has_id id s
unfolding has_id
has_id-swap r s id same = ap (λ i. text_eq i id) (text_eq→eq r.repo_id s.repo_id same)

put_repo-other :
    (repos : List WorkingRepo) (repo : WorkingRepo) (id : Text)
    → text_eq repo.repo_id id ≡ false
    → count_if (has_id id) (put_repo repos repo) ≡ count_if (has_id id) repos
unfolding put_repo has_id
put_repo-other [] repo id other = ground arith
put_repo-other (r ∷ repos) repo id other = elim (Bool-cases (text_eq r.repo_id repo.repo_id)) [
  | inl same ↦ let swap = has_id-swap r repo id same in rw (same) (ground arith)
  | inr differ ↦ let ih = put_repo-other repos repo id other in rw (differ) (ground arith)
]

put_repo-same :
    (repos : List WorkingRepo) (repo : WorkingRepo)
    → count_if (has_id repo.repo_id) repos ≤ 1
    → count_if (has_id repo.repo_id) (put_repo repos repo) ≤ 1
unfolding put_repo has_id
put_repo-same [] repo le = ground arith
put_repo-same (r ∷ repos) repo le = elim (Bool-cases (text_eq r.repo_id repo.repo_id)) [
  | inl same ↦ let swap = text_eq_refl repo.repo_id in rw (same) (ground arith)
  | inr differ ↦ let ih = put_repo-same repos repo (ground arith) in rw (differ) (ground arith)
]

find_repo-put_repo :
    (repos : List WorkingRepo) (repo : WorkingRepo) (id : Text)
    → find_repo (put_repo repos repo) id
      ≡ (if text_eq repo.repo_id id then some repo else find_repo repos id)
unfolding put_repo find_repo has_id
find_repo-put_repo [] repo id = refl
find_repo-put_repo (r ∷ repos) repo id = elim (Bool-cases (text_eq r.repo_id repo.repo_id)) [
  | inl same ↦
      let swap = has_id-swap r repo id same in
      rw (same, swap)
        (elim (Bool-cases (text_eq repo.repo_id id)) [
          | inl itself ↦ rw (itself) refl
          | inr not_it ↦ rw (not_it) refl
        ])
  | inr differ ↦
      let ih = find_repo-put_repo repos repo id in
      rw (differ, ih)
        (elim (Bool-cases (text_eq repo.repo_id id)) [
          | inl itself ↦
              let not_r : text_eq r.repo_id id ≡ false =
                subst (λ i. text_eq r.repo_id i ≡ false) (text_eq→eq repo.repo_id id itself)
                  differ in
              rw (itself, not_r) refl
          | inr not_it ↦ rw (not_it) refl
        ])
]

-- A registry stays one under `add`, which is found and hides no other entry.
pub add_repo-DistinctIds :
    (tree : WorkingGitTree) (repo : WorkingRepo)
    → DistinctIds tree.repos
    → DistinctIds (add_repo tree repo).repos
      × ((id : Text)
          → find_repo (add_repo tree repo).repos id
            ≡ (if text_eq repo.repo_id id then some repo else find_repo tree.repos id))
unfolding add_repo DistinctIds
add_repo-DistinctIds tree repo distinct = (
  λ id. elim (Bool-cases (text_eq repo.repo_id id)) [
    | inl same ↦
        subst (λ i. count_if (has_id i) (put_repo tree.repos repo) ≤ 1)
          (text_eq→eq repo.repo_id id same) (put_repo-same tree.repos repo (distinct repo.repo_id))
    | inr other ↦ subst (λ n. n ≤ 1) (sym (put_repo-other tree.repos repo id other)) (distinct id)
  ],
  find_repo-put_repo tree.repos repo,
)

-- The tree after the repositories were added in order.
unfoldable pub add_all : WorkingGitTree → List WorkingRepo → WorkingGitTree
unfolding add_repo
add_all tree [] = tree
add_all tree (repo ∷ given) = add_all (add_repo tree repo) given

-- The last of the repositories with an identifier, or else what was there
unfoldable pub last_with : Text → Option WorkingRepo → List WorkingRepo → Option WorkingRepo
last_with id found [] = found
last_with id found (repo ∷ given) =
    last_with id (if text_eq repo.repo_id id then some repo else found) given

-- The name of the first of the repositories that is the root
unfoldable pub first_root : List WorkingRepo → Option Text
first_root [] = none
first_root (repo ∷ given) =
    if text_eq repo.repo_id root_repo_id then some repo.name else first_root given

-- The name that the project has afterwards
unfoldable pub named_by : Option Text → List WorkingRepo → Option Text
unfolding first_root
named_by none given = first_root given
named_by (some name) given = some name

name_step :
    (name : Option Text) (repo : WorkingRepo) (given : List WorkingRepo)
    → named_by
        (elim name [
          | some n ↦ some n
          | none ↦ if text_eq repo.repo_id root_repo_id then some repo.name else none
        ])
        given
      ≡ named_by name (repo ∷ given)
unfolding named_by first_root
name_step (some n) repo given = refl
name_step none repo given = elim (Bool-cases (text_eq repo.repo_id root_repo_id)) [
  | inl root ↦ rw (root) refl
  | inr other ↦ rw (other) refl
]

name_kept : (name : Option Text) → name ≡ named_by name []
unfolding named_by first_root
name_kept none = refl
name_kept (some n) = refl

-- A tree with one entry for an identifier, to which repositories are added in order, keeps one entry
-- for an identifier, finds the last one that was added under it, or else the one that it had, and has
-- the name that it had, or else that of the first root.
pub add_all-DistinctIds :
    (given : List WorkingRepo) (tree : WorkingGitTree)
    → DistinctIds tree.repos
    → DistinctIds (add_all tree given).repos
      × ((id : Text)
          → find_repo (add_all tree given).repos id ≡ last_with id (find_repo tree.repos id) given)
      × ((add_all tree given).project_name ≡ named_by tree.project_name given)
unfolding add_all last_with
add_all-DistinctIds [] tree distinct = (distinct, λ id. refl, name_kept tree.project_name)
add_all-DistinctIds (repo ∷ given) tree distinct =
    let (once, found) = add_repo-DistinctIds tree repo distinct in
    let (all, last, name) = add_all-DistinctIds given (add_repo tree repo) once in
    (
      all,
      λ id. last id ∙ ap (λ o. last_with id o given) (found id),
      name ∙ unfold add_repo in name_step tree.project_name repo given,
    )

find_repo-counted :
    (repos : List WorkingRepo) (id : Text) (r : WorkingRepo)
    → find_repo repos id ≡ some r
    → 1 ≤ count_if (has_id id) repos
unfolding find_repo has_id
find_repo-counted [] id r e = absurd (none_ne_some e)
find_repo-counted (s ∷ repos) id r e = elim (if_cases (text_eq s.repo_id id) e) [
  | inl (same, is) ↦ ground arith
  | inr (other, rest) ↦ let ih = find_repo-counted repos id r rest in ground arith
]

pub DistinctIds-IsRegistry : (repos : List WorkingRepo) → DistinctIds repos → IsRegistry repos repos
unfolding DistinctIds find_repo has_id
DistinctIds-IsRegistry [] distinct = tt
DistinctIds-IsRegistry (r ∷ repos) distinct =
    let tail : DistinctIds repos = λ id. let d = distinct id in ground arith in
    let keep : (s : WorkingRepo)
        → find_repo repos s.repo_id ≡ some s
        → (if text_eq r.repo_id s.repo_id then some r else find_repo repos s.repo_id) ≡ some s =
      λ s found.
        let once = find_repo-counted repos s.repo_id s found in
        let d = distinct s.repo_id in
        elim (Bool-cases (text_eq r.repo_id s.repo_id)) [
          | inl same ↦ absurd (ground arith)
          | inr other ↦ rw (other) found
        ] in
    (
      rw (text_eq_refl r.repo_id) refl,
      All-weaken _ _ repos keep (DistinctIds-IsRegistry repos tail),
    )
