-- ===== src/Tree/Branches/Owner.antt =====
-- The owner of a private mount, of tree/mount_guard.py.
use complex_git_sync.Prelude.{
  ℕ, zero, suc, ◌+◌, ◌≤◌, ◌<◌, ◌≡◌, refl, sym, ap, subst, ◌∙◌, inl, inr, false, ◌||◌, Option, none,
  some, List, [], ◌∷◌, arith, if◌then◌else◌, Option-cases, some_inj, none_ne_some, if_cases,
  or_right, length, Text,
}
use complex_git_sync.Repo.{WorkingRepo, FilePath, effective_private}
use complex_git_sync.Tree.{find_repo}
use complex_git_sync.Tree.Propagate.Lookup.{found_id}
use complex_git_sync.Tree.Branches.{
  root_of, is_root, parent_of, same_spec, holds_spec, declared_by, declaring, owner_within, owner,
}

declared_by-parent :
    (root parent : Option WorkingRepo) (spec : Option FilePath) (p : WorkingRepo)
    → declared_by root parent spec ≡ some p
    → (parent ≡ some p) × (is_root p ≡ false)
unfolding declared_by
declared_by-parent none parent spec p e = absurd (none_ne_some e)
declared_by-parent (some root) parent none p e = absurd (none_ne_some e)
declared_by-parent (some root) none (some spec) p e = absurd (none_ne_some e)
declared_by-parent (some root) (some parent) (some spec) p e =
    elim (if_cases (same_spec root.source_cgs_path spec || is_root parent) e) [
      | inl (stops, none_is) ↦ absurd (none_ne_some none_is)
      | inr (goes, e2) ↦ elim (if_cases (holds_spec parent spec) e2) [
        | inr (other, none_is) ↦ absurd (none_ne_some none_is)
        | inl (held, is) ↦ (
          is,
          subst (λ q. is_root q ≡ false) (some_inj is)
              (or_right (same_spec root.source_cgs_path spec) (is_root parent) goes),
        )
      ]
    ]

-- The entries above an entry.
pub data Above (repos : List WorkingRepo) : WorkingRepo → WorkingRepo → Type 0 where
  next : (r p : WorkingRepo) → parent_of repos r.parent_id ≡ some p → Above repos r p
  further :
      (r p a : WorkingRepo)
      → parent_of repos r.parent_id ≡ some p
      → Above repos p a
      → Above repos r a

-- A depth of the entries, smaller for a parent: there is no cycle.
pub record Deep (repos : List WorkingRepo) (rank : Text → ℕ) : Type 0 where
  pub parent_lower :
      (r p : WorkingRepo)
      → find_repo repos r.repo_id ≡ some r
      → parent_of repos r.parent_id ≡ some p
      → rank p.repo_id < rank r.repo_id
  pub bounded : (id : Text) → rank id ≤ length repos

-- An owner is the name of a project repository above the entry, and not of the root.
abbrev pub NamesOwner : List WorkingRepo → WorkingRepo → Text → Type 0
NamesOwner repos r name =
    (p : WorkingRepo) × Above repos r p
    × (p.name ≡ name)
    × (effective_private p ≡ false)
    × (is_root p ≡ false)

owner_within-NamesOwner :
    (fuel : ℕ) (repos : List WorkingRepo) (r : WorkingRepo) (name : Text)
    → owner_within fuel repos r ≡ some name
    → NamesOwner repos r name
unfolding owner_within
owner_within-NamesOwner zero repos r name e = absurd (none_ne_some e)
owner_within-NamesOwner (suc fuel) repos r name e = elim (Option-cases (declaring repos r)) [
  | inl alone ↦ absurd (none_ne_some (sym (simp (owner_within, alone) refl) ∙ e))
  | inr (p, under) ↦
      let (is_parent, not_root) =
        declared_by-parent (root_of repos) (parent_of repos r.parent_id) r.source_cgs_path p
          under in
      let step : owner_within (suc fuel) repos r
          ≡ (if effective_private p then owner_within fuel repos p else some p.name) =
        simp (owner_within, under) refl in
      elim (if_cases (effective_private p) (sym step ∙ e)) [
        | inr (project, is) ↦ (p, next r p is_parent, some_inj is, project, not_root)
        | inl (private, is) ↦
            let (q, above, named, project, other) = owner_within-NamesOwner fuel repos p name is in
            (q, further r p q is_parent above, named, project, other)
      ]
]

parent_of-found :
    (repos : List WorkingRepo) (o : Option Text) (p : WorkingRepo)
    → parent_of repos o ≡ some p
    → find_repo repos p.repo_id ≡ some p
unfolding parent_of
parent_of-found repos none p e = absurd (none_ne_some e)
parent_of-found repos (some []) p e = absurd (none_ne_some e)
parent_of-found repos (some (c ∷ cs)) p e =
    subst (λ i. find_repo repos i ≡ some p) (sym (found_id repos (c ∷ cs) p e)) e

owner_within-enough :
    (f g : ℕ) (repos : List WorkingRepo) (rank : Text → ℕ) (r : WorkingRepo)
    → Deep repos rank
    → find_repo repos r.repo_id ≡ some r
    → rank r.repo_id < f
    → rank r.repo_id < g
    → owner_within f repos r ≡ owner_within g repos r
unfolding owner_within
owner_within-enough zero g repos rank r deep found lf lg = absurd (omega arith)
owner_within-enough (suc f) zero repos rank r deep found lf lg = absurd (omega arith)
owner_within-enough (suc f) (suc g) repos rank r deep found lf lg =
    elim (Option-cases (declaring repos r)) [
      | inl alone ↦ simp (owner_within, alone) refl
      | inr (p, under) ↦
          let (is_parent, not_root) =
            declared_by-parent (root_of repos) (parent_of repos r.parent_id) r.source_cgs_path p
              under in
          let lower = deep.parent_lower r p found is_parent in
          let ih =
            owner_within-enough f g repos rank p deep
              (parent_of-found repos r.parent_id p is_parent) (omega arith) (omega arith) in
          let left : owner_within (suc f) repos r
              ≡ (if effective_private p then owner_within f repos p else some p.name) =
            simp (owner_within, under) refl in
          let right : owner_within (suc g) repos r
              ≡ (if effective_private p then owner_within g repos p else some p.name) =
            simp (owner_within, under) refl in
          left ∙ ap (λ o. if effective_private p then o else some p.name) ih ∙ sym right
    ]

-- Without a cycle of parents, the search for an owner ends: a deeper search finds the same, and what
-- it finds names a project repository above the entry.
pub owner-NamesOwner :
    (repos : List WorkingRepo) (rank : Text → ℕ) (r : WorkingRepo)
    → Deep repos rank
    → find_repo repos r.repo_id ≡ some r
    → ((more : ℕ) → owner_within (suc (length repos) + more) repos r ≡ owner repos r)
      × ((name : Text) → owner repos r ≡ some name → NamesOwner repos r name)
unfolding owner
owner-NamesOwner repos rank r deep found =
    let bound = deep.bounded r.repo_id in
    (
      λ more.
          owner_within-enough (suc (length repos) + more) (suc (length repos)) repos rank r deep
            found (omega arith) (omega arith),
      λ name e. owner_within-NamesOwner (suc (length repos)) repos r name e,
    )
