-- ===== src/Tree/Propagate/Subtree.antt =====
-- The subtree of a private entry after `propagate_privacy` (tree/git_tree.py).
use complex_git_sync.Prelude.{
  ℕ, ◌≡◌, refl, sym, ap, subst, ◌∙◌, inl, inr, Bool, true, false, ◌||◌, not, some, List, Bool-cases,
  some_inj, false_ne_true, and_right, All, Text,
}
use complex_git_sync.Repo.{WorkingRepo, effective_private, effective_writable}
use complex_git_sync.Tree.{find_repo}
use complex_git_sync.Tree.Registry.{DistinctIds}
use complex_git_sync.Tree.Propagate.{Flags, parent_in, inherit, with_flags, propagate_privacy}
use complex_git_sync.Tree.Propagate.Lookup.{Follows, find_repo-with_flags, All-find_repo}
use complex_git_sync.Tree.Propagate.Privacy.{Ranked, propagate_privacy-Follows}

-- The entries below an entry.
pub data Below (repos : List WorkingRepo) : WorkingRepo → WorkingRepo → Type 0 where
  child :
      (r p : WorkingRepo)
      → find_repo repos r.repo_id ≡ some r
      → parent_in repos r ≡ some p
      → Below repos r p
  deeper :
      (r p a : WorkingRepo)
      → find_repo repos r.repo_id ≡ some r
      → parent_in repos r ≡ some p
      → Below repos p a
      → Below repos r a

-- What a private parent leaves a child: private as well, and no more writable.
Covers : Flags → Flags → Type 0
Covers (parent_private, parent_writable) (private, writable) =
    parent_private ≡ true → (private ≡ true) × (writable ≡ true → parent_writable ≡ true)

inherit-Covers : (r : WorkingRepo) (flags : Flags) → Covers flags (inherit r flags)
unfolding inherit Covers
inherit-Covers r (false, w) h = absurd (false_ne_true h)
inherit-Covers r (true, w) h = elim (Bool-cases r.private) [
  | inl private ↦ rw (private) (refl, λ e. and_right r.writable w e)
  | inr public ↦ rw (public) (refl, λ e. e)
]

Covers-trans : (a b c : Flags) → Covers a b → Covers b c → Covers a c
unfolding Covers
Covers-trans a b c ab bc private =
    let (b_private, b_writable) = ab private in
    let (c_private, c_writable) = bc b_private in (c_private, λ w. b_writable (c_writable w))

parent_flags :
    (repos : List WorkingRepo) (flags : Text → Flags) (r p : WorkingRepo)
    → All (λ s. Follows flags s (parent_in repos s)) repos
    → find_repo repos r.repo_id ≡ some r
    → parent_in repos r ≡ some p
    → flags r.repo_id ≡ inherit r (flags p.repo_id)
parent_flags repos flags r p all found under =
    subst (Follows flags r) under
      (All-find_repo (λ s. Follows flags s (parent_in repos s)) repos r.repo_id r all found)

child-Covers :
    (repos : List WorkingRepo) (flags : Text → Flags) (r p : WorkingRepo)
    → All (λ s. Follows flags s (parent_in repos s)) repos
    → find_repo repos r.repo_id ≡ some r
    → parent_in repos r ≡ some p
    → Covers (flags p.repo_id) (flags r.repo_id)
child-Covers repos flags r p all found under =
    subst (Covers (flags p.repo_id)) (sym (parent_flags repos flags r p all found under))
      (inherit-Covers r (flags p.repo_id))

Below-Covers :
    (repos : List WorkingRepo) (flags : Text → Flags) (r a : WorkingRepo)
    → All (λ s. Follows flags s (parent_in repos s)) repos
    → Below repos r a
    → Covers (flags a.repo_id) (flags r.repo_id)
Below-Covers repos flags _ _ all (child r p found under) =
    child-Covers repos flags r p all found under
Below-Covers repos flags _ _ all (deeper r p a found under below) =
    Covers-trans (flags a.repo_id) (flags p.repo_id) (flags r.repo_id)
      (Below-Covers repos flags p a all below) (child-Covers repos flags r p all found under)

implied : (a b : Bool) → (a ≡ true → b ≡ true) → (not a || b) ≡ true
implied true b h = h refl
implied false b h = refl

Below-found :
    (repos : List WorkingRepo) (r a : WorkingRepo)
    → Below repos r a
    → find_repo repos r.repo_id ≡ some r
Below-found repos _ _ (child r p found under) = found
Below-found repos _ _ (deeper r p a found under below) = found

-- Under an entry that ends up private, all are private, and none is writable unless that entry is.
pub propagate_privacy-Below :
    (repos : List WorkingRepo) (rank : Text → ℕ)
    → DistinctIds repos
    → Ranked repos rank
    → (r a b : WorkingRepo) → Below repos r a
    → find_repo repos a.repo_id ≡ some a
    → find_repo (propagate_privacy repos) a.repo_id ≡ some b
    → effective_private b ≡ true
    → (s : WorkingRepo) × (find_repo (propagate_privacy repos) r.repo_id ≡ some s)
      × (effective_private s ≡ true)
      × ((not (effective_writable s) || effective_writable b) ≡ true)
unfolding effective_private effective_writable Covers
propagate_privacy-Below repos rank distinct ranked r a b below a_found b_found private =
    let (flags, flagged, follows) = propagate_privacy-Follows repos rank distinct ranked in
    let find : (t : WorkingRepo)
        → find_repo repos t.repo_id ≡ some t
        → find_repo (propagate_privacy repos) t.repo_id ≡ some (with_flags t (flags t.repo_id)) =
      λ t found.
        subst (λ out. find_repo out t.repo_id ≡ some (with_flags t (flags t.repo_id))) (sym flagged)
          (find_repo-with_flags flags repos t.repo_id t found) in
    let is : with_flags a (flags a.repo_id) ≡ b = some_inj (sym (find a a_found) ∙ b_found) in
    let (r_private, r_writable) =
      Below-Covers repos flags r a follows below (ap effective_private is ∙ private) in
    (
      with_flags r (flags r.repo_id),
      find r (Below-found repos r a below),
      r_private,
      implied _ _ (λ w. sym (ap effective_writable is) ∙ r_writable w),
    )
