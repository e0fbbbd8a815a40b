-- ===== src/Operations/Push/Refs.antt =====
-- Which branch `push` of tree/operations/push.py sends, and that a refusal comes before any push.
use complex_git_sync.Prelude.{
  ◌≡◌, refl, sym, ap, subst, ◌⊎◌, inl, inr, true, false, ◌&&◌, not, Option, none, some, List, [],
  ◌∷◌, ◌++◌, arith, Bool-cases, false_ne_true, if_cases, and_left, and_right, not-true, or_left,
  or_right, is_empty, Text, text_eq, text_eq→eq, Result, >>=-eq-ok, Result-cases, ok, err,
}
use complex_git_sync.Repo.{FilePath, WorkingRepo, RepoScope, AccessProtocol}
use complex_git_sync.Repo.Url.{SplitUrl}
use complex_git_sync.Branch.{or_else}
use complex_git_sync.Tree.{WorkingGitTree}
use complex_git_sync.Tree.Walk.{iter_tree_leaf_first}
use complex_git_sync.Operations.{GitOperations}
use complex_git_sync.Operations.Push.{
  refused, is_tag_kind, name_is_tag, recorded_is_tag, checked_out, decide_branch, branch_to_push,
  decide_refs, push_tree,
}

module _ {W : Type 0} (git : GitOperations W) where
  -- A reference that is no tag.
  abbrev pub NoTag : W → WorkingRepo → Text → Type 0
  NoTag w r ref =
      (is_tag_kind r.resolved_ref_kind ≡ false)
      × ((git.local_branch_exists w r.absolute_path ref ≡ true)
          ⊎ (git.tag_exists w r.absolute_path ref ≡ false))

  recorded-NoTag :
      (w : W) (path : FilePath) (current name : Option Text)
      → name_is_tag git w path current name ≡ false
      → is_empty (or_else name []) ≡ false
      → (current ≡ some (or_else name []))
        ⊎ ((git.local_branch_exists w path (or_else name []) ≡ true)
            ⊎ (git.tag_exists w path (or_else name []) ≡ false))
  unfolding name_is_tag or_else
  recorded-NoTag w path current none no_tag filled = absurd (false_ne_true (sym filled))
  recorded-NoTag w path current (some []) no_tag filled = absurd (false_ne_true (sym filled))
  recorded-NoTag w path none (some (c ∷ cs)) no_tag filled =
      elim (Bool-cases (git.local_branch_exists w path (c ∷ cs))) [
        | inl local ↦ inr (inl local)
        | inr remote ↦ inr (inr (ground arith))
      ]
  recorded-NoTag w path (some b) (some (c ∷ cs)) no_tag filled =
      elim (Bool-cases (text_eq b (c ∷ cs))) [
        | inl same ↦ inl (ap some (text_eq→eq b (c ∷ cs) same))
        | inr differ ↦ elim (Bool-cases (git.local_branch_exists w path (c ∷ cs))) [
          | inl local ↦ inr (inl local)
          | inr remote ↦ inr (inr (ground arith))
        ]
      ]

  checked_out-some :
      (r : WorkingRepo) (read current : Option Text) (ref : Text)
      → checked_out git r read ≡ ok (current, ref)
      → current ≡ some ref
  unfolding checked_out
  checked_out-some r none current ref e = cc
  checked_out-some r (some b) current ref e = cc

  -- The reference that is pushed is the branch that is checked out, or else the recorded one, which
  -- is then recorded as no tag and is a local branch or no tag at all.
  pub branch_to_push-NoTag :
      (w : W) (r : WorkingRepo) (current : Option Text) (ref : Text)
      → branch_to_push git w r ≡ ok (current, ref)
      → (current ≡ some ref) ⊎ NoTag w r ref
  unfolding branch_to_push decide_branch
  branch_to_push-NoTag w r current ref e =
      let (read, reads, decided) =
        >>=-eq-ok (git.current_branch w r.absolute_path) (decide_branch git w r) e in
      elim (if_cases
        (not (is_empty (or_else r.resolved_ref_name [])) && not (recorded_is_tag git w r read))
        decided) [
          | inr (other, takes) ↦ inl (checked_out-some r read current ref takes)
          | inl (keeps, is) ↦
              let ref_is : or_else r.resolved_ref_name [] ≡ ref =
                ap (λ (v : Result Text (Option Text × Text)). elim v [ err m ↦ ref | ok a ↦ a.1 ])
                  is in
              let current_is : read ≡ current =
                ap
                  (λ (v : Result Text (Option Text × Text)). elim v [
                    | err m ↦ current
                    | ok a ↦ a.0
                  ])
                  is in
              let filled : is_empty (or_else r.resolved_ref_name []) ≡ false =
                not-true (and_left _ _ keeps) in
              let no_tag : recorded_is_tag git w r read ≡ false = not-true (and_right _ _ keeps) in
              let kind : is_tag_kind r.resolved_ref_kind ≡ false = or_left _ _ no_tag in
              subst (λ c. (c ≡ some ref) ⊎ NoTag w r ref) current_is
                (subst (λ t. (read ≡ some t) ⊎ NoTag w r t) ref_is
                  (elim (recorded-NoTag w r.absolute_path read r.resolved_ref_name
                    (or_right _ _ no_tag) filled) [
                      | inl same ↦ inl same
                      | inr there ↦ inr (kind, there)
                    ]))
        ]

  decide_refs-refused :
      (w : W) (before : List WorkingRepo) (r : WorkingRepo) (rest : List WorkingRepo)
      (message : Text)
      → branch_to_push git w r ≡ err message
      → (first : Text) × (decide_refs git w (before ++ r ∷ rest) ≡ err first)
  unfolding decide_refs
  decide_refs-refused w [] r rest message e = (message, rw (decide_refs, e) refl)
  decide_refs-refused w (q ∷ before) r rest message e =
      let (first, refuses) = decide_refs-refused w before r rest message e in
      elim (Result-cases (branch_to_push git w q)) [
        | inl (other, eq) ↦ (other, rw (decide_refs, eq) refl)
        | inr (ref, eq) ↦ (first, rw (decide_refs, eq, refuses) refl)
      ]

  -- If one repository has no branch to push, nothing was pushed anywhere.
  pub push_tree-refused :
      (urlsplit : Text → SplitUrl) (forced : Option AccessProtocol) (scope : RepoScope) (w : W)
      (tree : WorkingGitTree) (before : List WorkingRepo) (r : WorkingRepo)
      (rest : List WorkingRepo) (message : Text)
      → iter_tree_leaf_first tree.repos scope ≡ some (before ++ r ∷ rest)
      → branch_to_push git w r ≡ err message
      → (first : Text) × (push_tree git urlsplit forced scope w tree
          ≡ ((w, tree), err (refused first)))
  unfolding push_tree
  push_tree-refused urlsplit forced scope w tree before r rest message visits e =
      let (first, refuses) = decide_refs-refused w before r rest message e in
      (first, rw (push_tree, visits, refuses) refl)
