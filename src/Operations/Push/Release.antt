-- ===== src/Operations/Push/Release.antt =====
-- `freeze_release_tree` of tree/operations/push.py, after the checks of preflight.py.
use complex_git_sync.Prelude.{
  Bool, true, false, ◌&&◌, ◌||◌, not, Option, none, some, ◌++◌, if◌then◌else◌, Text, codes, text_eq,
  Result, ok, err,
}
use complex_git_sync.Repo.{WorkingRepo, RepoScope}
use complex_git_sync.Branch.{or_else}
use complex_git_sync.Tree.{WorkingGitTree, root_repo_id, put_repo, recompute_tree_state}
use complex_git_sync.Tree.Walk.{iter_tree_leaf_first}
use complex_git_sync.Operations.{RepoOutcome, GitOperations}
use complex_git_sync.Operations.Sweep.{run}
use complex_git_sync.Operations.Push.{
  PushError, unfinished, stopped, remote_of, repair_fetch_refspec, with_head,
}

-- One call after another, over a state; an error ends them.
abbrev pub and_then :
    {S A B : Type 0} → S × Result Text A → (S → A → S × Result Text B) → S × Result Text B
and_then (s, err text) next = (s, err text)
and_then (s, ok a) next = next s a

abbrev pub when : {S : Type 0} → Bool → S → (S → S × Result Text Bool) → S × Result Text Bool
when true s act = act s
when false s act = (s, ok false)

module _ {W : Type 0} (git : GitOperations W) where
  -- The branch is pushed with the tag when there is a new commit.
  unfoldable pub push_branch : W → WorkingRepo → W × Result Text Bool
  push_branch w r = elim (git.current_branch w r.absolute_path) [
    | err text ↦ (w, err text)
    | ok none ↦ (w, ok false)
    | ok (some branch) ↦
        let repaired = repair_fetch_refspec git w r (remote_of r) in
        git.push repaired r.absolute_path (remote_of r) (some branch)
          (not (git.has_upstream repaired r.absolute_path))
  ]

  -- What freeze_one does in Git before it reads the commit; the answer is whether it committed.
  unfoldable pub freeze_in_git :
      Text → Text → Bool → Bool → WorkingRepo → W → W × Result Text (Bool × Bool)
  unfolding push_branch
  freeze_in_git tag_name text all_changes annotated r w =
      and_then (when all_changes w (λ v. git.stage_all v r.absolute_path)) (λ w1 staged.
        and_then (w1, git.has_staged_changes w1 r.absolute_path)
          (λ w2 committed.
            and_then (when committed w2 (λ v. git.commit v r.absolute_path text)) (λ w3 made.
              let held = not annotated && git.tag_exists w3 r.absolute_path tag_name in
              and_then
                (when (not annotated && not held) w3
                  (λ v. git.create_tag v r.absolute_path tag_name))
                (λ w4 tagged. and_then (when committed w4 (λ v. push_branch v r)) (λ w5 sent.
                  and_then
                    (when (not annotated) w5
                      (λ v. git.push v r.absolute_path (remote_of r) (some tag_name) false))
                    (λ w6 done. (w6, ok (committed, held))))))))

  -- The annotated tag of the root, whose message is written of the tree as it is then
  unfoldable pub annotate_root :
      Text
      → (W → WorkingGitTree → Text)
      → WorkingRepo
      → W × WorkingGitTree
      → (W × WorkingGitTree) × Result Text Bool
  unfolding recompute_tree_state
  annotate_root tag_name message r (w, tree) =
      let settled = recompute_tree_state tree in
      let (tagged, result) =
        and_then (git.create_annotated_tag w r.absolute_path tag_name (message w settled))
          (λ v made. git.push v r.absolute_path (remote_of r) (some tag_name) false) in
      ((tagged, settled), result)

  -- `annotated_root`
  unfoldable pub is_annotated : Option (W → WorkingGitTree → Text) → WorkingRepo → Bool
  unfolding text_eq
  is_annotated none r = false
  is_annotated (some message) r = text_eq r.repo_id root_repo_id

  unfoldable pub annotate :
      Text
      → Option (W → WorkingGitTree → Text)
      → WorkingRepo
      → W × WorkingGitTree
      → (W × WorkingGitTree) × Result Text Bool
  unfolding annotate_root
  annotate tag_name none r state = (state, ok false)
  annotate tag_name (some message) r state = annotate_root tag_name message r state

  -- freeze_one
  unfoldable pub freeze_one :
      Text
      → Text
      → Bool
      → Option (W → WorkingGitTree → Text)
      → W × WorkingGitTree
      → WorkingRepo
      → (W × WorkingGitTree) × Result Text RepoOutcome
  unfolding freeze_in_git is_annotated annotate put_repo
  freeze_one tag_name text all_changes message (w, tree) r =
      let annotated = is_annotated message r in
      let (frozen, result) = freeze_in_git tag_name text all_changes annotated r w in
      and_then ((frozen, tree), result)
        (λ s answer.
          and_then (s, git.rev_parse_head s.0 r.absolute_path)
            (λ s1 sha.
              let read : WorkingGitTree = record s1.1 {
                repos = put_repo s1.1.repos (with_head git r sha);
              } in
              and_then (when annotated (s1.0, read) (λ v. annotate tag_name message r v))
                (λ s2 done. (
                  s2,
                  ok record {
                    name = r.name;
                    acted = answer.0 || not answer.1;
                    detail = if answer.1 then tag_name ++ codes " already tagged" else tag_name;
                    failed = false;
                  },
                ))))

  -- freeze_release_tree
  unfoldable pub freeze_release_tree :
      Text
      → Option Text
      → Bool
      → RepoScope
      → Option (W → WorkingGitTree → Text)
      → W
      → WorkingGitTree
      → (W × WorkingGitTree) × Result PushError Bool
  unfolding iter_tree_leaf_first run or_else freeze_one recompute_tree_state
  freeze_release_tree tag_name given all_changes scope message w tree =
      let text : Text = or_else given (codes "freeze release " ++ tag_name) in
      elim (iter_tree_leaf_first tree.repos scope) [
        | none ↦ ((w, tree), err unfinished)
        | some repos ↦
            let (after, result) =
              run (freeze_one tag_name text all_changes message) (codes "freeze release")
                (codes "cgitsync release freeze") (w, tree) repos in
            elim result [
              | err report ↦ (after, err (stopped report))
              | ok outcomes ↦ ((after.0, recompute_tree_state after.1), ok true)
            ]
      ]
