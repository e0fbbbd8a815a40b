-- ===== src/Operations/Push.antt =====
-- tree/operations/push.py and the helpers that it takes from restart.py: `push` and `tag` of a tree,
-- after the checks of preflight.py.
pub mod Refs
pub mod Release
use complex_git_sync.Prelude.{
  ℕ, zero, suc, Bool, true, false, ◌&&◌, ◌||◌, not, Option, none, some, List, [], ◌∷◌, ◌++◌,
  if◌then◌else◌, is_empty, Text, codes, text_eq, Result, ◌>>=◌, ok, err,
}
use complex_git_sync.Merkle.Json.{digits}
use complex_git_sync.Repo.{WorkingRepo, RepoScope, AccessProtocol, RefKind, FilePath}
use complex_git_sync.Repo.Url.{SplitUrl, convert_remote_url_protocol}
use complex_git_sync.Branch.{is_tag, or_else}
use complex_git_sync.Tree.{WorkingGitTree, put_repo, recompute_tree_state, is_ready}
use complex_git_sync.Tree.Walk.{iter_tree_leaf_first}
use complex_git_sync.Operations.{RepoOutcome, GitOperations}
use complex_git_sync.Operations.Sweep.{TreePartialFailure, run}

-- What a command raises: an error of its own, or the report of a sweep.
pub data PushError : Type 0 where
  not_ready : PushError
  refused : (message : Text) → PushError
  unfinished : PushError
  stopped : (report : TreePartialFailure) → PushError

-- Preflight.assert_ready
unfoldable pub assert_ready : List WorkingRepo → Result PushError Bool
unfolding is_ready
assert_ready repos = if is_ready repos then ok true else err not_ready

abbrev pub remote_of : WorkingRepo → Text
remote_of r = or_else r.remote_name (codes "origin")

-- repo.resolved_ref_kind is RefKind.TAG
abbrev pub is_tag_kind : Option RefKind → Bool
is_tag_kind none = false
is_tag_kind (some k) = is_tag k

abbrev pub same_name : Option Text → Text → Bool
same_name none name = false
same_name (some t) name = text_eq t name

module _ {W : Type 0} (git : GitOperations W) where
  -- The second test of `recorded_is_tag`, on the recorded name
  unfoldable pub name_is_tag : W → FilePath → Option Text → Option Text → Bool
  unfolding text_eq
  name_is_tag w path current none = false
  name_is_tag w path current (some recorded) =
      not (same_name current recorded)
      && not (git.local_branch_exists w path recorded)
      && git.tag_exists w path recorded

  -- `recorded_is_tag`
  abbrev pub recorded_is_tag : W → WorkingRepo → Option Text → Bool
  recorded_is_tag w r current =
      is_tag_kind r.resolved_ref_kind || name_is_tag w r.absolute_path current r.resolved_ref_name

  -- The message of the refusal
  unfoldable pub detached_message : WorkingRepo → Text
  unfolding or_else
  detached_message r =
      codes "push refused; no repository was pushed: "
      ++ (r.name
          ++ (codes " is detached at "
              ++ (or_else r.resolved_ref_name (codes "a commit")
                  ++ (codes ", so there is no branch to push. "
                      ++ codes "Check out a branch first (cgitsync checkout <branch>)."))))

  -- The branch that is checked out, where there is one
  unfoldable pub checked_out : WorkingRepo → Option Text → Result Text (Option Text × Text)
  unfolding detached_message
  checked_out r none = err (detached_message r)
  checked_out r (some branch) = ok (some branch, branch)

  -- PushOperation._branch_to_push, once the current branch is read
  unfoldable pub decide_branch : W → WorkingRepo → Option Text → Result Text (Option Text × Text)
  unfolding name_is_tag or_else checked_out
  decide_branch w r current =
      let recorded = or_else r.resolved_ref_name [] in
      if not (is_empty recorded) && not (recorded_is_tag w r current)
      then ok (current, recorded)
      else checked_out r current

  -- PushOperation._branch_to_push: the second name is the one that is pushed
  unfoldable pub branch_to_push : W → WorkingRepo → Result Text (Option Text × Text)
  unfolding decide_branch
  branch_to_push w r = git.current_branch w r.absolute_path >>= decide_branch w r

  -- RestartOperation.rewrite_remote_if_forced; `repr` of an address is the address in quotes.
  unfoldable pub rewrite_remote_if_forced :
      (Text → SplitUrl) → W → WorkingRepo → Text → Option AccessProtocol → W × Result Text Bool
  unfolding convert_remote_url_protocol
  rewrite_remote_if_forced urlsplit w r remote none = (w, ok false)
  rewrite_remote_if_forced urlsplit w r remote (some protocol) =
      elim (git.remote_get_url w r.absolute_path remote) [
        | none ↦ (
          w,
          err (
              codes "--force-protocol: "
              ++ (r.name
                  ++ (codes " has no '"
                      ++ (remote ++ codes "' remote configured to convert the protocol of.")))),
        )
        | some url ↦ elim (convert_remote_url_protocol urlsplit url protocol) [
          | none ↦ (
            w,
            err (
                codes "--force-protocol: "
                ++ (r.name
                    ++ (codes "'s '"
                        ++ (remote
                            ++ (codes
                                  "' remote: Unrecognised remote URL, cannot convert protocol: '"
                                ++ (url ++ codes "'")))))),
          )
          | some forced ↦ git.configure_remote w r.absolute_path remote forced
        ]
      ]

  -- RestartOperation.repair_fetch_refspec: an error is dropped
  abbrev pub repair_fetch_refspec : W → WorkingRepo → Text → W
  repair_fetch_refspec w r remote = (git.ensure_fetch_refspec w r.absolute_path remote).0

  -- Preflight.commits_ahead_of_upstream
  abbrev pub commits_ahead_of_upstream : W → WorkingRepo → Option ℕ
  commits_ahead_of_upstream w r = elim (git.branch_tracking_counts w r.absolute_path) [
    | err message ↦ none
    | ok none ↦ none
    | ok (some counts) ↦ some counts.0
  ]

  -- repo.commit_sha = git_runner.rev_parse_head(...)
  abbrev pub with_head : WorkingRepo → Text → WorkingRepo
  with_head r sha = record r { identity = record r.identity { commit_sha = some sha } }

  -- The outcome of push_one, of the target, whether the upstream was set, and how far it was ahead
  unfoldable pub push_outcome : WorkingRepo → Text → Bool → Option ℕ → RepoOutcome
  unfolding digits
  push_outcome r target set_upstream ahead =
      if set_upstream
      then record {
        name = r.name;
        acted = true;
        detail = target ++ codes " (upstream set)";
        failed = false;
      }
      else elim ahead [
        | none ↦ record { name = r.name; acted = true; detail = target; failed = false }
        | some zero ↦ record {
          name = r.name;
          acted = false;
          detail = target ++ codes " already up to date";
          failed = false;
        }
        | some (suc n) ↦ record {
          name = r.name;
          acted = true;
          detail = target ++ (codes " (+" ++ digits (suc (suc n)) (suc n) (codes ")"));
          failed = false;
        }
      ]

  -- The part of push_one from the push on
  unfoldable pub push_ref :
      W × List WorkingRepo
      → WorkingRepo
      → Option Text × Text
      → (W × List WorkingRepo) × Result Text RepoOutcome
  unfolding push_outcome put_repo
  push_ref (w, repos) r (current, ref_name) =
      let remote = remote_of r in
      let set_upstream = same_name current ref_name && not (git.has_upstream w r.absolute_path) in
      let ahead = commits_ahead_of_upstream w r in
      let (after, pushed) = git.push w r.absolute_path remote (some ref_name) set_upstream in
      elim pushed [
        | err message ↦ ((after, repos), err message)
        | ok done ↦ elim (git.rev_parse_head after r.absolute_path) [
          | err message ↦ ((after, repos), err message)
          | ok sha ↦ (
            (after, put_repo repos (with_head r sha)),
            ok (push_outcome r (remote ++ b'/' ∷ ref_name) set_upstream ahead),
          )
        ]
      ]

  -- refs[repo.repo_id]
  unfoldable pub ref_of : List (Text × (Option Text × Text)) → Text → Option Text × Text
  unfolding text_eq
  ref_of [] repo_id = (none, [])
  ref_of ((k, ref) ∷ refs) repo_id = if text_eq k repo_id then ref else ref_of refs repo_id

  -- push_one
  unfoldable pub push_one :
      (Text → SplitUrl)
      → Option AccessProtocol
      → List (Text × (Option Text × Text))
      → W × List WorkingRepo
      → WorkingRepo
      → (W × List WorkingRepo) × Result Text RepoOutcome
  unfolding rewrite_remote_if_forced push_ref ref_of
  push_one urlsplit forced refs (w, repos) r =
      let (rewritten, result) = rewrite_remote_if_forced urlsplit w r (remote_of r) forced in
      elim result [
        | err message ↦ ((rewritten, repos), err message)
        | ok done ↦
            push_ref (repair_fetch_refspec rewritten r (remote_of r), repos) r
              (ref_of refs r.repo_id)
      ]

  -- refs = {repo.repo_id: ... for repo in repos}
  unfoldable pub decide_refs :
      W → List WorkingRepo → Result Text (List (Text × (Option Text × Text)))
  unfolding branch_to_push
  decide_refs w [] = ok []
  decide_refs w (r ∷ rest) =
      branch_to_push w r >>= λ ref. decide_refs w rest >>= λ refs. ok ((r.repo_id, ref) ∷ refs)

  -- push_tree, after run_preflight_checks
  unfoldable pub push_tree :
      (Text → SplitUrl)
      → Option AccessProtocol
      → RepoScope
      → W
      → WorkingGitTree
      → (W × WorkingGitTree) × Result PushError (List RepoOutcome)
  unfolding iter_tree_leaf_first decide_refs run push_one recompute_tree_state
  push_tree urlsplit forced scope w tree = elim (iter_tree_leaf_first tree.repos scope) [
    | none ↦ ((w, tree), err unfinished)
    | some repos ↦ elim (decide_refs w repos) [
      | err message ↦ ((w, tree), err (refused message))
      | ok refs ↦
          let (after, result) =
            run (push_one urlsplit forced refs) (codes "push") (codes "cgitsync push")
              (w, tree.repos) repos in
          let pushed : WorkingGitTree = record tree { repos = after.1 } in
          elim result [
            | err report ↦ ((after.0, pushed), err (stopped report))
            | ok outcomes ↦ ((after.0, recompute_tree_state pushed), ok outcomes)
          ]
    ]
  ]

  -- tag_one
  unfoldable pub tag_one :
      Text → W × List WorkingRepo → WorkingRepo → (W × List WorkingRepo) × Result Text RepoOutcome
  unfolding put_repo
  tag_one tag_name (w, repos) r =
      let held = git.tag_exists w r.absolute_path tag_name in
      let (tagged, result) =
        if held then (w, ok true) else git.create_tag w r.absolute_path tag_name in
      elim result [
        | err message ↦ ((tagged, repos), err message)
        | ok made ↦
            let (after, pushed) =
              git.push tagged r.absolute_path (remote_of r) (some tag_name) false in
            elim pushed [
              | err message ↦ ((after, repos), err message)
              | ok done ↦ elim (git.rev_parse_head after r.absolute_path) [
                | err message ↦ ((after, repos), err message)
                | ok sha ↦ (
                  (after, put_repo repos (with_head r sha)),
                  ok record {
                    name = r.name;
                    acted = not held;
                    detail = if held then tag_name ++ codes " already tagged" else tag_name;
                    failed = false;
                  },
                )
              ]
            ]
      ]

  -- tag_tree, after run_preflight_checks
  unfoldable pub tag_tree :
      Text → RepoScope → W → WorkingGitTree → (W × WorkingGitTree) × Result PushError Bool
  unfolding iter_tree_leaf_first run tag_one recompute_tree_state
  tag_tree tag_name scope w tree = elim (iter_tree_leaf_first tree.repos scope) [
    | none ↦ ((w, tree), err unfinished)
    | some repos ↦
        let (after, result) =
          run (tag_one tag_name) (codes "tag") (codes "cgitsync tag " ++ tag_name) (w, tree.repos)
            repos in
        let tagged : WorkingGitTree = record tree { repos = after.1 } in
        elim result [
          | err report ↦ ((after.0, tagged), err (stopped report))
          | ok outcomes ↦ ((after.0, recompute_tree_state tagged), ok true)
        ]
  ]
