-- ===== src/Tests/Operations.antt =====
-- The theorems on `push`, at a stand-in for Git: its state is the paths that were pushed.
use complex_git_sync.Prelude.{
  ℕ, suc, ◌≡◌, refl, ◌⊎◌, true, false, Option, none, some, List, [], ◌∷◌, map, if◌then◌else◌, Text,
  codes, text_eq, sorted, Result, ok, err,
}
use complex_git_sync.Repo.{WorkingRepo, FilePath, all_scope}
use complex_git_sync.Repo.Url.{SplitUrl}
use complex_git_sync.Tree.Walk.{iter_tree_leaf_first}
use complex_git_sync.Operations.{RepoOutcome, GitOperations}
use complex_git_sync.Operations.Sweep.{run}
use complex_git_sync.Operations.Sweep.Report.{Visits, Stops, run-Visits}
use complex_git_sync.Operations.Push.{refused, branch_to_push, push_tree}
use complex_git_sync.Operations.Push.Refs.{NoTag, branch_to_push-NoTag, push_tree-refused}
use complex_git_sync.Tests.Samples.{root_entry, notes_entry, seeds_entry, garden_repos, garden_tree}

abbrev Pushed : Type 0
Pushed = List FilePath

-- The root is detached; the tag v1 exists everywhere.
abbrev branch_at : FilePath → Result Text (Option Text)
branch_at (p ∷ []) = ok none
branch_at path = ok (some (codes "main"))

abbrev no_split : Text → SplitUrl
no_split url = record { scheme = []; netloc = []; path = [] }

abbrev sample_git : GitOperations Pushed
sample_git = record {
  current_branch = λ w path. branch_at path;
  local_branch_exists = λ w path name. text_eq name (codes "main");
  tag_exists = λ w path name. text_eq name (codes "v1");
  has_upstream = λ w path. true;
  branch_tracking_counts = λ w path. ok (some (1, 0));
  rev_parse_head = λ w path. ok (codes "def");
  remote_get_url = λ w path remote. none;
  configure_remote = λ w path remote url. (w, ok true);
  ensure_fetch_refspec = λ w path remote. (w, ok false);
  push = λ w path remote ref upstream. (path ∷ w, ok true);
  create_tag = λ w path name. (w, ok true);
  stage_all = λ w path. (w, ok true);
  has_staged_changes = λ w path. ok false;
  commit = λ w path text. (w, ok true);
  create_annotated_tag = λ w path name text. (w, ok true);
}

-- The root, with a tag recorded as its reference.
abbrev tagged_root : WorkingRepo
tagged_root = record root_entry { resolved_ref_name = some (codes "v1") }

branch_to_push-NoTag_example :
    (some (codes "main") ≡ some (codes "main")) ⊎ NoTag sample_git [] notes_entry (codes "main")
unfolding branch_to_push
branch_to_push-NoTag_example =
    branch_to_push-NoTag sample_git [] notes_entry (some (codes "main")) (codes "main") refl

push_tree-refused_example :
    (first : Text) × (push_tree sample_git no_split none all_scope []
        (record garden_tree { repos = seeds_entry ∷ tagged_root ∷ notes_entry ∷ [] })
      ≡ (
        ([], record garden_tree { repos = seeds_entry ∷ tagged_root ∷ notes_entry ∷ [] }),
        err (refused first),
      ))
unfolding iter_tree_leaf_first branch_to_push sorted
push_tree-refused_example =
    push_tree-refused sample_git no_split none all_scope []
      (record garden_tree { repos = seeds_entry ∷ tagged_root ∷ notes_entry ∷ [] })
      (seeds_entry ∷ notes_entry ∷ []) tagged_root []
      (codes
        "push refused; no repository was pushed: garden is detached at v1, so there is no branch to push. Check out a branch first (cgitsync checkout <branch>).")
      refl refl

-- A visit that fails at a private repository; the state counts the visits.
abbrev visit_public : ℕ → WorkingRepo → ℕ × Result Text RepoOutcome
visit_public n r = (
  suc n,
  if r.private
      then err (codes "no access")
      else ok (record { name = r.name; acted = true; detail = codes "sent"; failed = false }),
)

run-Visits_example :
    ((outcomes : List (Text × RepoOutcome)) × Visits visit_public 0 garden_repos outcomes
        (run visit_public (codes "push") (codes "again") 0 garden_repos).0
      × ((run visit_public (codes "push") (codes "again") 0 garden_repos).1
          ≡ ok (map (λ c. c.1) outcomes)))
    ⊎ Stops visit_public garden_repos 0 []
        (run visit_public (codes "push") (codes "again") 0 garden_repos)
run-Visits_example = run-Visits visit_public (codes "push") (codes "again") 0 garden_repos
