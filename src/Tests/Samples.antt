-- ===== src/Tests/Samples.antt =====
-- Repositories for the concrete inputs: a root, a private mount and a project repository under it.
use complex_git_sync.Prelude.{true, false, none, some, List, [], ◌∷◌, Text, codes}
use complex_git_sync.Repo.{
  WorkingRepo, GitRepo, github, ssh, root_node, parent_node, leaf_node, branch_ref, ready, aligned,
  resolved_discovery,
}
use complex_git_sync.Tree.{WorkingGitTree, tree_ready, root_repo_id}

abbrev pub garden : Text
garden = codes "garden"

abbrev pub garden_identity : GitRepo
garden_identity = record {
  project_owner_name = some (codes "ann");
  project_name = some garden;
  repo_name = some garden;
  gitprovider = github;
  group_name = none;
  gitprovider_url = none;
  access_protocol = ssh;
  commit_sha = some (codes "abc");
}

abbrev pub root_entry : WorkingRepo
root_entry = record {
  identity = garden_identity;
  repo_id = root_repo_id;
  name = garden;
  node_type = root_node;
  parent_id = none;
  absolute_path = garden ∷ [];
  relative_path = none;
  source_cgs_path = none;
  current_ref_kind = some branch_ref;
  current_ref_name = some (codes "main");
  target_ref_kind = some branch_ref;
  target_ref_name = some (codes "main");
  resolved_ref_kind = some branch_ref;
  resolved_ref_name = some (codes "main");
  repo_lifecycle_state = ready;
  sync_state = aligned;
  discovery_state = resolved_discovery;
  fallback_branch = none;
  fallback_applied = false;
  fallback_reason = none;
  worktree_state = none;
  is_reachable = true;
  gitprovider_declared = true;
  default_branch = some (codes "main");
  nested_config = none;
  private = false;
  writable = false;
  propagated_private = none;
  propagated_writable = none;
  remote_name = none;
  is_external_reference = false;
}

-- A private repository that the project may not write.
abbrev pub notes_entry : WorkingRepo
notes_entry = record root_entry {
  repo_id = codes "notes";
  name = codes "notes";
  node_type = parent_node;
  parent_id = some root_repo_id;
  absolute_path = garden ∷ codes "notes" ∷ [];
  relative_path = some (codes "notes" ∷ []);
  private = true;
}

-- A project repository mounted in the private one.
abbrev pub seeds_entry : WorkingRepo
seeds_entry = record root_entry {
  repo_id = codes "seeds";
  name = codes "seeds";
  node_type = leaf_node;
  parent_id = some (codes "notes");
  absolute_path = garden ∷ codes "notes" ∷ codes "seeds" ∷ [];
  relative_path = some (codes "seeds" ∷ []);
}

abbrev pub garden_repos : List WorkingRepo
garden_repos = seeds_entry ∷ root_entry ∷ notes_entry ∷ []

abbrev pub garden_tree : WorkingGitTree
garden_tree = record {
  repos = garden_repos;
  project_name = some garden;
  lifecycle_state = tree_ready;
  memory_twin = false;
}
