-- ===== src/Repo.antt =====
-- git_repo/git_repo.py: the identity and the state of one repository, and the scopes of a command.
-- A `pathlib` path is the list of its parts.
pub mod Url
use complex_git_sync.Prelude.{◌*◌, Bool, true, ◌&&◌, ◌||◌, not, Option, none, some, List, Text}

pub data AccessProtocol : Type 0 where
  ssh https : AccessProtocol

pub data GitProvider : Type 0 where
  github gitlab codeberg custom : GitProvider

pub data NodeType : Type 0 where
  root_node parent_node leaf_node : NodeType

pub data RefKind : Type 0 where
  auto_ref branch_ref tag_ref detached_ref unknown_ref : RefKind

pub data RepoScope : Type 0 where
  project_scope private_scope writable_scope all_scope : RepoScope

pub data RepoLifecycleState : Type 0 where
  declared pending ready fallback_ready missing error_state : RepoLifecycleState

pub data SyncState : Type 0 where
  aligned fallback_sync detached_exact dirty ahead behind diverged : SyncState
  sync_error sync_pending : SyncState

pub data DiscoveryState : Type 0 where
  discovery_pending resolved_discovery disabled_discovery missing_discovery : DiscoveryState

abbrev pub FilePath : Type 0
FilePath = List Text

pub record GitRepo : Type 0 where
  pub project_owner_name : Option Text
  pub project_name : Option Text
  pub repo_name : Option Text
  pub gitprovider : GitProvider
  pub group_name : Option Text
  pub gitprovider_url : Option Text
  pub access_protocol : AccessProtocol
  pub commit_sha : Option Text

pub record WorkingRepo : Type 0 where
  pub identity : GitRepo
  pub open identity use *
  pub repo_id : Text
  pub name : Text
  pub node_type : NodeType
  pub parent_id : Option Text
  pub absolute_path : FilePath
  pub relative_path : Option FilePath
  pub source_cgs_path : Option FilePath
  pub current_ref_kind : Option RefKind
  pub current_ref_name : Option Text
  pub target_ref_kind : Option RefKind
  pub target_ref_name : Option Text
  pub resolved_ref_kind : Option RefKind
  pub resolved_ref_name : Option Text
  pub repo_lifecycle_state : RepoLifecycleState
  pub sync_state : SyncState
  pub discovery_state : DiscoveryState
  pub fallback_branch : Option Text
  pub fallback_applied : Bool
  pub fallback_reason : Option Text
  pub worktree_state : Option Text
  pub is_reachable : Bool
  pub gitprovider_declared : Bool
  pub default_branch : Option Text
  pub nested_config : Option Text
  pub private : Bool
  pub writable : Bool
  pub propagated_private : Option Bool
  pub propagated_writable : Option Bool
  pub remote_name : Option Text
  pub is_external_reference : Bool

-- WorkingRepo.effective_private
unfoldable pub effective_private : WorkingRepo → Bool
effective_private r = elim r.propagated_private [ none ↦ r.private | some b ↦ b ]

-- WorkingRepo.effective_writable
unfoldable pub effective_writable : WorkingRepo → Bool
effective_writable r = elim r.propagated_writable [ none ↦ r.writable | some b ↦ b ]

-- RepoScope.includes
unfoldable pub includes : RepoScope → WorkingRepo → Bool
unfolding effective_private effective_writable
includes all_scope r = true
includes project_scope r = not (effective_private r)
includes private_scope r = effective_private r && effective_writable r
includes writable_scope r = not (effective_private r) || effective_writable r
