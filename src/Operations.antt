-- ===== src/Operations.antt =====
-- tree/operations: what a command that writes across the tree does. Git is the interface that
-- git_repo/git_runner.py declares, over a state `W` of the repositories on disk and of their remotes.
pub mod Sweep
pub mod Push
use complex_git_sync.Prelude.{ℕ, Bool, Option, Text, Result}
use complex_git_sync.Repo.{FilePath}

-- outcome.py
pub record RepoOutcome : Type 0 where
  pub name : Text
  pub acted : Bool
  pub detail : Text
  pub failed : Bool

-- The operations that the commands here call; an error is the message of the `GitSyncError`.
pub record GitOperations (W : Type 0) : Type 0 where
  pub current_branch : W → FilePath → Result Text (Option Text)
  pub local_branch_exists : W → FilePath → Text → Bool
  pub tag_exists : W → FilePath → Text → Bool
  pub has_upstream : W → FilePath → Bool
  pub branch_tracking_counts : W → FilePath → Result Text (Option (ℕ × ℕ))
  pub rev_parse_head : W → FilePath → Result Text Text
  pub remote_get_url : W → FilePath → Text → Option Text
  pub configure_remote : W → FilePath → Text → Text → W × Result Text Bool
  pub ensure_fetch_refspec : W → FilePath → Text → W × Result Text Bool
  pub push : W → FilePath → Text → Option Text → Bool → W × Result Text Bool
  pub create_tag : W → FilePath → Text → W × Result Text Bool
  pub stage_all : W → FilePath → W × Result Text Bool
  pub has_staged_changes : W → FilePath → Result Text Bool
  pub commit : W → FilePath → Text → W × Result Text Bool
  pub create_annotated_tag : W → FilePath → Text → Text → W × Result Text Bool
