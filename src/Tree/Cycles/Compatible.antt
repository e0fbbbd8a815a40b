-- ===== src/Tree/Cycles/Compatible.antt =====
-- `_is_compatible_duplicate` of tree/git_tree.py, and what it calls.
use complex_git_sync.Prelude.{
  ℕ, Bool, true, false, ◌&&◌, ◌||◌, not, Option, none, some, ◌∷◌, ◌==◌, Text, text_eq,
}
use complex_git_sync.Repo.{
  WorkingRepo, RefKind, auto_ref, branch_ref, tag_ref, detached_ref, unknown_ref,
  RepoLifecycleState, declared, pending, ready, fallback_ready, missing, error_state, SyncState,
  aligned, fallback_sync, detached_exact, dirty, ahead, behind, diverged, sync_error, sync_pending,
}
use complex_git_sync.Tree.Cycles.{is_some}

abbrev pub ref_code : RefKind → ℕ
ref_code auto_ref = 0
ref_code branch_ref = 1
ref_code tag_ref = 2
ref_code detached_ref = 3
ref_code unknown_ref = 4

abbrev pub lifecycle_code : RepoLifecycleState → ℕ
lifecycle_code declared = 0
lifecycle_code pending = 1
lifecycle_code ready = 2
lifecycle_code fallback_ready = 3
lifecycle_code missing = 4
lifecycle_code error_state = 5

abbrev pub sync_code : SyncState → ℕ
sync_code aligned = 0
sync_code fallback_sync = 1
sync_code detached_exact = 2
sync_code dirty = 3
sync_code ahead = 4
sync_code behind = 5
sync_code diverged = 6
sync_code sync_error = 7
sync_code sync_pending = 8

abbrev pub same_kinds : Option RefKind → Option RefKind → Bool
same_kinds none none = true
same_kinds (some k) (some j) = ref_code k == ref_code j
same_kinds _ _ = false

abbrev pub same_texts : Option Text → Option Text → Bool
same_texts none none = true
same_texts (some a) (some b) = text_eq a b
same_texts _ _ = false

-- `a and b and a != b`, of two optional texts
abbrev pub conflict : Option Text → Option Text → Bool
conflict (some (a ∷ p)) (some (b ∷ q)) = not (text_eq (a ∷ p) (b ∷ q))
conflict _ _ = false

-- `a and b and a == b`
abbrev pub agree : Option Text → Option Text → Bool
agree (some (a ∷ p)) (some (b ∷ q)) = text_eq (a ∷ p) (b ∷ q)
agree _ _ = false

-- _ref_values_compatible, whose last three branches return one comparison
unfoldable pub ref_values_compatible :
    Option RefKind → Option Text → Option RefKind → Option Text → Bool
unfolding text_eq
ref_values_compatible kind name other_kind other_name =
    not (is_some kind || is_some name)
    || not (is_some other_kind || is_some other_name)
    || same_kinds kind other_kind && same_texts name other_name

-- _has_compatible_refs
unfoldable pub has_compatible_refs : WorkingRepo → WorkingRepo → Bool
unfolding text_eq ref_values_compatible
has_compatible_refs c d =
    agree c.commit_sha d.commit_sha
    || ref_values_compatible c.current_ref_kind c.current_ref_name d.current_ref_kind
        d.current_ref_name
      && ref_values_compatible c.target_ref_kind c.target_ref_name d.target_ref_kind
          d.target_ref_name
      && ref_values_compatible c.resolved_ref_kind c.resolved_ref_name d.resolved_ref_kind
          d.resolved_ref_name

-- _is_compatible_duplicate
unfoldable pub is_compatible_duplicate : WorkingRepo → WorkingRepo → Bool
unfolding text_eq has_compatible_refs
is_compatible_duplicate c d =
    lifecycle_code c.repo_lifecycle_state == lifecycle_code d.repo_lifecycle_state
    && sync_code c.sync_state == sync_code d.sync_state
    && not (conflict c.commit_sha d.commit_sha)
    && has_compatible_refs c d
    && not (conflict c.worktree_state d.worktree_state)
