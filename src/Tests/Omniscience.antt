-- ===== src/Tests/Omniscience.antt =====
-- The theorem on omniscience/omniscience_record.py, at two registrations.
use complex_git_sync.Prelude.{
  ◌≡◌, refl, ◌⊎◌, true, none, some, List, [], ◌∷◌, ◌++◌, replicate, Text, codes,
}
use complex_git_sync.Memory.Entry.Hash.{Collision}
use complex_git_sync.Omniscience.Record.{OmniscienceRecord, own_hash}
use complex_git_sync.Omniscience.Record.Committed.{Committed, record_bytes, own_hash-Committed}
use mathlib.Core.List.{reverse}
use complex_git_sync.Merkle.Json.{end}
use complex_git_sync.Omniscience.Observation.{Observation, ObservationStatus, available, not_found}
use complex_git_sync.Omniscience.Completeness.{not_found_run, is_permanent}
use complex_git_sync.Omniscience.Completeness.Runs.{AllNotFound, StartsOther, not_found_run-append}
use complex_git_sync.Tests.{length_hash}

abbrev pub registration : OmniscienceRecord
registration = record {
  project = codes "p";
  os_id = replicate 64 b'a';
  project_branch = codes "main";
  state_id = codes "state(" ++ (replicate 64 b'b' ++ codes ")");
  gittree_root = replicate 64 b'c';
  local_ledger_tip = codes "sha256:" ++ replicate 64 b'd';
  local_memory_git_commit = replicate 40 b'e';
  memory_repository = codes "r";
  memory_mount = codes "m";
  memory_ref = codes "refs/heads/main";
  memory_commit = replicate 40 b'f';
  published_state_id = none;
  sigma = some 3;
  recorded_at = codes "2026-01-01T00:00:00Z";
  contributor = codes "ann";
  remote_locator = none;
  published_rows = [];
  schema = 1;
}

abbrev renamed : OmniscienceRecord
renamed = record registration { contributor = codes "bob" }

own_hash-Committed_example :
    (own_hash length_hash registration ≡ own_hash length_hash renamed
      → Committed registration renamed
        ⊎ Collision length_hash (record_bytes registration) (record_bytes renamed))
    × (Committed registration renamed
        → own_hash length_hash registration ≡ own_hash length_hash renamed)
own_hash-Committed_example = own_hash-Committed length_hash registration renamed

abbrev seen : ObservationStatus → Text → Observation
seen status time = record {
  project = codes "p";
  os_id = replicate 64 b'a';
  target_kind = codes "repository";
  target = codes "r";
  status = status;
  observed_at = time;
  method = codes "ls-remote";
  evidence = end;
  commit_sha = [];
  record_name = [];
  observer = [];
}

abbrev lost_twice : List Observation
lost_twice =
    seen available (codes "2026-01-01T00:00:00Z")
    ∷ seen not_found (codes "2026-01-02T00:00:00Z")
    ∷ seen not_found (codes "2026-01-12T00:00:00Z")
    ∷ []

not_found_run-append_example :
    (before : List Observation) × (lost_twice ≡ before ++ not_found_run lost_twice)
    × AllNotFound (not_found_run lost_twice)
    × StartsOther (reverse before)
not_found_run-append_example = not_found_run-append lost_twice

-- Ten days of `NOT_FOUND` are permanent.
ten_days : is_permanent (not_found_run lost_twice) ≡ true
unfolding is_permanent not_found_run
ten_days = refl
