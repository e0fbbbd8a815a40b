-- ===== src/Memory/Verifier.antt =====
-- tree/memory/integrity.py: `ChainVerifier`, the findings and the verdict.
pub mod Verdict
pub mod Chain
pub mod FoldFix
pub mod Fresh
pub mod Sound
use complex_git_sync.Prelude.{
  ℕ, ◌-◌, Bool, true, false, ◌||◌, not, Option, none, some, List, [], ◌∷◌, ◌++◌, ltb, ◌==◌,
  if◌then◌else◌, is_empty, Text, Bytes, text_eq, text_lt, sorted,
}
use complex_git_sync.Merkle.Root.{genesis_prev}
use complex_git_sync.Memory.Entry.{Relocation, LedgerEntry, compute_hash}

pub data Finding : Type 0 where
  broken_link bad_entry_hash seq_gap seq_duplicate missing_state orphan_state : Finding
  state_digest_mismatch head_stale orphan_commit_log commit_log_mismatch : Finding
  commit_log_lost time_regression unresolved_relocation repo_hash_mismatch : Finding
  gittree_root_mismatch : Finding

-- The message of a finding: one constructor for each text, with what the text shows.
pub data Detail : Type 0 where
  appears_twice : (seq : ℕ) → Detail
  missing_between : (missing previous current : ℕ) → Detail
  earlier_than : (moment : Text) (seq : ℕ) (previous : Text) → Detail
  already_broken : Detail
  prev_differs : (prev expected : Text) → Detail
  hash_differs : (stored recomputed : Text) → Detail
  not_at : (asset to ancestor : Text) → Detail

abbrev pub Found : Type 0
Found = ℕ × Finding × Detail

-- _STRUCTURAL_FINDINGS
unfoldable pub is_structural : Finding → Bool
is_structural broken_link = true
is_structural bad_entry_hash = true
is_structural seq_gap = true
is_structural seq_duplicate = true
is_structural missing_state = true
is_structural state_digest_mismatch = true
is_structural repo_hash_mismatch = true
is_structural gittree_root_mismatch = true
is_structural head_stale = true
is_structural orphan_commit_log = true
is_structural commit_log_mismatch = true
is_structural unresolved_relocation = true
is_structural _ = false

unfoldable pub is_time_regression : Finding → Bool
is_time_regression time_regression = true
is_time_regression _ = false

unfoldable pub is_commit_log_lost : Finding → Bool
is_commit_log_lost commit_log_lost = true
is_commit_log_lost _ = false

pub data HistoryState : Type 0 where
  verified no_history legacy corrupt time_inconsistent incomplete : HistoryState

pub record VerificationReport : Type 0 where
  pub findings : List Found
  pub state : HistoryState

-- VerificationReport.is_clean
unfoldable pub is_clean : VerificationReport → Bool
is_clean r = is_empty r.findings

-- VerificationReport.is_verified
unfoldable pub is_verified : VerificationReport → Bool
is_verified r = elim r.state [ verified ↦ true | _ ↦ false ]

-- Whether a finding of the kind is among the findings.
unfoldable pub has_kind : (Finding → Bool) → List Found → Bool
has_kind test [] = false
has_kind test ((seq, kind, detail) ∷ rest) = test kind || has_kind test rest

-- ChainVerifier.resolve_state
unfoldable pub resolve_state : List Found → HistoryState
unfolding has_kind is_structural is_time_regression is_commit_log_lost
resolve_state findings =
    if has_kind is_structural findings
    then corrupt
    else if has_kind is_time_regression findings
    then time_inconsistent
    else if has_kind is_commit_log_lost findings
    then incomplete
    else verified

abbrev pub report_of : List Found → VerificationReport
report_of findings = record { findings = findings; state = resolve_state findings }

unfoldable pub mem : ℕ → List ℕ → Bool
mem n [] = false
mem n (m ∷ ms) = m == n || mem n ms

-- A set of numbers: `add` keeps one copy.
unfoldable pub add : ℕ → List ℕ → List ℕ
unfolding mem
add n set = if mem n set then set else n ∷ set

-- The numbers that occur, and those that occur again.
unfoldable pub scan_seqs : List ℕ → List ℕ → List LedgerEntry → List ℕ × List ℕ
unfolding add
scan_seqs seen duplicates [] = (seen, duplicates)
scan_seqs seen duplicates (e ∷ entries) =
    scan_seqs (add e.seq seen) (if mem e.seq seen then add e.seq duplicates else duplicates) entries

unfoldable pub duplicate_findings : List ℕ → List Found
duplicate_findings [] = []
duplicate_findings (seq ∷ seqs) = (seq, seq_duplicate, appears_twice seq) ∷ duplicate_findings seqs

-- for previous, current in zip(seqs, seqs[1:])
unfoldable pub gap_findings : List ℕ → List Found
gap_findings [] = []
gap_findings (a ∷ []) = []
gap_findings (a ∷ b ∷ seqs) =
    let rest = gap_findings (b ∷ seqs) in
    if ltb 0 (b - a - 1) then (b, seq_gap, missing_between (b - a - 1) a b) ∷ rest else rest

-- ChainVerifier._check_seq_integrity
unfoldable pub check_seq_integrity : List LedgerEntry → List Found
unfolding scan_seqs duplicate_findings gap_findings
check_seq_integrity entries =
    let (seen, duplicates) = scan_seqs [] [] entries in
    duplicate_findings (sorted ltb duplicates) ++ gap_findings (sorted ltb seen)

abbrev pub regression : Option (ℕ × Text) → ℕ → Text → List Found
regression none seq moment = []
regression (some (before, previous)) seq moment =
    if text_lt moment previous
    then (seq, time_regression, earlier_than moment before previous) ∷ []
    else []

-- ChainVerifier._check_time_monotonic, from the last moment that was seen
unfoldable pub check_time_monotonic : Option (ℕ × Text) → List LedgerEntry → List Found
check_time_monotonic previous [] = []
check_time_monotonic previous (e ∷ entries) =
    let skip = check_time_monotonic previous entries in
    let more = check_time_monotonic (some (e.seq, e.recorded_at)) entries in
    if is_empty e.recorded_at then skip else regression previous e.seq e.recorded_at ++ more

module _ (sha256 : Bytes → Bytes) where
  -- ChainVerifier.recompute_hash
  unfoldable pub recompute_hash : LedgerEntry → Text
  recompute_hash e = compute_hash sha256 e.fields

  abbrev pub link_finding : Text → Bool → LedgerEntry → List Found
  link_finding expected_prev broken e =
      if broken
      then (e.seq, broken_link, already_broken) ∷ []
      else if not (text_eq e.prev expected_prev)
      then (e.seq, broken_link, prev_differs e.prev expected_prev) ∷ []
      else []

  abbrev pub hash_finding : LedgerEntry → List Found
  hash_finding e =
      if not (text_eq (recompute_hash e) e.entry_hash)
      then (e.seq, bad_entry_hash, hash_differs e.entry_hash (recompute_hash e)) ∷ []
      else []

  -- ChainVerifier._check_hash_chain, from the hash that is expected and whether a link is broken
  unfoldable pub check_hash_chain : Text → Bool → List LedgerEntry → List Found
  check_hash_chain expected_prev broken [] = []
  check_hash_chain expected_prev broken (e ∷ entries) =
      link_finding expected_prev broken e
      ++ (hash_finding e
          ++ check_hash_chain (recompute_hash e) (broken || not (text_eq e.prev expected_prev))
              entries)

  -- What the three checks of `verify` find, in their order.
  abbrev pub chain_findings : List LedgerEntry → List Found
  chain_findings entries =
      check_seq_integrity entries
      ++ (check_hash_chain genesis_prev false entries ++ check_time_monotonic none entries)

  -- ChainVerifier.verify
  unfoldable pub verify_chain : List LedgerEntry → VerificationReport
  verify_chain [] = record { findings = []; state = no_history }
  verify_chain (e ∷ entries) = report_of (chain_findings (e ∷ entries))

-- The moves of one entry that `resolves` rejects.
unfoldable pub rejected_moves : (Relocation → Bool) → ℕ → List Relocation → List Found
rejected_moves resolves seq [] = []
rejected_moves resolves seq (r ∷ rs) =
    let rest = rejected_moves resolves seq rs in
    if not (resolves r)
    then (seq, unresolved_relocation, not_at r.asset r.to r.ancestor) ∷ rest
    else rest

-- ChainVerifier.check_relocations
unfoldable pub check_relocations : (Relocation → Bool) → List LedgerEntry → List Found
unfolding rejected_moves
check_relocations resolves [] = []
check_relocations resolves (e ∷ entries) =
    rejected_moves resolves e.seq e.relocations ++ check_relocations resolves entries
