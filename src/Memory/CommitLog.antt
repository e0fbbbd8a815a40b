-- ===== src/Memory/CommitLog.antt =====
-- The rows of commits and publications of tree/memory/commit_log.py, their digests, and the queries
-- over the tables that `read` gives for each State.
use complex_git_sync.Prelude.{
  ℕ, Bool, false, ◌&&◌, ◌||◌, not, Option, none, some, List, [], ◌∷◌, ◌++◌, map, ltb, ◌==◌,
  if◌then◌else◌, is_empty, Text, Bytes, codes, text_eq, text_lt, sorted,
}
use complex_git_sync.Merkle.Json.{num, str, arr, obj, Items, nil, cons, Members, end, field}
use complex_git_sync.Merkle.Root.{digest, prefixed}

pub record CommitRecord : Type 0 where
  pub entry : ℕ
  pub repository : Text
  pub repo_id : Text
  pub scope : Text
  pub branch : Text
  pub sha : Text
  pub message : Text
  pub authored_at : Text

pub record PublicationRecord : Type 0 where
  pub entry : ℕ
  pub repository : Text
  pub sha : Text
  pub remote : Text
  pub ref : Text
  pub at : Text
  pub remote_commit : Option Text
  pub observed_at : Option Text

-- Either record, as `digest_of` takes them.
pub data Row : Type 0 where
  commit : CommitRecord → Row
  published : PublicationRecord → Row

-- asdict(record)
unfoldable pub commit_row : CommitRecord → Members
commit_row r = field (codes "entry") (num r.entry) (
    field (codes "repository") (str r.repository) (
      field (codes "repo_id") (str r.repo_id) (
        field (codes "scope") (str r.scope) (
          field (codes "branch") (str r.branch) (
            field (codes "sha") (str r.sha) (
              field (codes "message") (str r.message)
                (field (codes "authored_at") (str r.authored_at) end)))))))

abbrev pub optional : Text → Option Text → Members → Members
optional key none rest = rest
optional key (some s) rest = field key (str s) rest

-- PublicationRecord.to_row
unfoldable pub to_row : PublicationRecord → Members
to_row r = field (codes "entry") (num r.entry) (
    field (codes "repository") (str r.repository) (
      field (codes "sha") (str r.sha) (
        field (codes "remote") (str r.remote) (
          field (codes "ref") (str r.ref) (
            field (codes "at") (str r.at) (
              optional (codes "remote_commit") r.remote_commit
                (optional (codes "observed_at") r.observed_at end)))))))

unfoldable pub row_members : Row → Members
unfolding commit_row to_row
row_members (commit r) = commit_row r
row_members (published r) = to_row r

unfoldable pub row_items : List Row → Items
unfolding row_members
row_items [] = nil
row_items (r ∷ rows) = cons (obj (row_members r)) (row_items rows)

-- The two tables of one log.
pub record Log : Type 0 where
  pub commits : List CommitRecord
  pub publications : List PublicationRecord

-- The logs under `commit-logs/`, by the State's hash.
abbrev pub Logs : Type 0
Logs = List (Text × Log)

module _ (sha256 : Bytes → Bytes) where
  -- CommitLog.digest_of
  unfoldable pub digest_of : List Row → Text
  unfolding row_items
  digest_of records = prefixed (digest sha256 (arr (row_items records)))

  -- CommitLog.digest_of_rows
  unfoldable pub digest_of_rows : List CommitRecord → List PublicationRecord → Text
  unfolding digest_of
  digest_of_rows committed publications =
      digest_of (map commit committed ++ map published publications)

-- CommitLog.is_published
unfoldable pub is_published : List PublicationRecord → Text → Bool
is_published [] sha = false
is_published (r ∷ rows) sha = text_eq r.sha sha || is_published rows sha

abbrev pub log_lt : Text × Log → Text × Log → Bool
log_lt a b = text_lt a.0 b.0

-- CommitLog.state_hashes_with_logs: the logs in the order of their names
unfoldable pub logs_in_order : Logs → Logs
logs_in_order logs = sorted log_lt logs

-- The pending commits of one log.
unfoldable pub pending_in :
    Text → Text → List PublicationRecord → List CommitRecord → List (Text × Text)
unfolding is_published
pending_in repo_id state_hash publications [] = []
pending_in repo_id state_hash publications (r ∷ rows) =
    let rest = pending_in repo_id state_hash publications rows in
    if not (is_empty r.sha) && text_eq r.repo_id repo_id && not (is_published publications r.sha)
    then (state_hash, r.sha) ∷ rest
    else rest

unfoldable pub pending_from : Text → Logs → List (Text × Text)
unfolding pending_in
pending_from repo_id [] = []
pending_from repo_id ((state_hash, log) ∷ logs) =
    pending_in repo_id state_hash log.publications log.commits ++ pending_from repo_id logs

-- CommitLog.unpublished_commits
unfoldable pub unpublished_commits : Text → Logs → List (Text × Text)
unfolding pending_from logs_in_order
unpublished_commits repo_id logs = pending_from repo_id (logs_in_order logs)

unfoldable pub commits_of : ℕ → List CommitRecord → List CommitRecord
commits_of entry [] = []
commits_of entry (r ∷ rows) =
    let rest = commits_of entry rows in if r.entry == entry then r ∷ rest else rest

unfoldable pub publications_of : ℕ → List PublicationRecord → List PublicationRecord
publications_of entry [] = []
publications_of entry (r ∷ rows) =
    let rest = publications_of entry rows in if r.entry == entry then r ∷ rest else rest

unfoldable pub all_commits : Logs → List CommitRecord
all_commits [] = []
all_commits ((s, log) ∷ logs) = log.commits ++ all_commits logs

unfoldable pub all_publications : Logs → List PublicationRecord
all_publications [] = []
all_publications ((s, log) ∷ logs) = log.publications ++ all_publications logs

-- CommitLog.rows_by_entry, at one entry
unfoldable pub rows_by_entry : ℕ → Logs → List CommitRecord × List PublicationRecord
unfolding commits_of publications_of all_commits all_publications logs_in_order
rows_by_entry entry logs = (
  commits_of entry (all_commits (logs_in_order logs)),
  publications_of entry (all_publications (logs_in_order logs)),
)

-- A row of `published_commits`.
pub record PublishedCommit : Type 0 where
  pub row : CommitRecord
  pub state : Text
  pub published_at : Text
  pub remote : Text
  pub ref : Text

-- published_by_sha.get(sha): the last publication of the commit
unfoldable pub published_by_sha : List PublicationRecord → Text → Option PublicationRecord
published_by_sha [] sha = none
published_by_sha (p ∷ rows) sha =
    let later = published_by_sha rows sha in
    elim later [ some q ↦ some q | none ↦ if text_eq p.sha sha then some p else none ]

unfoldable pub published_in :
    Text → List PublicationRecord → List CommitRecord → List PublishedCommit
unfolding published_by_sha
published_in state_hash publications [] = []
published_in state_hash publications (r ∷ rows) =
    let rest = published_in state_hash publications rows in
    elim (published_by_sha publications r.sha) [
      | none ↦ rest
      | some p ↦
          (record {
            row = r;
            state = state_hash;
            published_at = p.at;
            remote = p.remote;
            ref = p.ref;
          })
          ∷ rest
    ]

unfoldable pub published_from : Logs → List PublishedCommit
unfolding published_in
published_from [] = []
published_from ((state_hash, log) ∷ logs) =
    published_in state_hash log.publications log.commits ++ published_from logs

-- `reverse=True`: the greater pair of time and entry stands first.
unfoldable pub newer : PublishedCommit → PublishedCommit → Bool
newer a b =
    text_lt b.published_at a.published_at
    || text_eq a.published_at b.published_at && ltb b.row.entry a.row.entry

-- CommitLog.published_commits
unfoldable pub published_commits : Logs → List PublishedCommit
unfolding published_from newer logs_in_order
published_commits logs = sorted newer (published_from (logs_in_order logs))
