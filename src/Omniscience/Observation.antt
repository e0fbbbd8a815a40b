-- ===== src/Omniscience/Observation.antt =====
-- omniscience/omniscience_observation.py: one finding about one target of a registered project.
-- Evidence is a table of JSON values.
use complex_git_sync.Prelude.{
  Bool, true, false, ◌&&◌, ◌||◌, not, List, [], ◌∷◌, ◌++◌, leb, ◌==◌, if◌then◌else◌, is_empty, Text,
  Bytes, codes, text_eq, Result, ok, err,
}
use complex_git_sync.Merkle.Json.{num, str, obj, Members, end, field}
use complex_git_sync.Merkle.Root.{observation_hash, global_schema_version}

pub data ObservationStatus : Type 0 where
  available access_denied unreachable not_found commit_missing : ObservationStatus
  ref_missing closed unknown deletion_confirmed : ObservationStatus

-- status.value
unfoldable pub status_value : ObservationStatus → Text
status_value available = codes "AVAILABLE"
status_value access_denied = codes "ACCESS_DENIED"
status_value unreachable = codes "UNREACHABLE"
status_value not_found = codes "NOT_FOUND"
status_value commit_missing = codes "COMMIT_MISSING"
status_value ref_missing = codes "REF_MISSING"
status_value closed = codes "CLOSED"
status_value unknown = codes "UNKNOWN"
status_value deletion_confirmed = codes "DELETION_CONFIRMED"

pub record Observation : Type 0 where
  pub project : Text
  pub os_id : Text
  pub target_kind : Text
  pub target : Text
  pub status : ObservationStatus
  pub observed_at : Text
  pub method : Text
  pub evidence : Members
  pub commit_sha : Text
  pub record_name : Text
  pub observer : Text

-- The `ConfigValidationError`s of `__post_init__`.
pub data ObservationError : Type 0 where
  bad_kind : Text → ObservationError
  bad_time : Text → ObservationError
  empty_field : Text → ObservationError

-- A pattern of one code point for each place: `d` for a digit, else the code point itself.
unfoldable pub fits : Text → Text → Bool
fits [] [] = true
fits [] (c ∷ cs) = false
fits (p ∷ ps) [] = false
fits (p ∷ ps) (c ∷ cs) = (if p == b'd' then leb b'0' c && leb c b'9' else p == c) && fits ps cs

-- _ISO.fullmatch
unfoldable pub is_iso : Text → Bool
unfolding fits
is_iso text = fits (codes "dddd-dd-ddTdd:dd:ddZ") text

unfoldable pub check_fields : List (Text × Text) → Result ObservationError Unit
check_fields [] = ok tt
check_fields ((name, value) ∷ checks) =
    let rest = check_fields checks in if is_empty value then err (empty_field name) else rest

-- Observation.__post_init__
unfoldable pub check_observation : Observation → Result ObservationError Unit
unfolding is_iso check_fields text_eq
check_observation o =
    if not (text_eq o.target_kind (codes "memory") || text_eq o.target_kind (codes "repository"))
    then err (bad_kind o.target_kind)
    else if not (is_iso o.observed_at)
    then err (bad_time o.observed_at)
    else check_fields (
        (codes "project", o.project)
        ∷ (codes "os_id", o.os_id)
        ∷ (codes "target", o.target)
        ∷ (codes "method", o.method)
        ∷ [])

abbrev pub evidence_member : Members → Members
evidence_member end = end
evidence_member (field k v ms) = field (codes "evidence") (obj (field k v ms)) end

-- Observation.to_dict
unfoldable pub observation_dict : Observation → Members
unfolding status_value
observation_dict o =
    field (codes "observation")
      (obj (
        field (codes "schema") (num global_schema_version) (
          field (codes "project") (str o.project) (
            field (codes "observed_at") (str o.observed_at)
              (field (codes "observer") (str o.observer) end)))))
      (field (codes "target")
        (obj (
          field (codes "os_id") (str o.os_id) (
            field (codes "kind") (str o.target_kind) (
              field (codes "repository") (str o.target) (
                field (codes "commit") (str o.commit_sha)
                  (field (codes "record") (str o.record_name) end))))))
        (field (codes "finding")
          (obj (
            field (codes "status") (str (status_value o.status))
              (field (codes "method") (str o.method) (evidence_member o.evidence))))
          end))

module _ (sha256 : Bytes → Bytes) where
  -- Observation.observation_hash
  unfoldable pub hash_of : Observation → Text
  unfolding observation_dict
  hash_of o = observation_hash sha256 (observation_dict o)

  -- Observation.filename
  unfoldable pub observation_file : Observation → Text
  unfolding hash_of
  observation_file o = codes "observations/" ++ (hash_of o ++ codes ".toml")
