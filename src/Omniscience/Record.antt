-- ===== src/Omniscience/Record.antt =====
-- omniscience/omniscience_record.py: one registration of an Operating Space branch head. A row of
-- publication evidence is a mapping from strings to strings.
pub mod Committed
use complex_git_sync.Prelude.{
  ℕ, Bool, true, false, ◌&&◌, ◌||◌, not, Option, none, some, List, [], ◌∷◌, ◌++◌, leb, ◌==◌,
  if◌then◌else◌, length, take, drop, is_empty, Text, Bytes, codes, text_eq, Result, ◌>>=◌, ok, err,
}
use complex_git_sync.Merkle.Json.{num, str, arr, obj, Items, nil, cons, Members, end, field, utf8}
use complex_git_sync.Merkle.Root.{os_state_hash, record_hash, leaf_digest, global_schema_version}

abbrev pub Pairs : Type 0
Pairs = List (Text × Text)

pub record OmniscienceRecord : Type 0 where
  pub project : Text
  pub os_id : Text
  pub project_branch : Text
  pub state_id : Text
  pub gittree_root : Text
  pub local_ledger_tip : Text
  pub local_memory_git_commit : Text
  pub memory_repository : Text
  pub memory_mount : Text
  pub memory_ref : Text
  pub memory_commit : Text
  pub published_state_id : Option Text
  pub sigma : Option ℕ
  pub recorded_at : Text
  pub contributor : Text
  pub remote_locator : Option Text
  pub published_rows : List Pairs
  pub schema : ℕ

-- The `ConfigValidationError`s of `__post_init__`, one constructor for each message.
pub data ConfigValidationError : Type 0 where
  unread_schema : ℕ → ConfigValidationError
  not_valid : (name value : Text) → ConfigValidationError
  not_a_digest : Text → ConfigValidationError
  must_not_be_empty : Text → ConfigValidationError
  bad_row : Pairs → ConfigValidationError

unfoldable pub is_hex_digit : ℕ → Bool
is_hex_digit c = leb b'0' c && leb c b'9' || leb b'a' c && leb c b'f'

-- `[0-9a-f]*` against the whole text
unfoldable pub all_hex : Text → Bool
unfolding is_hex_digit
all_hex [] = true
all_hex (c ∷ cs) = is_hex_digit c && all_hex cs

-- _HEX64.fullmatch
unfoldable pub is_hex64 : Text → Bool
unfolding all_hex
is_hex64 text = all_hex text && length text == 64

-- _COMMIT.fullmatch
unfoldable pub is_commit : Text → Bool
unfolding all_hex
is_commit text = all_hex text && (length text == 40 || length text == 64)

-- _DIGEST.fullmatch
unfoldable pub is_digest : Text → Bool
unfolding is_hex64 text_eq
is_digest text = text_eq (take 7 text) (codes "sha256:") && is_hex64 (drop 7 text)

-- _STATE_ID.fullmatch
unfoldable pub is_state_id : Text → Bool
unfolding is_hex64 text_eq
is_state_id text =
    text_eq (take 6 text) (codes "state(")
    && is_hex64 (take 64 (drop 6 text))
    && text_eq (drop 70 text) (codes ")")

-- row.get(key, "")
unfoldable pub row_get : Pairs → Text → Text
row_get [] key = []
row_get ((k, v) ∷ row) key = if text_eq k key then v else row_get row key

-- text.startswith("-")
abbrev pub starts_with_dash : Text → Bool
starts_with_dash [] = false
starts_with_dash (c ∷ cs) = c == b'-'

unfoldable pub row_ok : Pairs → Bool
unfolding row_get is_commit
row_ok row = not (
    not (is_commit (row_get row (codes "commit")))
    || is_empty (row_get row (codes "ref"))
    || is_empty (row_get row (codes "repository"))
    || starts_with_dash (row_get row (codes "ref"))
    || starts_with_dash (row_get row (codes "repository")))

unfoldable pub check_rows : List Pairs → Result ConfigValidationError Unit
unfolding row_ok
check_rows [] = ok tt
check_rows (row ∷ rows) =
    let rest = check_rows rows in if row_ok row then rest else err (bad_row row)

-- A named value and the verdict of its pattern, in the order in which they are tried.
unfoldable pub check_patterns : List (Text × Text × Bool) → Result ConfigValidationError Unit
check_patterns [] = ok tt
check_patterns ((name, value, valid) ∷ checks) =
    let rest = check_patterns checks in if valid then rest else err (not_valid name value)

unfoldable pub check_not_empty : List (Text × Text) → Result ConfigValidationError Unit
check_not_empty [] = ok tt
check_not_empty ((name, value) ∷ checks) =
    let rest = check_not_empty checks in
    if is_empty value then err (must_not_be_empty name) else rest

abbrev pub check_published : Option Text → Result ConfigValidationError Unit
check_published none = ok tt
check_published (some id) = if is_digest id then ok tt else err (not_a_digest id)

-- OmniscienceRecord.__post_init__
unfoldable pub post_init : OmniscienceRecord → Result ConfigValidationError Unit
unfolding check_rows check_patterns check_not_empty
post_init r =
    if not (r.schema == global_schema_version)
    then err (unread_schema r.schema)
    else (check_patterns (
          (codes "os_id", r.os_id, is_hex64 r.os_id)
          ∷ (codes "gittree_root", r.gittree_root, is_hex64 r.gittree_root)
          ∷ (codes "state_id", r.state_id, is_state_id r.state_id)
          ∷ (codes "local_ledger_tip", r.local_ledger_tip, is_digest r.local_ledger_tip)
          ∷ (
            codes "local_memory_git_commit",
            r.local_memory_git_commit,
            is_commit r.local_memory_git_commit,
          )
          ∷ (codes "memory_commit", r.memory_commit, is_commit r.memory_commit)
          ∷ [])
        >>= λ _. check_published r.published_state_id >>= λ _.
            check_not_empty (
              (codes "project", r.project)
              ∷ (codes "project_branch", r.project_branch)
              ∷ (codes "memory_repository", r.memory_repository)
              ∷ (codes "memory_mount", r.memory_mount)
              ∷ (codes "memory_ref", r.memory_ref)
              ∷ [])
            >>= λ _. check_rows r.published_rows)

-- OmniscienceRecord._operating_space, before the members `rest`
abbrev pub operating_space : OmniscienceRecord → Members → Members
operating_space r rest = field (codes "os_id") (str r.os_id) (
    field (codes "project_branch") (str r.project_branch) (
      field (codes "state_id") (str r.state_id) (
        field (codes "gittree_root") (str r.gittree_root) (
          field (codes "local_ledger_tip") (str r.local_ledger_tip)
            (field (codes "local_memory_git_commit") (str r.local_memory_git_commit) rest)))))

-- OmniscienceRecord._memory, before the members `rest`
abbrev pub memory : OmniscienceRecord → Members → Members
memory r rest = field (codes "repository") (str r.memory_repository) (
    field (codes "mount") (str r.memory_mount)
      (field (codes "ref") (str r.memory_ref) (field (codes "commit") (str r.memory_commit) rest)))

-- A field that is absent when there is no value.
abbrev pub optional_text : Text → Option Text → Members → Members
optional_text key none rest = rest
optional_text key (some s) rest = field key (str s) rest

abbrev pub optional_num : Text → Option ℕ → Members → Members
optional_num key none rest = rest
optional_num key (some n) rest = field key (num n) rest

-- OmniscienceRecord.preimage
unfoldable pub preimage : OmniscienceRecord → Members
preimage r = field (codes "schema") (num r.schema) (
    field (codes "project") (str r.project) (
      field (codes "operating_space") (obj (operating_space r end)) (
        field (codes "memory_repo") (obj (memory r end)) (
          optional_text (codes "published_state_id") r.published_state_id
            (optional_num (codes "sigma") r.sigma end)))))

-- The members that `H_OS_STATE` covers.
unfoldable pub os_state_members : OmniscienceRecord → Members
os_state_members r = operating_space r (
    field (codes "memory_repo")
      (obj (
        field (codes "repository") (str r.memory_repository) (
          field (codes "ref") (str r.memory_ref)
            (field (codes "commit") (str r.memory_commit) end))))
      end)

module _ (sha256 : Bytes → Bytes) where
  -- OmniscienceRecord.os_state_hash
  unfoldable pub space_hash : OmniscienceRecord → Text
  space_hash r = os_state_hash sha256 (os_state_members r)

  -- OmniscienceRecord.record_hash
  unfoldable pub own_hash : OmniscienceRecord → Text
  own_hash r = record_hash sha256 (preimage r)

  -- OmniscienceRecord.filename
  unfoldable pub filename : OmniscienceRecord → Text
  unfolding own_hash
  filename r = codes "register/" ++ (own_hash r ++ codes ".toml")

  -- OmniscienceRecord.leaf_key
  unfoldable pub leaf_key : OmniscienceRecord → List Bytes
  unfolding own_hash
  leaf_key r = utf8 r.os_id ∷ utf8 r.project_branch ∷ utf8 r.state_id ∷ utf8 (own_hash r) ∷ []

  -- OmniscienceRecord.leaf_digest
  unfoldable pub leaf_of : OmniscienceRecord → Bytes
  unfolding space_hash own_hash
  leaf_of r = leaf_digest sha256 (
      field (codes "os_id") (str r.os_id) (
        field (codes "project_branch") (str r.project_branch) (
          field (codes "state_id") (str r.state_id) (
            field (codes "os_state_hash") (str (space_hash r))
              (field (codes "record_hash") (str (own_hash r)) end)))))

-- dict(row)
unfoldable pub row_members : Pairs → Members
row_members [] = end
row_members ((k, v) ∷ row) = field k (str v) (row_members row)

unfoldable pub row_items : List Pairs → Items
unfolding row_members
row_items [] = nil
row_items (row ∷ rows) = cons (obj (row_members row)) (row_items rows)

abbrev pub published_table : OmniscienceRecord → Members
published_table r = elim r.published_state_id [
  | none ↦ end
  | some id ↦
      field (codes "published_state")
        (obj (
          field (codes "id") (str id)
            (field (codes "repo") (arr (row_items r.published_rows)) end)))
        end
]

-- OmniscienceRecord.to_dict
unfoldable pub to_dict : (Bytes → Bytes) → OmniscienceRecord → Members
unfolding space_hash row_items
to_dict sha256 r =
    field (codes "record")
      (obj (
        field (codes "schema") (num r.schema) (
          field (codes "project") (str r.project) (
            field (codes "recorded_at") (str r.recorded_at) (
              field (codes "contributor") (str r.contributor)
                (optional_num (codes "sigma") r.sigma end))))))
      (field (codes "operating_space")
        (obj (operating_space r (field (codes "os_state_hash") (str (space_hash sha256 r)) end)))
        (field (codes "memory_repo")
          (obj (memory r (optional_text (codes "remote_locator") r.remote_locator end)))
          (published_table r)))
