-- ===== src/Omniscience/Checkpoints.antt =====
-- omniscience/global_index.py and omniscience/omniscience_checkpoints.py: the index of the accepted
-- registrations, and the checkpoint that extends the chain. SHA-256, the files that Git holds, what
-- the remotes answer, and the canonical form of a project's name are parameters.
pub mod Dictionary
pub mod Sticky
use complex_git_sync.Prelude.{
  ℕ, Bool, true, false, ◌&&◌, ◌||◌, not, Option, none, some, List, [], ◌∷◌, ◌++◌, map,
  if◌then◌else◌, any, is_empty, Text, Bytes, codes, text_eq, text_lt, sorted, Result, ◌>>=◌, ok,
  err,
}
use complex_git_sync.Merkle.Json.{num, str, arr, Items, nil, cons, Members, field, end, utf8}
use complex_git_sync.Merkle.Root.{checkpoint_hash, content_digest, global_schema_version}
use complex_git_sync.Merkle.Tree.{global_root}
use complex_git_sync.Branch.{private_local_branch}
use complex_git_sync.Omniscience.Record.{OmniscienceRecord, own_hash, leaf_key, leaf_of}

-- A dictionary of records by their hash
abbrev pub Records : Type 0
Records = List (Text × OmniscienceRecord)

unfoldable pub put_record : Text → OmniscienceRecord → Records → Records
unfolding text_eq
put_record name r [] = (name, r) ∷ []
put_record name r ((k, s) ∷ records) =
    let rest = put_record name r records in
    if text_eq k name then (k, r) ∷ records else (k, s) ∷ rest

unfoldable pub get_record : Records → Text → Option OmniscienceRecord
unfolding text_eq
get_record [] name = none
get_record ((k, s) ∷ records) name = if text_eq k name then some s else get_record records name

abbrev pub values : Records → List OmniscienceRecord
values records = map (λ e. e.1) records

abbrev pub member : Text → List Text → Bool
member name names = any (λ n. text_eq n name) names

-- `<` on tuples of bytes
unfoldable pub tuple_lt : List Bytes → List Bytes → Bool
unfolding text_lt text_eq
tuple_lt xs [] = false
tuple_lt [] (y ∷ ys) = true
tuple_lt (x ∷ xs) (y ∷ ys) = let rest = tuple_lt xs ys in if text_eq x y then rest else text_lt x y

unfoldable pub text_items : List Text → Items
text_items [] = nil
text_items (t ∷ ts) = cons (str t) (text_items ts)

-- The body of a checkpoint
pub record Checkpoint : Type 0 where
  pub schema : ℕ
  pub parent : Text
  pub root : Text
  pub records : List Text

abbrev pub body_members : Checkpoint → Members
body_members c = field (codes "schema") (num c.schema) (
    field (codes "parent") (str c.parent) (
      field (codes "global_root") (str c.root)
        (field (codes "records") (arr (text_items c.records)) end)))

-- A file of the register: its record, or why it is none
pub record RegisterFile : Type 0 where
  pub branch : Text
  pub path : Text
  pub value : Option OmniscienceRecord
  pub problem : Option Text

abbrev pub global_branch : Text
global_branch = codes "_global"

-- The ConfigValidationErrors of `chain`
pub data ChainError : Type 0 where
  not_toml not_its_hash no_parent : Text → ChainError
  forked : List Text → ChainError

abbrev pub Chain : Type 0
Chain = List (Text × Checkpoint)

unfoldable pub find_checkpoint : Chain → Text → Option Checkpoint
unfolding text_eq
find_checkpoint [] name = none
find_checkpoint ((k, c) ∷ chain) name =
    if text_eq k name then some c else find_checkpoint chain name

abbrev pub has_checkpoint : Chain → Text → Bool
has_checkpoint chain name = elim (find_checkpoint chain name) [ none ↦ false | some c ↦ true ]

abbrev pub checkpoint_path : Text → Text
checkpoint_path name = codes "checkpoints/" ++ (name ++ codes ".toml")

-- The second loop of `chain`
unfoldable pub check_parents : Chain → Chain → Result ChainError Bool
unfolding find_checkpoint
check_parents whole [] = ok true
check_parents whole ((name, c) ∷ chain) =
    let rest = check_parents whole chain in
    if not (is_empty c.parent) && not (has_checkpoint whole c.parent)
    then err (no_parent name)
    else rest

-- `heads`
unfoldable pub heads_of : List Text → Chain → List Text
unfolding text_eq
heads_of parents [] = []
heads_of parents ((name, c) ∷ chain) =
    let rest = heads_of parents chain in if member name parents then rest else name ∷ rest

-- accepted = {name: valid[name].value for name in covered}; a name that is not there is lost.
unfoldable pub cover : Records → Records → List Text → Records × List Text
unfolding put_record get_record
cover valid accepted [] = (accepted, [])
cover valid accepted (name ∷ names) = elim (get_record valid name) [
  | none ↦ let (done, lost) = cover valid accepted names in (done, name ∷ lost)
  | some r ↦ cover valid (put_record name r accepted) names
]

abbrev pub is_key : Records → Text → Bool
is_key records name = elim (get_record records name) [ none ↦ false | some r ↦ true ]

-- What `build` decides of the chain at the tip
pub data Extension : Type 0 where
  unsound : (reason : ChainError) → Extension
  lost_records : (lost : List Text) → Extension
  unchanged : (head : Option Text) (unaccepted : List RegisterFile) → Extension
  extended : (name : Text) (body : Checkpoint) (unaccepted : List RegisterFile) → Extension

abbrev pub covered_of : Chain → Option Text → List Text
covered_of chain none = []
covered_of chain (some head) = elim (find_checkpoint chain head) [ none ↦ [] | some c ↦ c.records ]

unfoldable pub same_names : List Text → List Text → Bool
unfolding text_eq
same_names [] [] = true
same_names (x ∷ xs) (y ∷ ys) = text_eq x y && same_names xs ys
same_names _ _ = false

abbrev pub head_text : Option Text → Text
head_text none = []
head_text (some head) = head

-- Whether the accepted set did not grow
unfoldable pub nothing_new : Option Text → List Text → Records → Bool
unfolding same_names text_lt
nothing_new none covered accepted = is_empty accepted
nothing_new (some head) covered accepted =
    same_names (sorted text_lt (map (λ e. e.0) accepted)) (sorted text_lt covered)

module _ (sha256 : Bytes → Bytes) where
  unfoldable pub collect : Records → List OmniscienceRecord → Records
  unfolding put_record
  collect found [] = found
  collect found (r ∷ records) = collect (put_record (own_hash sha256 r) r found) records

  abbrev pub leaf_lt : OmniscienceRecord → OmniscienceRecord → Bool
  leaf_lt a b = tuple_lt (leaf_key sha256 a) (leaf_key sha256 b)

  -- GlobalIndex.of
  unfoldable pub global_index : List OmniscienceRecord → List OmniscienceRecord
  unfolding collect tuple_lt leaf_key
  global_index records = sorted leaf_lt (values (collect [] records))

  -- GlobalIndex.root
  unfoldable pub index_root : List OmniscienceRecord → Text
  unfolding leaf_of global_root
  index_root index = global_root sha256 (map (leaf_of sha256) index)

  -- GlobalIndex.checkpoint_body
  unfoldable pub checkpoint_body : List OmniscienceRecord → Text → Checkpoint
  unfolding index_root own_hash text_lt
  checkpoint_body index parent = record {
    schema = global_schema_version;
    parent = parent;
    root = index_root index;
    records = sorted text_lt (map (own_hash sha256) index);
  }

  -- MerkleRoot.checkpoint_hash of a body
  unfoldable pub body_hash : Checkpoint → Text
  unfolding checkpoint_hash text_items
  body_hash c = checkpoint_hash sha256 (body_members c)

  -- The first loop of `chain`: `none` is a file that is no TOML. A file that is one has the four fields
  -- of a body that `build` writes.
  unfoldable pub read_chain : List (Text × Option Checkpoint) → Result ChainError Chain
  unfolding body_hash text_eq
  read_chain [] = ok []
  read_chain ((path, none) ∷ files) = err (not_toml path)
  read_chain ((path, some c) ∷ files) =
      let rest = read_chain files in
      if text_eq path (checkpoint_path (body_hash c))
      then (rest >>= λ chain. ok ((body_hash c, c) ∷ chain))
      else err (not_its_hash path)

  -- GlobalCheckpoints.chain, of the files in order of path
  unfoldable pub chain_of :
      List (Text × Option Checkpoint) → Result ChainError (Chain × Option Text)
  unfolding read_chain check_parents heads_of text_lt
  chain_of files = read_chain files >>= λ chain. check_parents chain chain >>= λ sound.
      elim (sorted text_lt (heads_of (map (λ e. e.1.parent) chain) chain)) [
        | [] ↦ ok (chain, none)
        | head ∷ [] ↦ ok (chain, some head)
        | head ∷ other ∷ heads ↦ err (forked (head ∷ other ∷ heads))
      ]

  -- OperatingSpace.id_of: `canonical` is none where the name is refused with ConfigValidationError.
  unfoldable pub os_id_of : (Text → Option Text) → Text → Option Text
  os_id_of canonical name = elim (canonical name) [
    | none ↦ none
    | some form ↦ some (content_digest sha256 (utf8 form))
  ]

  -- GlobalCheckpoints._problem_with: whether there is a problem, or none where the name of the project
  -- is refused. `memory_problem` is what the memory's repository answers for a commit.
  unfoldable pub problem_with :
      (Text → Option Text)
      → (Text → Text → Bool)
      → List Text
      → OmniscienceRecord
      → Text
      → Option Bool
  unfolding private_local_branch os_id_of own_hash text_eq
  problem_with canonical memory_problem verified r branch =
      let expected = private_local_branch r.project r.project_branch false none in
      if text_eq r.project global_branch || text_eq expected global_branch
      then some true
      else elim (os_id_of canonical r.project) [
        | none ↦ none
        | some os_id ↦
            if not (text_eq r.os_id os_id) || not (text_eq branch expected)
            then some true
            else if member (own_hash sha256 r) verified
            then some false
            else some (memory_problem r.memory_repository r.memory_commit)
      ]

  -- valid = {f.value.record_hash: f ...}, of which only the values are read
  unfoldable pub valid_of : Records → List RegisterFile → Records
  unfolding put_record own_hash
  valid_of found [] = found
  valid_of found (f ∷ files) = elim f.value [
    | none ↦ valid_of found files
    | some r ↦ valid_of (put_record (own_hash sha256 r) r found) files
  ]

  -- The loop over the files: the accepted records, and the files that are not accepted
  unfoldable pub accept :
      (OmniscienceRecord → Text → Bool)
      → Records
      → List RegisterFile
      → List RegisterFile
      → Records × List RegisterFile
  unfolding put_record get_record own_hash
  accept problem accepted unaccepted [] = (accepted, unaccepted)
  accept problem accepted unaccepted (f ∷ files) =
      let as_none = accept problem accepted (unaccepted ++ f ∷ []) files in
      elim f.value [
        | none ↦ as_none
        | some r ↦
            let name = own_hash sha256 r in
            if is_key accepted name
            then accept problem accepted unaccepted files
            else if problem r f.branch
            then as_none
            else accept problem (put_record name r accepted) unaccepted files
      ]

  -- The end of `build`, of the accepted set
  unfoldable pub conclude : Option Text → List Text → Records × List RegisterFile → Extension
  unfolding nothing_new global_index checkpoint_body body_hash
  conclude head covered (accepted, unaccepted) =
      let body = checkpoint_body (global_index (values accepted)) (head_text head) in
      if nothing_new head covered accepted
      then unchanged head unaccepted
      else extended (body_hash body) body unaccepted

  -- The part of `build` after the chain was found sound
  unfoldable pub build_on :
      (OmniscienceRecord → Text → Bool)
      → List RegisterFile
      → Option Text
      → List Text
      → Records × List Text
      → Extension
  unfolding accept conclude
  build_on problem files head covered (accepted, lost) =
      if is_empty lost
      then conclude head covered (accept problem accepted [] files)
      else lost_records lost

  unfoldable pub build_from :
      (OmniscienceRecord → Text → Bool)
      → List RegisterFile
      → Result ChainError (Chain × Option Text)
      → Extension
  unfolding valid_of cover build_on find_checkpoint
  build_from problem files (err reason) = unsound reason
  build_from problem files (ok (chain, head)) =
      build_on problem files head (covered_of chain head)
        (cover (valid_of [] files) [] (covered_of chain head))

  -- `build`, the function that `extend` appends with, where the remote's history was not rewritten and
  -- `_problem_with` answers for each record that is asked about.
  unfoldable pub build :
      (OmniscienceRecord → Text → Bool)
      → List (Text × Option Checkpoint)
      → List RegisterFile
      → Extension
  unfolding chain_of build_from
  build problem chain_files files = build_from problem files (chain_of chain_files)
