-- ===== src/Merkle/Root.antt =====
-- The hashes of class `MerkleRoot` (merkle/merkle_root.py) over one payload, and the order of the
-- leaves. SHA-256 is the standard library's; it is the parameter `sha256`.
use complex_git_sync.Prelude.{
  ℕ, String, Bool, false, ◌||◌, Option, none, some, List, [], ◌∷◌, ◌++◌, map, ◌==◌, if◌then◌else◌,
  replicate, Text, Bytes, codes, text_eq, text_lt, sorted, Result, ◌>>=◌, ok, err,
}
use complex_git_sync.Merkle.Hex.{hex, from_hex}
use complex_git_sync.Merkle.Json.{Json, str, obj, Members, get, utf8, canonical_json}

-- MerkleError, one constructor for each message; `bad_hex` is the `ValueError` of `bytes.fromhex`.
pub data MerkleError : Type 0 where
  no_relative_path : Option Json → MerkleError
  back_slash : Text → MerkleError
  duplicate_path : Text → MerkleError
  no_repository : Text → MerkleError
  no_leaf : (index size : ℕ) → MerkleError
  bad_hex : Text → MerkleError

abbrev pub schema_version : ℕ
schema_version = 1

abbrev pub global_schema_version : ℕ
global_schema_version = 1

abbrev pub algorithm : Text
algorithm = codes "sha256"

abbrev pub genesis_prev : Text
genesis_prev = codes "sha256:" ++ replicate 64 b'0'

abbrev pub tag : String → Bytes
tag name = codes "CGS:" ++ (codes name ++ (codes ":v1" ++ (0 ∷ [])))

abbrev pub repo_tag : Bytes
repo_tag = tag "REPO"

abbrev pub node_tag : Bytes
node_tag = tag "NODE"

abbrev pub state_tag : Bytes
state_tag = tag "STATE"

abbrev pub os_state_tag : Bytes
os_state_tag = tag "OSSTATE"

abbrev pub record_tag : Bytes
record_tag = tag "RECORD"

abbrev pub leaf_tag : Bytes
leaf_tag = tag "GLEAF"

abbrev pub gnode_tag : Bytes
gnode_tag = tag "GNODE"

abbrev pub checkpoint_tag : Bytes
checkpoint_tag = tag "CHECKPOINT"

abbrev pub observation_tag : Bytes
observation_tag = tag "OBSERVATION"

-- `sha256:<hex>`
unfoldable pub prefixed : Text → Text
prefixed hex_digest = algorithm ++ (b':' ∷ hex_digest)

module _ (sha256 : Bytes → Bytes) where
  unfoldable pub digest : Json → Text
  digest payload = hex (sha256 (canonical_json payload))

  unfoldable pub content_digest : Bytes → Text
  content_digest bytes = hex (sha256 bytes)

  -- `hashlib`'s running hash is the bytes that it was given so far.
  unfoldable pub updates : Bytes → List Bytes → Bytes
  updates running [] = running
  updates running (chunk ∷ chunks) = updates (running ++ chunk) chunks

  unfoldable pub stream_digest : List Bytes → Text
  unfolding updates
  stream_digest chunks = hex (sha256 (updates [] chunks))

  unfoldable pub tagged : Bytes → Members → Bytes
  tagged t payload = sha256 (t ++ canonical_json (obj payload))

  unfoldable pub repo_leaf_hash : Members → Text
  repo_leaf_hash leaf = hex (sha256 (repo_tag ++ canonical_json (obj leaf)))

  unfoldable pub state_hash : Members → Text
  state_hash payload = hex (sha256 (state_tag ++ canonical_json (obj payload)))

  unfoldable pub os_state_hash : Members → Text
  unfolding tagged
  os_state_hash payload = hex (tagged os_state_tag payload)

  unfoldable pub record_hash : Members → Text
  unfolding tagged
  record_hash preimage = hex (tagged record_tag preimage)

  unfoldable pub leaf_digest : Members → Bytes
  unfolding tagged
  leaf_digest payload = tagged leaf_tag payload

  unfoldable pub checkpoint_hash : Members → Text
  unfolding tagged
  checkpoint_hash body = hex (tagged checkpoint_tag body)

  unfoldable pub observation_hash : Members → Text
  unfolding tagged
  observation_hash table = hex (tagged observation_tag table)

-- bytes.fromhex(text)
unfoldable pub decoded : Text → Result MerkleError Bytes
decoded text = elim (from_hex text) [ some bytes ↦ ok bytes | none ↦ err (bad_hex text) ]

abbrev pub Keyed : Type 0
Keyed = List (Bytes × Members)

-- key in keyed
unfoldable pub has_key : Bytes → Keyed → Bool
has_key key [] = false
has_key key ((k, leaf) ∷ keyed) = text_eq k key || has_key key keyed

unfoldable pub has_code : ℕ → Text → Bool
has_code c [] = false
has_code c (d ∷ text) = d == c || has_code c text

-- The checks of one leaf: its path.
unfoldable pub leaf_path : Members → Option Json → Result MerkleError Text
unfolding has_code
leaf_path leaf (some (str [])) = err (no_relative_path (get leaf (codes "name")))
leaf_path leaf (some (str (c ∷ cs))) =
    if has_code b'\\' (c ∷ cs) then err (back_slash (c ∷ cs)) else ok (c ∷ cs)
leaf_path leaf _ = err (no_relative_path (get leaf (codes "name")))

-- The loop of `_ordered`, over the dictionary built so far.
unfoldable pub gather : Keyed → List Members → Result MerkleError Keyed
unfolding leaf_path has_key
gather keyed [] = ok keyed
gather keyed (leaf ∷ leaves) = leaf_path leaf (get leaf (codes "relative_path")) >>= λ path.
    let key = utf8 path in
    let rest = gather (keyed ++ (key, leaf) ∷ []) leaves in
    if has_key key keyed then err (duplicate_path path) else rest

abbrev pub key_lt : Bytes × Members → Bytes × Members → Bool
key_lt a b = text_lt a.0 b.0

-- MerkleRoot._ordered
unfoldable pub ordered : List Members → Result MerkleError (List Members)
unfolding gather
ordered leaves = gather [] leaves >>= λ keyed. ok (map (λ entry. entry.1) (sorted key_lt keyed))

-- MerkleRoot.check_leaves
unfoldable pub check_leaves : List Members → Result MerkleError Unit
unfolding ordered
check_leaves leaves = ordered leaves >>= λ _. ok tt
