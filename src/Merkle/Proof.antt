-- ===== src/Merkle/Proof.antt =====
-- `InclusionProof` and `GlobalInclusionProof` of merkle/merkle_root.py: making and checking.
pub mod Climb
pub mod Audit
pub mod Complete
pub mod Sound
pub mod Forged
use complex_git_sync.Prelude.{
  ℕ, zero, suc, ◌-◌, ◌/◌, ◌%◌, Bool, false, ◌&&◌, ◌||◌, not, Option, none, some, List, [], ◌∷◌, ltb,
  ◌==◌, if◌then◌else◌, length, Text, Bytes, codes, text_eq, Result, ◌>>=◌, ok, err,
}
use mathlib.Core.Option
use complex_git_sync.Merkle.Hex.{hex, from_hex}
use complex_git_sync.Merkle.Json.{str, Members, get}
use complex_git_sync.Merkle.Root.{
  MerkleError, no_repository, no_leaf, node_tag, gnode_tag, schema_version, global_schema_version,
  ordered,
}
use complex_git_sync.Merkle.Tree.{inner, path, leaf_digests, gittree_root, global_root}

-- The two classes: `_TAG` and `_SCHEMA`.
pub data Kind : Type 0 where
  gittree global : Kind

abbrev pub kind_tag : Kind → Bytes
kind_tag gittree = node_tag
kind_tag global = gnode_tag

abbrev pub kind_schema : Kind → ℕ
kind_schema gittree = schema_version
kind_schema global = global_schema_version

pub record InclusionProof : Type 0 where
  pub kind : Kind
  pub schema : ℕ
  pub leaf_index : ℕ
  pub tree_size : ℕ
  pub root : Text
  pub audit_path : List Text

-- paths.index(relative_path)
unfoldable pub index_of : Text → List Members → Option ℕ
index_of wanted [] = none
index_of wanted (leaf ∷ leaves) =
    let later = Option.map suc (index_of wanted leaves) in
    elim (get leaf (codes "relative_path")) [
      | some (str p) ↦ if text_eq p wanted then some 0 else later
      | _ ↦ later
    ]

-- while not index & 1 and index != 0: index, last = index >> 1, last >> 1
unfoldable pub strip : ℕ → ℕ → ℕ → ℕ × ℕ
strip zero index last = (index, last)
strip (suc fuel) index last =
    let more = strip fuel (index / 2) (last / 2) in
    if index % 2 == 0 && not (index == 0) then more else (index, last)

-- index, last, node
abbrev pub Position : Type 0
Position = ℕ × ℕ × Bytes

-- [bytes.fromhex(sibling) for sibling in path]
unfoldable pub siblings : List Text → Option (List Bytes)
siblings [] = some []
siblings (s ∷ rest) =
    let more = siblings rest in
    elim (from_hex s) [ some b ↦ elim more [ some bs ↦ some (b ∷ bs) | none ↦ none ] | none ↦ none ]

module _ (sha256 : Bytes → Bytes) where
  -- The body of the loop of `verify`, after its test.
  unfoldable pub climb : Bytes → Bytes → ℕ → ℕ → Bytes → Position
  unfolding strip
  climb t sibling index last node =
      if index % 2 == 1 || index == last
      then (let (i, l) = strip index index last in (i / 2, l / 2, inner sha256 t sibling node))
      else (index / 2, last / 2, inner sha256 t node sibling)

  -- The loop of `verify`; `none` is its `return False`.
  unfoldable pub walk : Bytes → List Bytes → ℕ → ℕ → Bytes → Option Position
  unfolding climb
  walk t [] index last node = some (index, last, node)
  walk t (sibling ∷ rest) index last node =
      let (i, l, n) = climb t sibling index last node in
      let more = walk t rest i l n in if last == 0 then none else more

  unfoldable pub accepted : Text → Option Position → Bool
  accepted trusted_root none = false
  accepted trusted_root (some (index, last, node)) = last == 0 && text_eq (hex node) trusted_root

  unfoldable pub checked : InclusionProof → Text → Option Bytes → Option (List Bytes) → Bool
  unfolding accepted walk
  checked proof trusted_root (some node) (some path) =
      accepted trusted_root
        (walk (kind_tag proof.kind) path proof.leaf_index (proof.tree_size - 1) node)
  checked proof trusted_root _ _ = false

  -- InclusionProof.verify
  unfoldable pub verify : InclusionProof → Text → Text → ℕ → Bool
  unfolding checked siblings
  verify proof leaf_hash trusted_root trusted_size =
      if not (proof.schema == kind_schema proof.kind)
      then false
      else if not (text_eq proof.root trusted_root)
          || not (proof.tree_size == trusted_size)
          || not (ltb proof.leaf_index proof.tree_size)
      then false
      else checked proof trusted_root (from_hex leaf_hash) (siblings proof.audit_path)

  unfoldable pub proof_at : List Members → Text → Option ℕ → Result MerkleError InclusionProof
  proof_at tree relative_path none = err (no_repository relative_path)
  proof_at tree relative_path (some index) = leaf_digests sha256 tree >>= λ digests.
      gittree_root sha256 tree >>= λ root. ok (record {
        kind = gittree;
        schema = schema_version;
        leaf_index = index;
        tree_size = length tree;
        root = root;
        audit_path = path sha256 node_tag index digests;
      })

  -- MerkleRoot.inclusion_proof
  unfoldable pub inclusion_proof : List Members → Text → Result MerkleError InclusionProof
  unfolding proof_at index_of
  inclusion_proof leaves relative_path =
      ordered leaves >>= λ tree. proof_at tree relative_path (index_of relative_path tree)

  -- MerkleRoot.global_inclusion_proof
  unfoldable pub global_inclusion_proof : List Bytes → ℕ → Result MerkleError InclusionProof
  global_inclusion_proof digests index =
      if ltb index (length digests)
      then ok (record {
        kind = global;
        schema = global_schema_version;
        leaf_index = index;
        tree_size = length digests;
        root = global_root sha256 digests;
        audit_path = path sha256 gnode_tag index digests;
      })
      else err (no_leaf index (length digests))
