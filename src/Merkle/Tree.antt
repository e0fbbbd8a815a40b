-- ===== src/Merkle/Tree.antt =====
-- The Merkle tree of merkle/merkle_root.py: `_inner`, `_subtree` and `_path`, and the
-- roots. A recursion on sublists takes the length of the list as fuel.
pub mod Power
pub mod Split
pub mod Rfc
use complex_git_sync.Prelude.{
  ℕ, zero, suc, ◌-◌, ◌*◌, List, [], ◌∷◌, ◌++◌, ltb, if◌then◌else◌, length, take, drop, Text, Bytes,
  Result, ◌>>=◌, ok,
}
use complex_git_sync.Merkle.Hex.{hex}
use complex_git_sync.Merkle.Json.{Members}
use complex_git_sync.Merkle.Root.{
  MerkleError, decoded, node_tag, gnode_tag, repo_leaf_hash, ordered,
}

-- while split * 2 < size: split *= 2
unfoldable pub split_loop : ℕ → ℕ → ℕ → ℕ
split_loop zero split size = split
split_loop (suc fuel) split size =
    let more = split_loop fuel (split * 2) size in if ltb (split * 2) size then more else split

unfoldable pub split_at : ℕ → ℕ
unfolding split_loop
split_at size = split_loop size 1 size

module _ (sha256 : Bytes → Bytes) where
  unfoldable pub inner : Bytes → Bytes → Bytes → Bytes
  inner t left right = sha256 (t ++ (left ++ right))

  module _ (t : Bytes) where
    unfoldable pub subtree_fuel : ℕ → List Bytes → Bytes
    unfolding inner
    subtree_fuel fuel [] = sha256 []
    subtree_fuel fuel (d ∷ []) = d
    subtree_fuel zero (d ∷ e ∷ ds) = sha256 []
    subtree_fuel (suc fuel) (d ∷ e ∷ ds) =
        let split = split_at (length (d ∷ e ∷ ds)) in
        sha256 (
          t
          ++ (subtree_fuel fuel (take split (d ∷ e ∷ ds))
              ++ subtree_fuel fuel (drop split (d ∷ e ∷ ds))))

    -- MerkleRoot._subtree
    unfoldable pub subtree : List Bytes → Bytes
    unfolding subtree_fuel
    subtree digests = subtree_fuel (length digests) digests

    unfoldable pub path_fuel : ℕ → ℕ → List Bytes → List Text
    unfolding split_at subtree
    path_fuel fuel index [] = []
    path_fuel fuel index (d ∷ []) = []
    path_fuel zero index (d ∷ e ∷ ds) = []
    path_fuel (suc fuel) index (d ∷ e ∷ ds) =
        let split = split_at (length (d ∷ e ∷ ds)) in
        let left = path_fuel fuel index (take split (d ∷ e ∷ ds)) in
        let right = path_fuel fuel (index - split) (drop split (d ∷ e ∷ ds)) in
        if ltb index split
        then left ++ hex (subtree (drop split (d ∷ e ∷ ds))) ∷ []
        else right ++ hex (subtree (take split (d ∷ e ∷ ds))) ∷ []

    -- MerkleRoot._path
    unfoldable pub path : ℕ → List Bytes → List Text
    unfolding path_fuel
    path index digests = path_fuel (length digests) index digests

  -- [bytes.fromhex(repo_leaf_hash(leaf)) for leaf in leaves]
  unfoldable pub leaf_digests : List Members → Result MerkleError (List Bytes)
  leaf_digests [] = ok []
  leaf_digests (leaf ∷ leaves) =
      let rest = leaf_digests leaves in
      decoded (repo_leaf_hash sha256 leaf) >>= λ d. rest >>= λ ds. ok (d ∷ ds)

  -- MerkleRoot.gittree_root
  unfoldable pub gittree_root : List Members → Result MerkleError Text
  gittree_root leaves = ordered leaves >>= λ tree.
      leaf_digests tree >>= λ digests. ok (hex (subtree node_tag digests))

  -- MerkleRoot.global_root
  unfoldable pub global_root : List Bytes → Text
  global_root digests = hex (subtree gnode_tag digests)
