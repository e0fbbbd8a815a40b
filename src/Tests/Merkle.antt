-- ===== src/Tests/Merkle.antt =====
-- The theorems on merkle/merkle_root.py, at small trees and small values.
use complex_git_sync.Prelude.{
  ◌≡◌, refl, ◌≢◌, ◌↔◌, ◌⊎◌, true, some, List, [], ◌∷◌, arith, get_elem?, take, drop, All, Bytes,
  codes, text_eq, ok,
}
use complex_git_sync.Merkle.Hex.{IsByte, hex, from_hex}
use complex_git_sync.Merkle.Json.{Json, num, str, obj, field, end, canonical_json}
use complex_git_sync.Merkle.Json.Reordered.{Reordered, canonical_json-Reordered}
use complex_git_sync.Merkle.Root.{gnode_tag, node_tag}
use complex_git_sync.Merkle.Tree.{split_at, inner, subtree, global_root}
use complex_git_sync.Merkle.Tree.Power.{IsSplit}
use complex_git_sync.Merkle.Tree.Rfc.{subtree-IsSplit}
use complex_git_sync.Merkle.Proof.{
  gittree, global, InclusionProof, siblings, verify, global_inclusion_proof,
}
use complex_git_sync.Merkle.Proof.Complete.{verify-global_inclusion_proof}
use complex_git_sync.Merkle.Proof.Sound.{SecondPreimage}
use complex_git_sync.Merkle.Proof.Forged.{verify_sound, joined, verify_accepts_empty_leaf}
use complex_git_sync.Tests.{
  length_hash, length_hash-IsByte, length_hash-length, sevens, eights, sevens-IsByte, eights-IsByte,
}

abbrev three_leaves : List Bytes
three_leaves = sevens ∷ eights ∷ sevens ∷ []

three_leaves-IsByte : All (λ d. All IsByte d) three_leaves
three_leaves-IsByte = (sevens-IsByte, (eights-IsByte, (sevens-IsByte, tt)))

verify-global_inclusion_proof_example :
    (p : InclusionProof) × (global_inclusion_proof length_hash three_leaves 1 ≡ ok p)
    × (verify length_hash p (hex eights) (global_root length_hash three_leaves) 3 ≡ true)
verify-global_inclusion_proof_example =
    verify-global_inclusion_proof length_hash length_hash-IsByte three_leaves 1 eights
      three_leaves-IsByte refl

abbrev two_leaves : List Bytes
two_leaves = sevens ∷ eights ∷ []

abbrev first_proof : InclusionProof
first_proof = record {
  kind = global;
  schema = 1;
  leaf_index = 0;
  tree_size = 2;
  root = hex (subtree length_hash gnode_tag two_leaves);
  audit_path = hex eights ∷ [];
}

first_proof-siblings : siblings first_proof.audit_path ≡ some (eights ∷ [])
unfolding siblings from_hex hex
first_proof-siblings = refl

sevens-hex : from_hex (hex sevens) ≡ some sevens
unfolding from_hex hex
sevens-hex = refl

first_proof-verify :
    verify length_hash first_proof (hex sevens) (hex (subtree length_hash gnode_tag two_leaves)) 2
    ≡ true
unfolding verify siblings from_hex hex subtree text_eq split_at
first_proof-verify = refl

verify_sound_example :
    (get_elem? two_leaves 0 ≡ some sevens) ⊎ SecondPreimage length_hash gnode_tag two_leaves
verify_sound_example =
    verify_sound length_hash length_hash-length two_leaves first_proof (hex sevens) sevens
      (eights ∷ []) (refl, (refl, tt)) refl (refl, tt) sevens-hex first_proof-siblings
      first_proof-verify

verify_accepts_empty_leaf_example :
    (verify length_hash
        (joined length_hash gittree sevens eights)
        []
        (hex (subtree length_hash node_tag two_leaves))
        2
      ≡ true)
    × (get_elem? two_leaves 1 ≢ some [])
verify_accepts_empty_leaf_example =
    verify_accepts_empty_leaf length_hash gittree sevens eights sevens-IsByte eights-IsByte refl

abbrev one_order : Json
one_order = obj (field (codes "b") (num 1) (field (codes "a") (str (codes "x")) end))

abbrev other_order : Json
other_order = obj (field (codes "a") (str (codes "x")) (field (codes "b") (num 1) end))

canonical_json-Reordered_example :
    (canonical_json one_order ≡ canonical_json other_order) ↔ Reordered one_order other_order
canonical_json-Reordered_example = canonical_json-Reordered one_order other_order

subtree-IsSplit_example :
    IsSplit (split_at 3) 3
    × (subtree length_hash gnode_tag three_leaves
        ≡ inner length_hash gnode_tag
            (subtree length_hash gnode_tag (take (split_at 3) three_leaves))
            (subtree length_hash gnode_tag (drop (split_at 3) three_leaves)))
subtree-IsSplit_example = subtree-IsSplit length_hash gnode_tag three_leaves (omega arith)
