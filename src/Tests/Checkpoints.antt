-- ===== src/Tests/Checkpoints.antt =====
-- The theorem on the extension of the chain of checkpoints, at a register of one file.
use complex_git_sync.Prelude.{
  ◌≡◌, refl, Bool, false, Option, none, some, [], ◌∷◌, Text, codes, sorted, ok,
}
use complex_git_sync.Omniscience.Record.{OmniscienceRecord}
use complex_git_sync.Omniscience.Checkpoints.{
  Checkpoint, RegisterFile, Chain, chain_of, covered_of, head_text, body_hash, checkpoint_body,
  global_index, build,
}
use complex_git_sync.Omniscience.Checkpoints.Sticky.{Extends, build-Extends}
use complex_git_sync.Tests.{length_hash}
use complex_git_sync.Tests.Omniscience.{registration}

abbrev sample_file : RegisterFile
sample_file = record {
  branch = codes "garden";
  path = codes "register/a.toml";
  value = some registration;
  problem = none;
}

abbrev no_problem : OmniscienceRecord → Text → Bool
no_problem r branch = false

abbrev first_body : Checkpoint
first_body = checkpoint_body length_hash (global_index length_hash (registration ∷ [])) []

build-Extends_example :
    (chain : Chain) × (head : Option Text) × (chain_of length_hash [] ≡ ok (chain, head))
    × (first_body.parent ≡ head_text head)
    × (body_hash length_hash first_body ≡ body_hash length_hash first_body)
    × Extends length_hash no_problem (covered_of chain head) (sample_file ∷ []) first_body
unfolding build sorted
build-Extends_example =
    build-Extends length_hash no_problem [] (sample_file ∷ []) (body_hash length_hash first_body)
      first_body [] refl
