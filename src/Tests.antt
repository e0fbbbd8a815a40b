-- ===== src/Tests.antt =====
-- The theorems at concrete inputs, with a stand-in for SHA-256 where a theorem takes one.
mod Cycles
mod Merkle
mod Memory
mod Omniscience
mod Codec
mod Stores
mod Samples
mod Branch
mod Tree
mod Operations
mod Checkpoints
use complex_git_sync.Prelude.{
  ℕ, zero, suc, ◌%◌, ◌≡◌, refl, [], ◌∷◌, ◌++◌, arith, length, replicate, All, All-append, Bytes,
}
use complex_git_sync.Merkle.Hex.{IsByte}

-- A stand-in for SHA-256 that looks at the length of its input.
abbrev pub length_hash : Bytes → Bytes
length_hash text = replicate 31 7 ++ (length text % 256) ∷ []

replicate-IsByte : (n b : ℕ) → IsByte b → All IsByte (replicate n b)
replicate-IsByte zero b h = tt
replicate-IsByte (suc n) b h = (h, replicate-IsByte n b h)

pub length_hash-IsByte : (text : Bytes) → All IsByte (length_hash text)
length_hash-IsByte text =
    All-append IsByte (replicate 31 7) ((length text % 256) ∷ [])
      (replicate-IsByte 31 7 (omega arith)) (omega arith, tt)

pub length_hash-length : (text : Bytes) → length (length_hash text) ≡ 32
length_hash-length text = refl

abbrev pub sevens : Bytes
sevens = replicate 32 7

abbrev pub eights : Bytes
eights = replicate 32 8

pub sevens-IsByte : All IsByte sevens
sevens-IsByte = replicate-IsByte 32 7 (omega arith)

pub eights-IsByte : All IsByte eights
eights-IsByte = replicate-IsByte 32 8 (omega arith)
