-- ===== src/Merkle/Tree/Split.antt =====
-- `split` is the largest power of two below the number of leaves.
use complex_git_sync.Prelude.{
  ℕ, zero, suc, ◌+◌, ◌*◌, ◌≤◌, ◌<◌, ◌≡◌, refl, inl, inr, arith, ltb, ltb→lt, Bool-cases,
}
use complex_git_sync.Merkle.Tree.{split_loop, split_at}
use complex_git_sync.Merkle.Tree.Power.{IsSplit, width, width-suc, width-pos}

split_loop-IsSplit :
    (fuel level size : ℕ)
    → width level < size
    → size ≤ width level + fuel
    → IsSplit (split_loop fuel (width level) size) size
unfolding split_loop
split_loop-IsSplit zero level size lt le = absurd (omega arith)
split_loop-IsSplit (suc fuel) level size lt le =
    let d : width level * 2 ≡ width (suc level) = omega (arith, width-suc level) in
    elim (Bool-cases (ltb (width level * 2) size)) [
      | inl more ↦ rw more (
          rw d (
            split_loop-IsSplit fuel (suc level) size (rw d at (ltb→lt _ _ more))
              (omega (arith, width-suc level, width-pos level))))
      | inr last ↦
          rw last (record { level = level; power = refl; below = lt; above = ground arith })
    ]

pub split_at-IsSplit : (size : ℕ) → 1 < size → IsSplit (split_at size) size
unfolding split_at
split_at-IsSplit size h = split_loop-IsSplit size 0 size h (omega arith)
