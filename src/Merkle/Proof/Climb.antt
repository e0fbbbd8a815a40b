-- ===== src/Merkle/Proof/Climb.antt =====
-- The inner loop of `verify`, which drops the trailing zeros of an index.
use complex_git_sync.Prelude.{
  ℕ, zero, suc, ◌+◌, ◌/◌, ◌%◌, ◌≤◌, ◌<◌, ◌≡◌, refl, ◌∙◌, false, arith, ◌==◌,
}
use complex_git_sync.Merkle.Tree.Power.{scale, scale-double, scale-pos}
use complex_git_sync.Merkle.Proof.{strip}

pub strip-odd : (fuel i l : ℕ) → i % 2 ≡ 1 → strip fuel i l ≡ (i, l)
unfolding strip
strip-odd zero i l h = refl
strip-odd (suc fuel) i l h = ground arith

strip-even : (fuel i : ℕ) → 0 < i → strip (suc fuel) (i + i) (i + i) ≡ strip fuel i i
unfolding strip
strip-even fuel i h =
    let e : (i + i) / 2 ≡ i = omega arith in
    let d : (i + i) % 2 ≡ 0 = omega arith in
    let n : (i + i == 0) ≡ false = ground arith in rw (e, d, n)

pub strip_scaled :
    (e fuel q : ℕ)
    → scale e (q + q + 1) ≤ fuel
    → strip fuel (scale e (q + q + 1)) (scale e (q + q + 1)) ≡ (q + q + 1, q + q + 1)
strip_scaled zero fuel q h = strip-odd fuel _ _ (omega arith)
strip_scaled (suc e) zero q h = absurd (omega (arith, scale-pos (suc e) (q + q + 1) (omega arith)))
strip_scaled (suc e) (suc fuel) q h =
    let d : scale (suc e) (q + q + 1) ≡ scale e (q + q + 1) + scale e (q + q + 1) =
      scale-double e (q + q + 1) in
    let pos : 0 < scale e (q + q + 1) = scale-pos e (q + q + 1) (omega arith) in
    rw d (strip-even fuel (scale e (q + q + 1)) pos ∙ strip_scaled e fuel q (omega arith))
