-- ===== src/Merkle/Tree/Rfc.antt =====
-- The fuel is enough: `subtree` and `path` satisfy the equations of RFC 9162 §2.1.1 and §2.1.3.1.
use complex_git_sync.Prelude.{
  ℕ, zero, suc, ◌-◌, ◌≤◌, ◌<◌, ◌≡◌, refl, ap₂, List, [], ◌∷◌, ◌++◌, arith, ltb, if◌then◌else◌,
  length, take, drop, length-take, length-drop, Bytes,
}
use complex_git_sync.Merkle.Hex.{hex}
use complex_git_sync.Merkle.Tree.{split_at, inner, subtree_fuel, subtree, path_fuel, path}
use complex_git_sync.Merkle.Tree.Power.{IsSplit, width-pos}
use complex_git_sync.Merkle.Tree.Split.{split_at-IsSplit}

-- The two halves of a list of more than one leaf.
pub record Halves {A : Type 0} (k : ℕ) (ds : List A) : Type 0 where
  pub pos : 0 < k
  pub below : k < length ds
  pub first : length (take k ds) ≡ k
  pub rest : length (drop k ds) ≡ length ds - k

pub halves : {A : Type 0} (ds : List A) → 1 < length ds → Halves (split_at (length ds)) ds
halves ds h =
    let k : ℕ = split_at (length ds) in
    let c : IsSplit k (length ds) = split_at-IsSplit (length ds) h in
    record {
      pos = omega (arith, c.power, width-pos c.level);
      below = c.below;
      first = length-take k ds (omega (arith, c.below));
      rest = length-drop k ds;
    }

module _ (sha256 : Bytes → Bytes) (t : Bytes) where
  subtree_fuel_lem :
      (f g : ℕ) (ds : List Bytes)
      → length ds ≤ f
      → length ds ≤ g
      → subtree_fuel sha256 t f ds ≡ subtree_fuel sha256 t g ds
  unfolding subtree_fuel
  subtree_fuel_lem f g [] h k = refl
  subtree_fuel_lem f g (d ∷ []) h k = refl
  subtree_fuel_lem zero g (d ∷ e ∷ ds) h k = absurd (omega arith)
  subtree_fuel_lem (suc f) zero (d ∷ e ∷ ds) h k = absurd (omega arith)
  subtree_fuel_lem (suc f) (suc g) (d ∷ e ∷ ds) h h' =
      let all : List Bytes = d ∷ e ∷ ds in
      let k : ℕ = split_at (length all) in
      let half : Halves k all = halves all (omega arith) in
      ap₂ (λ l r. sha256 (t ++ (l ++ r)))
        (subtree_fuel_lem f g (take k all) (omega arith) (omega arith))
        (subtree_fuel_lem f g (drop k all) (omega arith) (omega arith))

  path_fuel_lem :
      (f g index : ℕ) (ds : List Bytes)
      → length ds ≤ f
      → length ds ≤ g
      → path_fuel sha256 t f index ds ≡ path_fuel sha256 t g index ds
  unfolding path_fuel
  path_fuel_lem f g index [] h k = refl
  path_fuel_lem f g index (d ∷ []) h k = refl
  path_fuel_lem zero g index (d ∷ e ∷ ds) h k = absurd (omega arith)
  path_fuel_lem (suc f) zero index (d ∷ e ∷ ds) h k = absurd (omega arith)
  path_fuel_lem (suc f) (suc g) index (d ∷ e ∷ ds) h h' =
      let all : List Bytes = d ∷ e ∷ ds in
      let k : ℕ = split_at (length all) in
      let half : Halves k all = halves all (omega arith) in
      ap₂
        (λ l r.
          if ltb index k
          then l ++ hex (subtree sha256 t (drop k all)) ∷ []
          else r ++ hex (subtree sha256 t (take k all)) ∷ [])
        (path_fuel_lem f g index (take k all) (omega arith) (omega arith))
        (path_fuel_lem f g (index - k) (drop k all) (omega arith) (omega arith))

  -- For more than one leaf, MTH(D[n]) = HASH(tag || MTH(D[0:k]) || MTH(D[k:n])), where k is a power
  -- of two and k < n ≤ 2k.
  pub subtree-IsSplit :
      (ds : List Bytes)
      → 1 < length ds
      → IsSplit (split_at (length ds)) (length ds)
        × (subtree sha256 t ds
            ≡ inner sha256 t
                (subtree sha256 t (take (split_at (length ds)) ds))
                (subtree sha256 t (drop (split_at (length ds)) ds)))
  unfolding subtree
  subtree-IsSplit [] h = absurd (omega arith)
  subtree-IsSplit (d ∷ []) h = absurd (omega arith)
  subtree-IsSplit (d ∷ e ∷ ds) h =
      let all : List Bytes = d ∷ e ∷ ds in
      let k : ℕ = split_at (length all) in
      let half : Halves k all = halves all (omega arith) in
      (
        split_at-IsSplit (length all) h,
        ap₂ (λ l r. sha256 (t ++ (l ++ r)))
            (subtree_fuel_lem (suc (length ds)) (length (take k all)) (take k all) (omega arith)
              (omega arith))
            (subtree_fuel_lem (suc (length ds)) (length (drop k all)) (drop k all) (omega arith)
              (omega arith)),
      )

  pub path-split :
      (index : ℕ) (ds : List Bytes)
      → 1 < length ds
      → path sha256 t index ds ≡ (
          if ltb index (split_at (length ds))
          then path sha256 t index (take (split_at (length ds)) ds)
            ++ hex (subtree sha256 t (drop (split_at (length ds)) ds)) ∷ []
          else path sha256 t (index - split_at (length ds)) (drop (split_at (length ds)) ds)
            ++ hex (subtree sha256 t (take (split_at (length ds)) ds)) ∷ [])
  unfolding path
  path-split index [] h = absurd (omega arith)
  path-split index (d ∷ []) h = absurd (omega arith)
  path-split index (d ∷ e ∷ ds) h =
      let all : List Bytes = d ∷ e ∷ ds in
      let k : ℕ = split_at (length all) in
      let half : Halves k all = halves all (omega arith) in
      ap₂
        (λ l r.
          if ltb index k
          then l ++ hex (subtree sha256 t (drop k all)) ∷ []
          else r ++ hex (subtree sha256 t (take k all)) ∷ [])
        (path_fuel_lem (suc (length ds)) (length (take k all)) index (take k all) (omega arith)
          (omega arith))
        (path_fuel_lem (suc (length ds)) (length (drop k all)) (index - k) (drop k all)
          (omega arith) (omega arith))
