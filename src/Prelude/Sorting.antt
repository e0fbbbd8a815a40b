-- ===== src/Prelude/Sorting.antt =====
-- Python's `sorted` as a stable insertion sort, over a strict Boolean order on keys.
use mathlib.Core.Path.{◌≡◌, refl}
use mathlib.Core.Bool.{Bool}
use mathlib.Core.List.{List, [], ◌∷◌}
use complex_git_sync.Prelude.Tests.{if◌then◌else◌}

module _ {ℓ} {A : Type ℓ} (lt : A → A → Bool) where
  unfoldable pub insert_sorted : A → List A → List A
  insert_sorted x [] = x ∷ []
  insert_sorted x (y ∷ ys) = if lt y x then y ∷ insert_sorted x ys else x ∷ y ∷ ys

  unfoldable pub sorted : List A → List A
  unfolding insert_sorted
  sorted [] = []
  sorted (x ∷ xs) = insert_sorted x (sorted xs)

  pub sorted-cons : (x : A) (xs : List A) → sorted (x ∷ xs) ≡ insert_sorted x (sorted xs)
  unfolding sorted
  sorted-cons x xs = refl
