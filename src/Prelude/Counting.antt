-- ===== src/Prelude/Counting.antt =====
-- How many members of a list pass a test.
use Prim.Native.Nat.{ℕ, suc, ◌+◌, ◌≤◌}
use mathlib.Core.Path.{◌≡◌, refl, ◌∙◌}
use mathlib.Core.Bool.{Bool, true, false, ◌&&◌, ◌||◌, not}
use mathlib.Core.List.{List, [], ◌∷◌, ◌++◌}
use native.Mathlib.Omega.{arith}
use complex_git_sync.Prelude.Tests.{if◌then◌else◌}
use complex_git_sync.Prelude.Lists.{length}
use complex_git_sync.Prelude.Sorting.{insert_sorted, sorted}

module _ {ℓ} {A : Type ℓ} where
  abbrev pub count_if : (A → Bool) → List A → ℕ
  count_if p [] = 0
  count_if p (x ∷ xs) = if p x then suc (count_if p xs) else count_if p xs

  unfoldable pub filter : (A → Bool) → List A → List A
  filter p [] = []
  filter p (x ∷ xs) = let rest = filter p xs in if p x then x ∷ rest else rest

module _ {ℓ} {A : Type ℓ} where
  pub count_if-append :
      (p : A → Bool) (xs ys : List A) → count_if p (xs ++ ys) ≡ count_if p xs + count_if p ys
  count_if-append p [] ys = omega arith
  count_if-append p (x ∷ xs) ys = let ih = count_if-append p xs ys in ground arith

  pub count_if-filter :
      (p q : A → Bool) (xs : List A) → count_if p (filter q xs) ≡ count_if (λ x. p x && q x) xs
  unfolding filter
  count_if-filter p q [] = refl
  count_if-filter p q (x ∷ xs) = let ih = count_if-filter p q xs in ground arith

  pub count_if-and : (p q : A → Bool) (xs : List A) → count_if (λ x. p x && q x) xs ≤ count_if p xs
  count_if-and p q [] = omega arith
  count_if-and p q (x ∷ xs) = let ih = count_if-and p q xs in ground arith

  pub count_if-true : (xs : List A) → count_if (λ x. true) xs ≡ length xs
  count_if-true [] = refl
  count_if-true (x ∷ xs) = let ih = count_if-true xs in omega arith

  pub count_if-or :
      (p q r : A → Bool) (xs : List A)
      → ((x : A) → (q x && r x) ≡ false)
      → count_if (λ x. p x && (q x || r x)) xs
        ≡ count_if (λ x. p x && q x) xs + count_if (λ x. p x && r x) xs
  count_if-or p q r [] apart = omega arith
  count_if-or p q r (x ∷ xs) apart =
      let ih = count_if-or p q r xs apart in let h = apart x in ground arith

  pub count_if-insert_sorted :
      (lt : A → A → Bool) (p : A → Bool) (x : A) (xs : List A)
      → count_if p (insert_sorted lt x xs) ≡ count_if p (x ∷ xs)
  unfolding insert_sorted
  count_if-insert_sorted lt p x [] = refl
  count_if-insert_sorted lt p x (y ∷ ys) = let ih = count_if-insert_sorted lt p x ys in ground arith

  pub count_if-sorted :
      (lt : A → A → Bool) (p : A → Bool) (xs : List A) → count_if p (sorted lt xs) ≡ count_if p xs
  unfolding sorted
  count_if-sorted lt p [] = refl
  count_if-sorted lt p (x ∷ xs) =
      let ih = count_if-sorted lt p xs in
      let step = count_if-insert_sorted lt p x (sorted lt xs) in step ∙ ground arith

  pub count_if-contradiction :
      (q : A → Bool) (xs : List A) → count_if (λ x. not (q x) && q x) xs ≡ 0
  count_if-contradiction q [] = refl
  count_if-contradiction q (x ∷ xs) = let ih = count_if-contradiction q xs in ground arith

  pub count_if-cong :
      (p q : A → Bool) (xs : List A) → ((x : A) → p x ≡ q x) → count_if p xs ≡ count_if q xs
  count_if-cong p q [] same = refl
  count_if-cong p q (x ∷ xs) same =
      let ih = count_if-cong p q xs same in let h = same x in ground arith
