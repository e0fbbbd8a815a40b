-- ===== src/Tree/Cycles/Paths.antt =====
-- Equality of paths, and the dictionaries by path of tree/git_tree.py.
use complex_git_sync.Prelude.{
  ◌≡◌, refl, sym, ap₂, subst, ◌∙◌, inl, inr, true, false, ◌&&◌, some, List, [], ◌∷◌, if◌then◌else◌,
  Bool-cases, false_ne_true, and_left, and_right, text_eq, text_eq_refl, text_eq→eq,
}
use complex_git_sync.Repo.{FilePath}
use complex_git_sync.Tree.Branches.{path_eq}
use complex_git_sync.Tree.Cycles.{path_get, path_put}

pub path_eq_refl : (p : FilePath) → path_eq p p ≡ true
unfolding path_eq
path_eq_refl [] = refl
path_eq_refl (x ∷ xs) = ap₂ (λ a b. a && b) (text_eq_refl x) (path_eq_refl xs)

pub path_eq→eq : (p q : FilePath) → path_eq p q ≡ true → p ≡ q
unfolding path_eq
path_eq→eq [] [] h = refl
path_eq→eq [] (y ∷ ys) h = absurd (false_ne_true h)
path_eq→eq (x ∷ xs) [] h = absurd (false_ne_true h)
path_eq→eq (x ∷ xs) (y ∷ ys) h =
    ap₂ (λ a as'. a ∷ as') (text_eq→eq x y (and_left (text_eq x y) (path_eq xs ys) h))
      (path_eq→eq xs ys (and_right (text_eq x y) (path_eq xs ys) h))

pub path_eq_comm : (p q : FilePath) → path_eq p q ≡ path_eq q p
path_eq_comm p q = elim (Bool-cases (path_eq p q)) [
  | inl same ↦ rw (path_eq→eq p q same) refl
  | inr other ↦ elim (Bool-cases (path_eq q p)) [
    | inl same ↦ rw (path_eq→eq q p same) refl
    | inr also ↦ other ∙ sym also
  ]
]

pub path_get-path_put {ℓ} :
    {A : Type ℓ} (items : List (FilePath × A)) (key : FilePath) (value : A) (k : FilePath)
    → path_get (path_put items key value) k
      ≡ (if path_eq key k then some value else path_get items k)
unfolding path_get path_put
path_get-path_put [] key value k = refl
path_get-path_put ((j, v) ∷ items) key value k = elim (Bool-cases (path_eq j key)) [
  | inl same ↦
      rw (same, path_eq→eq j key same)
        (elim (Bool-cases (path_eq key k)) [
          | inl itself ↦ rw (itself) refl
          | inr not_it ↦ rw (not_it) refl
        ])
  | inr other ↦
      rw (other, path_get-path_put items key value k)
        (elim (Bool-cases (path_eq key k)) [
          | inl itself ↦
              let not_j : path_eq j k ≡ false =
                subst (λ i. path_eq j i ≡ false) (path_eq→eq key k itself) other in
              rw (itself, not_j) refl
          | inr not_it ↦ rw (not_it) refl
        ])
]
