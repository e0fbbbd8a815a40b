-- ===== src/Prelude/Least.antt =====
-- The first member of a sorted list: the first of the members with the least key.
use Prim.Native.Nat.{ℕ, ◌≤◌}
use mathlib.Core.Path.{◌≡◌, refl, sym, ap, subst, ◌∙◌}
use mathlib.Core.Logic.{inl, inr}
use mathlib.Core.Bool.{Bool, true, false}
use mathlib.Core.Option.{Option, none, some}
use mathlib.Core.List.{List, [], ◌∷◌}
use native.Mathlib.Omega.{arith}
use complex_git_sync.Prelude.Tests.{
  Bool-cases, Option-cases, if◌then◌else◌, ltb, some_inj, none_ne_some, if_cases, false_ne_true,
}
use complex_git_sync.Prelude.Lists.{All, All-weaken}
use complex_git_sync.Prelude.Counting.{count_if, filter}
use complex_git_sync.Prelude.Sorting.{insert_sorted, sorted}

module _ {ℓ} {A : Type ℓ} where
  abbrev pub head? : List A → Option A
  head? [] = none
  head? (x ∷ xs) = some x

  pub All-head? {κ} : (P : A → Type κ) (xs : List A) (y : A) → All P xs → head? xs ≡ some y → P y
  All-head? P [] y h e = absurd (none_ne_some e)
  All-head? P (x ∷ xs) y h e = subst P (some_inj e) h.0

  pub All-filter {κ} :
      (P : A → Type κ) (q : A → Bool) (xs : List A)
      → All P xs
      → All (λ x. P x × (q x ≡ true)) (filter q xs)
  unfolding filter
  All-filter P q [] h = tt
  All-filter P q (x ∷ xs) h =
      let ih = All-filter P q xs h.1 in
      elim (Bool-cases (q x)) [
        | inl keeps ↦ rw (keeps) ((h.0, keeps), ih)
        | inr drops ↦ rw (drops) ih
      ]

  pub All-both {κ μ} :
      (P : A → Type κ) (Q : A → Type μ) (xs : List A)
      → All P xs
      → All Q xs
      → All (λ x. P x × Q x) xs
  All-both P Q [] h k = tt
  All-both P Q (x ∷ xs) h k = ((h.0, k.0), All-both P Q xs h.1 k.1)

  pub count_if-zero : (p : A → Bool) (xs : List A) → count_if p xs ≡ 0 → All (λ x. p x ≡ false) xs
  count_if-zero p [] h = tt
  count_if-zero p (x ∷ xs) h = elim (Bool-cases (p x)) [
    | inl passes ↦ absurd (ground arith)
    | inr fails ↦ (fails, count_if-zero p xs (ground arith))
  ]

  pub All-unfilter {κ} :
      (P : A → Type κ) (q : A → Bool) (xs : List A)
      → All P (filter q xs)
      → All (λ x. q x ≡ true → P x) xs
  unfolding filter
  All-unfilter P q [] h = tt
  All-unfilter P q (x ∷ xs) h = elim (Bool-cases (q x)) [
    | inl keeps ↦
        let k : P x × All P (filter q xs) =
          subst (λ b. All P (if b then x ∷ filter q xs else filter q xs)) keeps h in
        (λ e. k.0, All-unfilter P q xs k.1)
    | inr drops ↦ (
      λ e. absurd (false_ne_true (sym drops ∙ e)),
      All-unfilter P q xs (subst (λ b. All P (if b then x ∷ filter q xs else filter q xs)) drops h),
    )
  ]

  All-insert_sorted {κ} :
      (lt : A → A → Bool) (P : A → Type κ) (x : A) (xs : List A)
      → P x
      → All P xs
      → All P (insert_sorted lt x xs)
  unfolding insert_sorted
  All-insert_sorted lt P x [] p h = (p, tt)
  All-insert_sorted lt P x (y ∷ ys) p h = elim (Bool-cases (lt y x)) [
    | inl below ↦ rw (below) (h.0, All-insert_sorted lt P x ys p h.1)
    | inr other ↦ rw (other) (p, h)
  ]

  pub All-sorted {κ} :
      (lt : A → A → Bool) (P : A → Type κ) (xs : List A) → All P xs → All P (sorted lt xs)
  unfolding sorted
  All-sorted lt P [] h = tt
  All-sorted lt P (x ∷ xs) h = All-insert_sorted lt P x _ h.0 (All-sorted lt P xs h.1)

  All-insert_sorted-parts {κ} :
      (lt : A → A → Bool) (P : A → Type κ) (x : A) (xs : List A)
      → All P (insert_sorted lt x xs)
      → P x × All P xs
  unfolding insert_sorted
  All-insert_sorted-parts lt P x [] h = h
  All-insert_sorted-parts lt P x (y ∷ ys) h = elim (Bool-cases (lt y x)) [
    | inl below ↦
        let k : P y × All P (insert_sorted lt x ys) =
          subst (λ b. All P (if b then y ∷ insert_sorted lt x ys else x ∷ y ∷ ys)) below h in
        let (p, rest) = All-insert_sorted-parts lt P x ys k.1 in (p, (k.0, rest))
    | inr other ↦ subst (λ b. All P (if b then y ∷ insert_sorted lt x ys else x ∷ y ∷ ys)) other h
  ]

  pub All-unsorted {κ} :
      (lt : A → A → Bool) (P : A → Type κ) (xs : List A) → All P (sorted lt xs) → All P xs
  unfolding sorted
  All-unsorted lt P [] h = tt
  All-unsorted lt P (x ∷ xs) h =
      let (p, rest) = All-insert_sorted-parts lt P x (sorted lt xs) h in
      (p, All-unsorted lt P xs rest)

  module _ (key : A → ℕ) where
    abbrev pub below_key : A → A → Bool
    below_key a b = ltb (key a) (key b)

    abbrev pick : A → Option A → Option A
    pick x none = some x
    pick x (some y) = if below_key y x then some y else some x

    head?-insert_sorted :
        (x : A) (ys : List A) → head? (insert_sorted below_key x ys) ≡ pick x (head? ys)
    unfolding insert_sorted
    head?-insert_sorted x [] = refl
    head?-insert_sorted x (y ∷ ys) = elim (Bool-cases (below_key y x)) [
      | inl below ↦ rw (below) refl
      | inr other ↦ rw (other) refl
    ]

    head?-sorted :
        (x : A) (xs : List A)
        → head? (sorted below_key (x ∷ xs)) ≡ pick x (head? (sorted below_key xs))
    unfolding sorted
    head?-sorted x xs = head?-insert_sorted x (sorted below_key xs)

    pick_some : (x : A) (o : Option A) → pick x o ≡ none → ⊥
    pick_some x none e = none_ne_some (sym e)
    pick_some x (some y) e = elim (Bool-cases (below_key y x)) [
      | inl below ↦ none_ne_some (sym (rw (below) at e))
      | inr other ↦ none_ne_some (sym (rw (other) at e))
    ]

    pub head?-sorted-none : (xs : List A) → head? (sorted below_key xs) ≡ none → xs ≡ []
    head?-sorted-none [] e = refl
    head?-sorted-none (x ∷ xs) e = absurd (pick_some x _ (sym (head?-sorted x xs) ∙ e))

    head?-sorted-least :
        (xs : List A) (y : A) → head? (sorted below_key xs) ≡ some y → All (λ z. key y ≤ key z) xs
    head?-sorted-least [] y e = tt
    head?-sorted-least (x ∷ xs) y e =
        let first : pick x (head? (sorted below_key xs)) ≡ some y = sym (head?-sorted x xs) ∙ e in
        elim (Option-cases (head? (sorted below_key xs))) [
          | inl empty ↦
              let same : x ≡ y = some_inj (ap (pick x) (sym empty) ∙ first) in
              let k = ap key same in
              (
                omega arith,
                subst (λ l. All (λ z. key y ≤ key z) l) (sym (head?-sorted-none xs empty)) tt,
              )
          | inr (w, is) ↦ elim (if_cases (below_key w x) (ap (pick x) (sym is) ∙ first)) [
            | inl (below, e1) ↦
                let k = ap key (some_inj e1) in
                let ih = head?-sorted-least xs w is in
                (ground arith, All-weaken _ _ xs (λ z (h : key w ≤ key z). omega arith) ih)
            | inr (other, e1) ↦
                let k = ap key (some_inj e1) in
                let ih = head?-sorted-least xs w is in
                let le : key x ≤ key w = ground arith in
                (omega arith, All-weaken _ _ xs (λ z (h : key w ≤ key z). omega arith) ih)
          ]
        ]

    least_first :
        (x : A) (xs : List A)
        → All (λ z. key x ≤ key z) xs
        → pick x (head? (sorted below_key xs)) ≡ some x
    least_first x xs all = elim (Option-cases (head? (sorted below_key xs))) [
      | inl empty ↦ ap (pick x) empty
      | inr (w, is) ↦
          let le = All-head? (λ z. key x ≤ key z) _ w (All-sorted below_key _ xs all) is in
          let other : below_key w x ≡ false = ground arith in
          ap (pick x) is ∙ ap (λ b. if b then some w else some x) other
    ]

    keep_first :
        (q : A → Bool) (x : A) (xs : List A)
        → q x ≡ true
        → All (λ z. key x ≤ key z) xs
        → head? (sorted below_key (filter q (x ∷ xs))) ≡ some x
    unfolding filter
    keep_first q x xs keeps all =
        let left =
          All-weaken _ (λ z. key x ≤ key z) (filter q xs) (λ z h. h.0) (All-filter _ q xs all) in
        rw (keeps) (head?-sorted x (filter q xs) ∙ least_first x (filter q xs) left)

    keep_next :
        (q : A → Bool) (x : A) (xs : List A) (y : A)
        → below_key y x ≡ true
        → head? (sorted below_key (filter q xs)) ≡ some y
        → head? (sorted below_key (filter q (x ∷ xs))) ≡ some y
    unfolding filter
    keep_next q x xs y below ih = elim (Bool-cases (q x)) [
      | inl keeps ↦ rw (keeps) (
          head?-sorted x (filter q xs)
          ∙ ap (pick x) ih
          ∙ ap (λ b. if b then some y else some x) below)
      | inr drops ↦ rw (drops) ih
    ]

    -- A filter that keeps the first member of the sorted list keeps it first.
    pub head?-sorted-filter :
        (q : A → Bool) (xs : List A) (y : A)
        → head? (sorted below_key xs) ≡ some y
        → q y ≡ true
        → head? (sorted below_key (filter q xs)) ≡ some y
    unfolding filter
    head?-sorted-filter q [] y e keeps = e
    head?-sorted-filter q (x ∷ xs) y e keeps =
        let first : pick x (head? (sorted below_key xs)) ≡ some y = sym (head?-sorted x xs) ∙ e in
        let all = head?-sorted-least (x ∷ xs) y e in
        let at_first : x ≡ y → head? (sorted below_key (filter q (x ∷ xs))) ≡ some y = λ same.
          let kept : q x ≡ true = ap q same ∙ keeps in
          let bound = subst (λ w. All (λ z. key w ≤ key z) xs) (sym same) all.1 in
          keep_first q x xs kept bound ∙ ap (λ w. some w) same in
        elim (Option-cases (head? (sorted below_key xs))) [
          | inl empty ↦ at_first (some_inj (ap (pick x) (sym empty) ∙ first))
          | inr (w, is) ↦ elim (if_cases (below_key w x) (ap (pick x) (sym is) ∙ first)) [
            | inl (below, e1) ↦
                let same = some_inj e1 in
                keep_next q x xs y (subst (λ v. below_key v x ≡ true) same below)
                  (head?-sorted-filter q xs y (is ∙ e1) keeps)
            | inr (other, e1) ↦ at_first (some_inj e1)
          ]
        ]
