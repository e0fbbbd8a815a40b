-- ===== src/Merkle/Proof/Audit.antt =====
-- What a list of siblings makes of a leaf, by recursion on the shape of the tree (RFC 9162 §2.1.3),
-- and that the loop of `verify` computes it.
use complex_git_sync.Prelude.{
  ℕ, zero, suc, ◌+◌, ◌-◌, ◌/◌, ◌%◌, ◌≤◌, ◌<◌, ◌≡◌, refl, sym, ap, ap₂, subst, ◌∙◌, inl, inr, true,
  false, ◌||◌, Option, none, some, List, [], ◌∷◌, ◌++◌, arith, ltb, ◌==◌, ltb→lt, Bool-cases, Bytes,
}
use complex_git_sync.Merkle.Tree.{inner}
use complex_git_sync.Merkle.Proof.{Position, climb, walk}
use complex_git_sync.Merkle.Proof.Climb.{strip-odd, strip_scaled}
use complex_git_sync.Merkle.Tree.Power.{
  IsSplit, scale, width, shift, scale-add, scale-zero, width-pos, width-suc, width-le,
  width_neighbours, le-shift, shift-lt, scale-pos, scale_of_sub,
}
use native.Mathlib.Nat.{zero-add}

module _ (sha256 : Bytes → Bytes) (t : Bytes) (x : Bytes) where
  -- In a tree of `n` leaves the siblings take the node `x` at index `m` to the root `y`.
  pub data Reaches : ℕ → ℕ → List Bytes → Bytes → Type 0 where
    leaf : {n m : ℕ} {y : Bytes} → n ≡ 1 → m ≡ 0 → y ≡ x → Reaches n m [] y
    left :
        {n m : ℕ} {sibs : List Bytes} {z : Bytes} (k : ℕ) (ss : List Bytes) (s y : Bytes)
        → IsSplit k n
        → m < k
        → sibs ≡ ss ++ s ∷ []
        → z ≡ inner sha256 t y s
        → Reaches k m ss y
        → Reaches n m sibs z
    right :
        {n m : ℕ} {sibs : List Bytes} {z : Bytes} (k n' m' : ℕ) (ss : List Bytes) (s y : Bytes)
        → IsSplit k n
        → n ≡ k + n'
        → m ≡ k + m'
        → m' < n'
        → sibs ≡ ss ++ s ∷ []
        → z ≡ inner sha256 t s y
        → Reaches n' m' ss y
        → Reaches n m sibs z

  climb-even :
      (s y : Bytes) (q l : ℕ)
      → q + q < l
      → climb sha256 t s (q + q) l y ≡ (q, l / 2, inner sha256 t y s)
  climb-even s y q l h =
      let e : ((q + q) % 2 == 1) ≡ false = ground arith in
      let n : (q + q == l) ≡ false = ground arith in
      let d : (q + q) / 2 ≡ q = omega arith in unfold climb in rw (e, n, d)

  climb-odd :
      (s y : Bytes) (q l : ℕ) → climb sha256 t s (q + q + 1) l y ≡ (q, l / 2, inner sha256 t s y)
  climb-odd s y q l =
      let e : ((q + q + 1) % 2 == 1) ≡ true = ground arith in
      let d : (q + q + 1) / 2 ≡ q = omega arith in
      unfold climb in rw (e, strip-odd (q + q + 1) (q + q + 1) l (omega arith), d)

  climb-edge :
      (s y : Bytes) (e q : ℕ)
      → climb sha256 t s (scale e (q + q + 1)) (scale e (q + q + 1)) y ≡ (q, q, inner sha256 t s y)
  climb-edge s y e q =
      let i : ℕ = scale e (q + q + 1) in
      let b : (i % 2 == 1 || i == i) ≡ true = ground arith in
      let d : (q + q + 1) / 2 ≡ q = omega arith in
      unfold climb in rw (b, strip_scaled e i q (omega arith), d)

  -- The loop over two lists of siblings, one after the other.
  unfoldable pub and_then : List Bytes → Option Position → Option Position
  and_then more none = none
  and_then more (some (i, l, y)) = walk sha256 t more i l y

  pub walk-append :
      (ss more : List Bytes) (i l : ℕ) (y : Bytes)
      → walk sha256 t (ss ++ more) i l y ≡ and_then more (walk sha256 t ss i l y)
  unfolding walk and_then
  walk-append [] more i l y = refl
  walk-append (s ∷ ss) more i l y = elim (Bool-cases (l == 0)) [
    | inl done ↦ rw done
    | inr go ↦ let (i', l', y') = climb sha256 t s i l y in rw go (walk-append ss more i' l' y')
  ]

  walk-snoc :
      (i l : ℕ) (y : Bytes) (ss : List Bytes) (s : Bytes) {i' l' : ℕ} {y' : Bytes}
      → walk sha256 t ss i l y ≡ some (i', l', y')
      → 0 < l'
      → walk sha256 t (ss ++ s ∷ []) i l y ≡ some (climb sha256 t s i' l' y')
  unfolding and_then
  walk-snoc i l y ss s {i'} {l'} {y'} h pos =
      let z : (l' == 0) ≡ false = ground arith in
      rw (walk-append ss (s ∷ []), h) (unfold walk in rw z)

  split_level : (k h : ℕ) → IsSplit k (width (suc h)) → k ≡ width h
  split_level k h c =
      let e : suc h ≡ suc c.level =
        width_neighbours c.level (suc h) (omega (arith, c.power, c.below))
          (omega (arith, c.power, c.above)) in
      let l : c.level ≡ h = omega arith in c.power ∙ ap width l

  no-IsSplit_one : (k n : ℕ) → n ≡ 1 → ¬ IsSplit k n
  no-IsSplit_one k n e c = omega (arith, c.power, c.below, width-pos c.level)

  step_even :
      (i l : ℕ) (ss : List Bytes) (s y : Bytes) {sibs : List Bytes} {z : Bytes} (q l' : ℕ)
      → walk sha256 t ss i l x ≡ some (q + q, l', y)
      → q + q < l'
      → sibs ≡ ss ++ s ∷ []
      → z ≡ inner sha256 t y s
      → walk sha256 t sibs i l x ≡ some (q, l' / 2, z)
  step_even i l ss s y q l' h lt e f =
      rw (e, f) (walk-snoc i l x ss s h (omega arith) ∙ ap some (climb-even s y q l' lt))

  step_odd :
      (i l : ℕ) (ss : List Bytes) (s y : Bytes) {sibs : List Bytes} {z : Bytes} (q l' : ℕ)
      → walk sha256 t ss i l x ≡ some (q + q + 1, l', y)
      → 0 < l'
      → sibs ≡ ss ++ s ∷ []
      → z ≡ inner sha256 t s y
      → walk sha256 t sibs i l x ≡ some (q, l' / 2, z)
  step_odd i l ss s y q l' h lt e f =
      rw (e, f) (walk-snoc i l x ss s h lt ∙ ap some (climb-odd s y q l'))

  step_edge :
      (i l : ℕ) (ss : List Bytes) (s y : Bytes) {sibs : List Bytes} {z : Bytes} (e q : ℕ)
      → walk sha256 t ss i l x ≡ some (scale e (q + q + 1), scale e (q + q + 1), y)
      → sibs ≡ ss ++ s ∷ []
      → z ≡ inner sha256 t s y
      → walk sha256 t sibs i l x ≡ some (q, q, z)
  step_edge i l ss s y e q h p f =
      rw (p, f)
        (walk-snoc i l x ss s h (scale-pos e (q + q + 1) (omega arith))
          ∙ ap some (climb-edge s y e q))

  -- Below a full subtree the loop ends at the subtree's own position.
  walk_full :
      {n m : ℕ} {sibs : List Bytes} {y : Bytes} (h q L : ℕ)
      → n ≡ width h
      → scale h (q + 1) ≤ L + 1
      → Reaches n m sibs y
      → walk sha256 t sibs (scale h q + m) L x ≡ some (q, shift h L, y)
  walk_full {m} zero q L full fits (leaf n1 m0 yx) =
      let e : q + m ≡ q = omega arith in unfold walk in rw (e, yx) refl
  walk_full (suc h) q L full fits (leaf n1 m0 yx) = absurd (omega (arith, width-suc h, width-pos h))
  walk_full {n} zero q L full fits (left k ss s y c m_lt e z r) = absurd (no-IsSplit_one k n full c)
  walk_full {n} zero q L full fits (right k n' m' ss s y c en em lt e z r) =
      absurd (no-IsSplit_one k n full c)
  walk_full {m} (suc h) q L full fits (left k ss s y c m_lt e z r) =
      let hk : k ≡ width h = split_level k h (subst (IsSplit k) full c) in
      let room : scale h (q + q + 1) ≤ L = omega (
        arith,
        scale-add h (q + q) 1,
        scale-add h (q + 1) (q + 1),
        scale-add h q q,
        scale-add h q 1,
        width-pos h,
      ) in
      step_even _ L ss s y q (shift h L) (walk_full h (q + q) L hk (omega arith) r)
        (omega (arith, le-shift h (q + q + 1) L room)) e z
  walk_full {m} (suc h) q L full fits (right k n' m' ss s y c en em lt e z r) =
      let hk : k ≡ width h = split_level k h (subst (IsSplit k) full c) in
      let hn : n' ≡ width h = omega (arith, width-suc h) in
      let i : scale (suc h) q + m ≡ scale h (q + q + 1) + m' =
        omega (arith, scale-add h (q + q) 1) in
      let fits' : scale h (q + q + 1 + 1) ≤ L + 1 =
        subst (λ a. scale h a ≤ L + 1) (omega arith) fits in
      let room : scale h (q + q + 1) ≤ L = omega (arith, scale-add h (q + q + 1) 1, width-pos h) in
      rw i (
        step_odd _ L ss s y q (shift h L) (walk_full h (q + q + 1) L hn fits' r)
          (omega (arith, le-shift h (q + q + 1) L room)) e z)

  below_level :
      (k n h q : ℕ) (c : IsSplit k n)
      → n ≤ width h
      → (d : ℕ) × (scale h q ≡ scale c.level (scale d q + scale d q))
  below_level k n h q c le = elim (Bool-cases (ltb c.level h)) [
    | inl under ↦ scale_of_sub h (suc c.level) q (ltb→lt _ _ under)
    | inr over ↦ absurd (omega (arith, c.power, c.below, width-le h c.level (ground arith)))
  ]

  some_level : (n : ℕ) → (h : ℕ) × (n ≤ width h)
  some_level zero = (0, omega arith)
  some_level (suc n) =
      let (h, le) = some_level n in (suc h, omega (arith, width-suc h, width-pos h))

  -- At the right edge of the tree, where the last index falls inside the subtree.
  walk_edge :
      {n m : ℕ} {sibs : List Bytes} {y : Bytes} (h q : ℕ)
      → n ≤ width h
      → Reaches n m sibs y
      → (e : ℕ) × (walk sha256 t sibs (scale h q + m) (scale h q + n - 1) x
          ≡ some (scale e q, scale e q, y))
  walk_edge {n} {m} h q le (leaf n1 m0 yx) =
      let i : scale h q + m ≡ scale h q = omega arith in
      let l : scale h q + n - 1 ≡ scale h q = omega arith in
      (h, (unfold walk in rw (i, l, yx) refl))
  walk_edge {n} {m} {y = root} h q le (left k ss s y c m_lt e z r) =
      let (d, p) = below_level k n h q c le in
      let j : ℕ = c.level in
      let Q : ℕ = scale d q in
      let L : ℕ = scale j (Q + Q) + n - 1 in
      let one : scale j (Q + Q + 1) ≡ scale j (Q + Q) + k =
        scale-add j (Q + Q) 1 ∙ ap (λ a. scale j (Q + Q) + a) (sym c.power) in
      let two : scale j (Q + Q + 1 + 1) ≡ scale j (Q + Q) + k + k =
        scale-add j (Q + Q + 1) 1 ∙ ap₂ (λ a b. a + b) one (sym c.power) in
      let lo : Q + Q + 1 ≤ shift j L = le-shift j (Q + Q + 1) L (omega (arith, one, c.below)) in
      let hi : shift j L < Q + Q + 1 + 1 =
        shift-lt j (Q + Q + 1 + 1) L (omega (arith, two, c.above, c.below)) in
      let half : shift j L / 2 ≡ Q = omega arith in
      let full : walk sha256 t ss (scale j (Q + Q) + m) L x ≡ some (Q + Q, shift j L, y) =
        walk_full j (Q + Q) L c.power (omega (arith, one, c.below)) r in
      (
        d,
        rw p (
            step_even _ L ss s y Q (shift j L) full (omega arith) e z
            ∙ ap (λ (l : ℕ). some (Q, l, root)) half),
      )
  walk_edge {n} {m} h q le (right k n' m' ss s y c en em lt e z r) =
      let (d, p) = below_level k n h q c le in
      let j : ℕ = c.level in
      let Q : ℕ = scale d q in
      let one : scale j (Q + Q + 1) ≡ scale j (Q + Q) + k =
        scale-add j (Q + Q) 1 ∙ ap (λ a. scale j (Q + Q) + a) (sym c.power) in
      let (d', inside) = walk_edge j (Q + Q + 1) (omega (arith, c.power, c.above)) r in
      let i : scale j (Q + Q) + m ≡ scale j (Q + Q + 1) + m' = omega arith in
      let l : scale j (Q + Q) + n - 1 ≡ scale j (Q + Q + 1) + n' - 1 = omega arith in
      (d, rw (p, i, l) (step_edge _ _ ss s y d' Q inside e z))

  -- From a leaf to the root of a whole tree.
  pub walk-Reaches :
      {n m : ℕ} {sibs : List Bytes} {y : Bytes}
      → Reaches n m sibs y
      → walk sha256 t sibs m (n - 1) x ≡ some (0, 0, y)
  walk-Reaches {n} {m} r =
      let (h, le) = some_level n in
      let (e, w) = walk_edge h 0 le r in simp (scale-zero, zero-add) at w
