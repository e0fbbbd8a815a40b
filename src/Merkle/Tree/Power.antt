-- ===== src/Merkle/Tree/Power.antt =====
-- Powers of two as numbers of leaves, and indices level by level.
use complex_git_sync.Prelude.{
  ℕ, zero, suc, ◌+◌, ◌/◌, ◌≤◌, ◌<◌, ◌≡◌, refl, sym, ap, ◌∙◌, inl, inr, arith, ltb, ltb→lt,
  Bool-cases,
}

-- The index at the leaves under which the node `a` stands `h` levels up: a * 2 ^ h.
abbrev pub scale : ℕ → ℕ → ℕ
scale zero a = a
scale (suc h) a = scale h (a + a)

-- 2 ^ h
abbrev pub width : ℕ → ℕ
width h = scale h 1

-- x >> h
abbrev pub shift : ℕ → ℕ → ℕ
shift zero x = x
shift (suc h) x = shift h x / 2

pub scale-add : (h a b : ℕ) → scale h (a + b) ≡ scale h a + scale h b
scale-add zero a b = refl
scale-add (suc h) a b = ap (scale h) (omega arith) ∙ scale-add h (a + a) (b + b)

pub scale-double : (h a : ℕ) → scale h (a + a) ≡ scale h a + scale h a
scale-double h a = scale-add h a a

pub scale-zero : (h : ℕ) → scale h 0 ≡ 0
scale-zero zero = refl
scale-zero (suc h) = scale-zero h

pub width-pos : (h : ℕ) → 1 ≤ width h
width-pos zero = omega arith
width-pos (suc h) = omega (arith, width-pos h, scale-double h 1)

pub width-suc : (h : ℕ) → width (suc h) ≡ width h + width h
width-suc h = scale-double h 1

pub width-le : (j h : ℕ) → j ≤ h → width j ≤ width h
width-le zero h e = width-pos h
width-le (suc j) zero e = absurd (omega arith)
width-le (suc j) (suc h) e = omega (arith, width-le j h (omega arith), width-suc j, width-suc h)

-- Two powers of two, one of them above half of the other and below it, are neighbours.
pub width_neighbours : (j h : ℕ) → width j < width h → width h ≤ width j + width j → h ≡ suc j
width_neighbours j h lo hi = elim (Bool-cases (ltb h (suc j))) [
  | inl small ↦ absurd (omega (arith, width-le h j (ground arith)))
  | inr big ↦ elim (Bool-cases (ltb (suc j) h)) [
    | inl large ↦ absurd (
        omega (
          arith,
          width-le (suc (suc j)) h (ltb→lt _ _ large),
          width-suc (suc j),
          width-suc j,
          width-pos j,
        ))
    | inr same ↦ ground arith
  ]
]

pub le-shift : (h a x : ℕ) → scale h a ≤ x → a ≤ shift h x
le-shift zero a x e = e
le-shift (suc h) a x e = omega (arith, le-shift h (a + a) x e)

pub shift-lt : (h a x : ℕ) → x < scale h a → shift h x < a
shift-lt zero a x e = e
shift-lt (suc h) a x e = omega (arith, shift-lt h (a + a) x e)

pub scale-pos : (h a : ℕ) → 0 < a → 0 < scale h a
scale-pos zero a e = e
scale-pos (suc h) a e = scale-pos h (a + a) (omega arith)

pub scale_of_sub : (h j q : ℕ) → j ≤ h → (e : ℕ) × (scale h q ≡ scale j (scale e q))
scale_of_sub h zero q le = (h, refl)
scale_of_sub zero (suc j) q le = absurd (omega arith)
scale_of_sub (suc h) (suc j) q le =
    let (e, p) = scale_of_sub h j (q + q) (omega arith) in (e, p ∙ ap (scale j) (scale-double e q))

-- The largest power of two below `n`.
pub record IsSplit (k n : ℕ) : Type 0 where
  pub level : ℕ
  pub power : k ≡ width level
  pub below : k < n
  pub above : n ≤ k + k

pub IsSplit-unique : (j k n : ℕ) → IsSplit j n → IsSplit k n → j ≡ k
IsSplit-unique j k n a b =
    let same : a.level ≡ b.level = elim (Bool-cases (ltb a.level b.level)) [
      | inl lt ↦ absurd (
          omega (
            arith,
            width-le (suc a.level) b.level (ltb→lt _ _ lt),
            width-suc a.level,
            a.power,
            a.above,
            b.power,
            b.below,
          ))
      | inr ge ↦ elim (Bool-cases (ltb b.level a.level)) [
        | inl lt ↦ absurd (
            omega (
              arith,
              width-le (suc b.level) a.level (ltb→lt _ _ lt),
              width-suc b.level,
              b.power,
              b.above,
              a.power,
              a.below,
            ))
        | inr ge' ↦ ground arith
      ]
    ] in
    a.power ∙ ap width same ∙ sym b.power
