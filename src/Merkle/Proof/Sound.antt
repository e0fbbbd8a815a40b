-- ===== src/Merkle/Proof/Sound.antt =====
-- A proof that `verify` accepts is about a leaf of the tree, unless a second preimage was found of
-- one of the inputs that were hashed for the tree's root.

use complex_git_sync.Merkle.Tree.Split.{split_at-IsSplit}
use complex_git_sync.Merkle.Tree.Power.{IsSplit, IsSplit-unique, width-pos}
use complex_git_sync.Prelude.{
  ℕ, zero, suc, ◌-◌, ◌≤◌, ◌<◌, ◌≡◌, refl, sym, ap, subst, ◌∙◌, ◌≢◌, ◌⊎◌, inl, inr, some, List, [],
  ◌∷◌, ◌++◌, arith, ltb, ltb→lt, Bool-cases, false_ne_true, length, get_elem?, take, drop, All,
  get_elem?-take, get_elem?-drop, All-take, All-drop, append_inj, All-unappend, unsnoc, Bytes,
  text_eq, text_eq→eq, text_eq_iff,
}
use complex_git_sync.Merkle.Tree.{split_at, inner, subtree}
use complex_git_sync.Merkle.Tree.Rfc.{subtree-IsSplit, Halves, halves}
use complex_git_sync.Merkle.Proof.Audit.{Reaches, leaf, left, right}

-- A digest of SHA-256.
abbrev pub IsDigest : Bytes → Type 0
IsDigest d = length d ≡ 32

module _ (sha256 : Bytes → Bytes) (t : Bytes) where
  -- The bytes that are hashed for the inner nodes of a tree.
  pub data HashedIn (a : Bytes) : List Bytes → Type 0 where
    here :
        {ds : List Bytes}
        → 1 < length ds
        → a
          ≡ t
            ++ (subtree sha256 t (take (split_at (length ds)) ds)
                ++ subtree sha256 t (drop (split_at (length ds)) ds))
        → HashedIn a ds
    in_first :
        {ds : List Bytes}
        → 1 < length ds
        → HashedIn a (take (split_at (length ds)) ds)
        → HashedIn a ds
    in_rest :
        {ds : List Bytes}
        → 1 < length ds
        → HashedIn a (drop (split_at (length ds)) ds)
        → HashedIn a ds

  -- Other bytes with the hash of bytes that were hashed for the tree.
  pub record SecondPreimage (ds : List Bytes) : Type 0 where
    pub input : Bytes
    pub other : Bytes
    pub hashed : HashedIn input ds
    pub differs : other ≢ input
    pub collides : sha256 other ≡ sha256 input

  module _ (is_digest : (text : Bytes) → IsDigest (sha256 text)) where
    subtree-IsDigest :
        (ds : List Bytes) → 0 < length ds → All IsDigest ds → IsDigest (subtree sha256 t ds)
    subtree-IsDigest [] lt h = absurd (omega arith)
    subtree-IsDigest (d ∷ []) lt h = unfold subtree in h.0
    subtree-IsDigest (d ∷ e ∷ ds) lt h =
        rw ((subtree-IsSplit sha256 t (d ∷ e ∷ ds) (omega arith)).1) (unfold inner in is_digest _)

    Reaches-IsDigest :
        {x : Bytes} {n m : ℕ} {sibs : List Bytes} {y : Bytes}
        → IsDigest x
        → Reaches sha256 t x n m sibs y
        → IsDigest y
    Reaches-IsDigest d (leaf n1 m0 e) = rw e d
    Reaches-IsDigest d (left k ss s y c lt e z r) = rw z (unfold inner in is_digest _)
    Reaches-IsDigest d (right k n' m' ss s y c en em lt e z r) = rw z (unfold inner in is_digest _)

    -- One node: either its two children are those of the tree, or a second preimage is at hand.
    same_children :
        (ds : List Bytes) (l r : Bytes)
        → 1 < length ds
        → IsDigest l
        → IsDigest (subtree sha256 t (take (split_at (length ds)) ds))
        → inner sha256 t l r ≡ subtree sha256 t ds
        → ((l ≡ subtree sha256 t (take (split_at (length ds)) ds))
            × (r ≡ subtree sha256 t (drop (split_at (length ds)) ds)))
          ⊎ SecondPreimage ds
    unfolding inner
    same_children ds l r lt dl df e =
        let first : Bytes = subtree sha256 t (take (split_at (length ds)) ds) in
        let rest : Bytes = subtree sha256 t (drop (split_at (length ds)) ds) in
        let hashes : sha256 (t ++ (l ++ r)) ≡ sha256 (t ++ (first ++ rest)) =
          e ∙ (subtree-IsSplit sha256 t ds lt).1 in
        elim (Bool-cases (text_eq (t ++ (l ++ r)) (t ++ (first ++ rest)))) [
          | inl same ↦
              let inputs : t ++ (l ++ r) ≡ t ++ (first ++ rest) = text_eq→eq _ _ same in
              inl (
                append_inj l r first rest (dl ∙ sym df)
                  (append_inj t (l ++ r) t (first ++ rest) refl inputs).1)
          | inr differ ↦ inr (record {
            input = t ++ (first ++ rest);
            other = t ++ (l ++ r);
            hashed = here lt refl;
            differs = λ same. false_ne_true (sym differ ∙ (text_eq_iff _ _).1 same);
            collides = hashes;
          })
        ]

    lift_first :
        (ds : List Bytes)
        → 1 < length ds
        → SecondPreimage (take (split_at (length ds)) ds)
        → SecondPreimage ds
    lift_first ds lt p = record {
      input = p.input;
      other = p.other;
      hashed = in_first lt p.hashed;
      differs = p.differs;
      collides = p.collides;
    }

    lift_rest :
        (ds : List Bytes)
        → 1 < length ds
        → SecondPreimage (drop (split_at (length ds)) ds)
        → SecondPreimage ds
    lift_rest ds lt p = record {
      input = p.input;
      other = p.other;
      hashed = in_rest lt p.hashed;
      differs = p.differs;
      collides = p.collides;
    }

    at_one :
        (ds : List Bytes) (x : Bytes)
        → length ds ≡ 1
        → x ≡ subtree sha256 t ds
        → get_elem? ds 0 ≡ some x
    at_one [] x one e = absurd (omega arith)
    at_one (d ∷ []) x one e = ap some (sym (e ∙ (unfold subtree in refl)))
    at_one (d ∷ d' ∷ ds) x one e = absurd (omega arith)

    pub Reaches-sound :
        {x : Bytes} {n m : ℕ} {sibs : List Bytes} {y : Bytes} (ds : List Bytes)
        → n ≡ length ds
        → y ≡ subtree sha256 t ds
        → IsDigest x
        → All IsDigest sibs
        → All IsDigest ds
        → Reaches sha256 t x n m sibs y
        → (get_elem? ds m ≡ some x) ⊎ SecondPreimage ds
    Reaches-sound {x} ds size root dx dsibs dds (leaf n1 m0 e) =
        inl (rw m0 (at_one ds x (omega arith) (sym e ∙ root)))
    Reaches-sound {m} ds size root dx dsibs dds (left k ss s y c lt e z r) =
        let kpos : 1 ≤ k = omega (arith, c.power, width-pos c.level) in
        let many : 1 < length ds = omega (arith, c.below) in
        let half : Halves (split_at (length ds)) ds = halves ds many in
        let same : k ≡ split_at (length ds) =
          IsSplit-unique k (split_at (length ds)) (length ds) (subst (IsSplit k) size c)
            (split_at-IsSplit (length ds) many) in
        let (dss, _) = All-unappend IsDigest ss (s ∷ []) (subst (All IsDigest) e dsibs) in
        let dfirst : All IsDigest (take (split_at (length ds)) ds) = All-take IsDigest _ ds dds in
        elim (same_children ds y s many (Reaches-IsDigest dx r)
          (subtree-IsDigest _ (omega (arith, half.first, half.pos)) dfirst) (sym z ∙ root)) [
            | inr found ↦ inr found
            | inl (l, _) ↦
                elim (Reaches-sound (take (split_at (length ds)) ds) (same ∙ sym half.first) l dx
                  dss dfirst r) [
                    | inl at_m ↦ inl (
                        sym (get_elem?-take (split_at (length ds)) m ds (omega (arith, same)))
                        ∙ at_m)
                    | inr found ↦ inr (lift_first ds many found)
                  ]
          ]
    Reaches-sound {x} {m} ds size root dx dsibs dds (right k n' m' ss s y c en em lt e z r) =
        let kpos : 1 ≤ k = omega (arith, c.power, width-pos c.level) in
        let many : 1 < length ds = omega (arith, c.below) in
        let half : Halves (split_at (length ds)) ds = halves ds many in
        let same : k ≡ split_at (length ds) =
          IsSplit-unique k (split_at (length ds)) (length ds) (subst (IsSplit k) size c)
            (split_at-IsSplit (length ds) many) in
        let (dss, ds1) = All-unappend IsDigest ss (s ∷ []) (subst (All IsDigest) e dsibs) in
        let dfirst : All IsDigest (take (split_at (length ds)) ds) = All-take IsDigest _ ds dds in
        let drest : All IsDigest (drop (split_at (length ds)) ds) = All-drop IsDigest _ ds dds in
        elim (same_children ds s y many ds1.0
          (subtree-IsDigest _ (omega (arith, half.first, half.pos)) dfirst) (sym z ∙ root)) [
            | inr found ↦ inr found
            | inl (_, l) ↦
                elim (Reaches-sound (drop (split_at (length ds)) ds) (omega (arith, half.rest)) l dx
                  dss drest r) [
                    | inl at_m ↦ inl (
                        sym (get_elem?-drop (split_at (length ds)) m ds (omega (arith, same)))
                        ∙ ap (get_elem? (drop (split_at (length ds)) ds)) (omega (arith, same))
                        ∙ at_m)
                    | inr found ↦ inr (lift_rest ds many found)
                  ]
          ]

  -- How many siblings the leaf at index `m` has in a tree of `n` leaves, and that as many
  -- siblings, whatever they are, reach some root.
  pub depth :
      (fuel n m : ℕ) (x : Bytes)
      → n ≤ fuel
      → m < n
      → (d : ℕ) × ((sibs : List Bytes)
          → length sibs ≡ d
          → (y : Bytes) × Reaches sha256 t x n m sibs y)
  depth zero n m x le lt = absurd (omega arith)
  depth (suc fuel) n m x le lt = elim (Bool-cases (ltb 1 n)) [
    | inr one ↦ (0, λ sibs none. (x, no_siblings n m x sibs (ground arith) (ground arith) none))
    | inl many ↦
        let c : IsSplit (split_at n) n = split_at-IsSplit n (ltb→lt 1 n many) in
        let kpos : 1 ≤ split_at n = omega (arith, c.power, width-pos c.level) in
        elim (Bool-cases (ltb m (split_at n))) [
          | inl under ↦
              let (d, f) =
                depth fuel (split_at n) m x (omega (arith, c.below)) (ltb→lt _ _ under) in
              (
                suc d,
                λ sibs more.
                    let (ss, s, e, l) = unsnoc d sibs more in
                    let (y, r) = f ss l in
                    (inner sha256 t y s, left (split_at n) ss s y c (ltb→lt _ _ under) e refl r),
              )
          | inr over ↦
              let ge : split_at n ≤ m = ground arith in
              let (d, f) =
                depth fuel (n - split_at n) (m - split_at n) x (omega (arith, c.below))
                  (omega (arith, c.below)) in
              (
                suc d,
                λ sibs more.
                    let (ss, s, e, l) = unsnoc d sibs more in
                    let (y, r) = f ss l in
                    (
                      inner sha256 t s y,
                      right (split_at n) (n - split_at n) (m - split_at n) ss s y c
                          (omega (arith, c.below)) (omega arith) (omega (arith, c.below)) e refl r,
                    ),
              )
        ]
  ]
    where
      no_siblings :
          (n m : ℕ) (x : Bytes) (sibs : List Bytes)
          → n ≡ 1
          → m ≡ 0
          → length sibs ≡ 0
          → Reaches sha256 t x n m sibs x
      no_siblings n m x [] h k e = leaf h k refl
      no_siblings n m x (s ∷ sibs) h k e = absurd (omega arith)
