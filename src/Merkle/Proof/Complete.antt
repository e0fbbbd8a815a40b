-- ===== src/Merkle/Proof/Complete.antt =====
-- Every proof that the program makes is accepted.
use complex_git_sync.Prelude.{
  ℕ, zero, suc, ◌-◌, ◌≤◌, ◌<◌, ◌≡◌, refl, ap, ◌∙◌, ◌≢◌, inl, inr, true, some, List, [], ◌∷◌, ◌++◌,
  arith, ltb, ◌==◌, ltb→lt, lt→ltb, ==_iff, ==_refl, Bool-cases, some_inj, length, get_elem?, take,
  drop, All, get_elem?-take, get_elem?-drop, All-take, All-drop, All-get_elem?, get_elem?-lt, Text,
  Bytes, text_eq, text_eq_refl, text_eq_iff, ok,
}
use complex_git_sync.Merkle.Hex.{hex, from_hex, IsByte, from_hex-hex}
use complex_git_sync.Merkle.Root.{gnode_tag, global_schema_version}
use complex_git_sync.Merkle.Tree.{global_root, split_at, inner, subtree, path}
use complex_git_sync.Merkle.Tree.Rfc.{Halves, halves, subtree-IsSplit, path-split}
use complex_git_sync.Merkle.Proof.{
  InclusionProof, global, walk, verify, global_inclusion_proof, kind_tag, kind_schema, siblings,
}
use complex_git_sync.Merkle.Proof.Audit.{walk-Reaches, Reaches, leaf, left, right}

siblings_cons_none : (x : Text) (ss : List Text) → siblings (x ∷ ss) ≢ some []
unfolding siblings
siblings_cons_none x ss = ground arith

siblings_cons :
    (x : Text) (ss : List Text) (c : Bytes) (bs : List Bytes)
    → siblings (x ∷ ss) ≡ some (c ∷ bs)
    → (from_hex x ≡ some c) × (siblings ss ≡ some bs)
unfolding siblings
siblings_cons x ss c bs h = ground arith

siblings_one : (s : Text) (b : Bytes) → from_hex s ≡ some b → siblings (s ∷ []) ≡ some (b ∷ [])
unfolding siblings
siblings_one s b h = ground arith

siblings_more :
    (x s : Text) (ss : List Text) (c : Bytes) (cs : List Bytes)
    → from_hex x ≡ some c
    → siblings ss ≡ some cs
    → siblings (x ∷ ss) ≡ some (c ∷ cs)
unfolding siblings
siblings_more x s ss c cs h k = ground arith

siblings-append :
    (ss : List Text) (bs : List Bytes) (s : Text) (b : Bytes)
    → siblings ss ≡ some bs
    → from_hex s ≡ some b
    → siblings (ss ++ s ∷ []) ≡ some (bs ++ b ∷ [])
unfolding siblings
siblings-append [] bs s b h k =
    siblings_one s b k ∙ ap (λ cs. some (cs ++ b ∷ [])) (some_inj (unfold siblings in h))
siblings-append (x ∷ ss) [] s b h k = absurd (siblings_cons_none x ss h)
siblings-append (x ∷ ss) (c ∷ bs) s b h k =
    let (p, q) = siblings_cons x ss c bs h in
    siblings_more x s (ss ++ s ∷ []) c (bs ++ b ∷ []) p (siblings-append ss bs s b q k)

module _ (sha256 : Bytes → Bytes) (t : Bytes)
    (is_bytes : (text : Bytes) → All IsByte (sha256 text)) where
  subtree-IsByte :
      (fuel : ℕ) (ds : List Bytes)
      → length ds ≤ fuel
      → All (λ d. All IsByte d) ds
      → All IsByte (subtree sha256 t ds)
  subtree-IsByte fuel [] le h = unfold subtree in is_bytes []
  subtree-IsByte fuel (d ∷ []) le h = unfold subtree in h.0
  subtree-IsByte fuel (d ∷ e ∷ ds) le h =
      rw ((subtree-IsSplit sha256 t (d ∷ e ∷ ds) (omega arith)).1) (unfold inner in is_bytes _)

  path_one : (index : ℕ) (d : Bytes) → siblings (path sha256 t index (d ∷ [])) ≡ some []
  unfolding path siblings
  path_one index d = refl

  -- The path that the program writes takes the leaf to the root.
  path-Reaches :
      (fuel index : ℕ) (ds : List Bytes) (x : Bytes)
      → length ds ≤ fuel
      → index < length ds
      → All (λ d. All IsByte d) ds
      → get_elem? ds index ≡ some x
      → (sibs : List Bytes) × (siblings (path sha256 t index ds) ≡ some sibs)
        × Reaches sha256 t x (length ds) index sibs (subtree sha256 t ds)
  path-Reaches fuel index [] x le lt h at_index = absurd (omega arith)
  path-Reaches fuel index (d ∷ []) x le lt h at_index =
      let z : index ≡ 0 = omega arith in
      let e : some d ≡ some x = rw z at at_index in
      let root : subtree sha256 t (d ∷ []) ≡ x = unfold subtree in some_inj e in
      ([], path_one index d, leaf refl z root)
  path-Reaches zero index (d ∷ e ∷ ds) x le lt h at_index = absurd (omega arith)
  path-Reaches (suc fuel) index (d ∷ e ∷ ds) x le lt h at_index =
      let all : List Bytes = d ∷ e ∷ ds in
      let k : ℕ = split_at (length all) in
      let half : Halves k all = halves all (omega arith) in
      let (is_split, root) = subtree-IsSplit sha256 t all (omega arith) in
      elim (Bool-cases (ltb index k)) [
        | inl under ↦
            let (ss, p, r) =
              path-Reaches fuel index (take k all) x (omega arith)
                (omega (arith, ltb→lt index k under)) (All-take (All IsByte) k all h)
                (get_elem?-take k index all (ltb→lt index k under) ∙ at_index) in
            let s : Bytes = subtree sha256 t (drop k all) in
            let b : All IsByte s =
              subtree-IsByte (length (drop k all)) (drop k all) (omega arith)
                (All-drop (All IsByte) k all h) in
            (
              ss ++ s ∷ [],
              rw (path-split sha256 t index all (omega arith), under)
                  (siblings-append _ ss (hex s) s p (from_hex-hex s b)),
              left k ss s (subtree sha256 t (take k all)) is_split (ltb→lt index k under) refl root
                  (rw half.first at r),
            )
        | inr over ↦
            let ge : k ≤ index = ground arith in
            let (ss, p, r) =
              path-Reaches fuel (index - k) (drop k all) x (omega arith) (omega arith)
                (All-drop (All IsByte) k all h) (get_elem?-drop k index all ge ∙ at_index) in
            let s : Bytes = subtree sha256 t (take k all) in
            let b : All IsByte s =
              subtree-IsByte (length (take k all)) (take k all) (omega arith)
                (All-take (All IsByte) k all h) in
            (
              ss ++ s ∷ [],
              rw (path-split sha256 t index all (omega arith), over)
                  (siblings-append _ ss (hex s) s p (from_hex-hex s b)),
              right k (length (drop k all)) (index - k) ss s (subtree sha256 t (drop k all))
                  is_split (omega arith) (omega arith) (omega arith) refl root r,
            )
      ]

module _ (sha256 : Bytes → Bytes) where
  -- A check passes where the path takes the leaf to the trusted root.
  pub verify-Reaches :
      (p : InclusionProof) (x root : Bytes) (sibs : List Bytes)
      → p.schema ≡ kind_schema p.kind
      → p.root ≡ hex root
      → p.leaf_index < p.tree_size
      → All IsByte x
      → siblings p.audit_path ≡ some sibs
      → Reaches sha256 (kind_tag p.kind) x p.tree_size p.leaf_index sibs root
      → verify sha256 p (hex x) (hex root) p.tree_size ≡ true
  verify-Reaches p x root sibs schema same lt bytes written reach =
      let w : walk sha256 (kind_tag p.kind) sibs p.leaf_index (p.tree_size - 1) x
          ≡ some (0, 0, root) =
        walk-Reaches sha256 (kind_tag p.kind) x reach in
      let passes : (p.schema == kind_schema p.kind) ≡ true = (==_iff _ _).1 schema in
      let roots : text_eq p.root (hex root) ≡ true = (text_eq_iff _ _).1 same in
      let sizes : (p.tree_size == p.tree_size) ≡ true = ==_refl p.tree_size in
      let inside : ltb p.leaf_index p.tree_size ≡ true = lt→ltb _ _ lt in
      let end : text_eq (hex root) (hex root) ≡ true = text_eq_refl (hex root) in
      unfold verify in rw (passes, roots, sizes, inside, from_hex-hex x bytes, written, w, end) refl

  -- Whatever leaves a tree has, `global_inclusion_proof` returns a proof for each index at which
  -- there is a leaf, and `verify` accepts it for that leaf, the tree's root and the tree's size.
  pub verify-global_inclusion_proof :
      (is_bytes : (text : Bytes) → All IsByte (sha256 text)) (digests : List Bytes) (index : ℕ)
      (x : Bytes)
      → All (λ d. All IsByte d) digests
      → get_elem? digests index ≡ some x
      → (p : InclusionProof) × (global_inclusion_proof sha256 digests index ≡ ok p)
        × (verify sha256 p (hex x) (global_root sha256 digests) (length digests) ≡ true)
  verify-global_inclusion_proof is_bytes digests index x bytes at_index =
      let lt : index < length digests = get_elem?-lt digests index at_index in
      let below : ltb index (length digests) ≡ true = lt→ltb _ _ lt in
      let (sibs, path_ok, reach) =
        path-Reaches sha256 gnode_tag is_bytes (length digests) index digests x (omega arith) lt
          bytes at_index in
      let p : InclusionProof = record {
        kind = global;
        schema = global_schema_version;
        leaf_index = index;
        tree_size = length digests;
        root = global_root sha256 digests;
        audit_path = path sha256 gnode_tag index digests;
      } in
      (
        p,
        (unfold global_inclusion_proof in rw below refl),
        (unfold global_root in
            verify-Reaches p x (subtree sha256 gnode_tag digests) sibs refl refl lt
              (All-get_elem? (All IsByte) digests index bytes at_index) path_ok reach),
      )
