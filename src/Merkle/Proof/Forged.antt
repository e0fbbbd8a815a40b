-- ===== src/Merkle/Proof/Forged.antt =====
-- What it takes for `verify` to accept a proof, whoever wrote it.
use complex_git_sync.Prelude.{
  ℕ, ◌-◌, ◌<◌, ◌≡◌, refl, sym, ap, ap₂, subst, ◌∙◌, ◌≢◌, ◌⊎◌, inl, inr, Bool, true, false, ◌&&◌,
  ◌||◌, not, Option, none, some, List, [], ◌∷◌, ◌++◌, arith, ltb, ◌==◌, if◌then◌else◌, ltb→lt,
  ==_iff, ==_refl, Bool-cases, some_inj, false_ne_true, none_ne_some, length, get_elem?, take, drop,
  replicate, All, length-append, length-take, length-drop, take-append-drop, All-append,
  length-replicate, Text, Bytes, text_eq, text_eq_refl, text_eq→eq,
}
use complex_git_sync.Merkle.Hex.{IsByte, from_hex-hex, hex, from_hex, hex, from_hex, hex-inj}
use complex_git_sync.Merkle.Tree.{split_at, inner, subtree}
use mathlib.Core.List.{append-nil}
use complex_git_sync.Merkle.Proof.{
  Kind, InclusionProof, kind_tag, kind_schema, siblings, Position, walk, accepted, checked, verify,
}
use complex_git_sync.Merkle.Proof.Audit.{Reaches, walk-Reaches, and_then, walk-append}
use complex_git_sync.Merkle.Proof.Sound.{IsDigest, SecondPreimage, Reaches-sound, depth}

module _ (sha256 : Bytes → Bytes) (t : Bytes) where
  walk_at_root :
      (i : ℕ) (y : Bytes) (more : List Bytes) → 0 < length more → walk sha256 t more i 0 y ≡ none
  walk_at_root i y [] h = absurd (omega arith)
  walk_at_root i y (s ∷ more) h = unfold walk in refl

  -- Past the root there is no more step.
  walk_too_long :
      (ss more : List Bytes) (i l : ℕ) (x : Bytes) {i' : ℕ} {y : Bytes}
      → walk sha256 t ss i l x ≡ some (i', 0, y)
      → 0 < length more
      → walk sha256 t (ss ++ more) i l x ≡ none
  walk_too_long ss more i l x {i'} {y} h pos =
      walk-append sha256 t x ss more i l x
      ∙ ap (and_then sha256 t x more) h
      ∙ (unfold and_then in walk_at_root i' y more pos)

  -- A walk that ends at the root has taken exactly the steps of the tree.
  walk-Reaches_of_root :
      (n m : ℕ) (x : Bytes) (sibs : List Bytes) (i : ℕ) (y : Bytes)
      → m < n
      → walk sha256 t sibs m (n - 1) x ≡ some (i, 0, y)
      → Reaches sha256 t x n m sibs y
  walk-Reaches_of_root n m x sibs i y lt w =
      let (d, f) = depth sha256 t n n m x (omega arith) lt in
      elim (Bool-cases (ltb (length sibs) d)) [
        | inl short ↦
            let pad : List Bytes = replicate (d - length sibs) [] in
            let few : length sibs < d = ltb→lt _ _ short in
            let (z, r) = f (sibs ++ pad) (
              omega (
                arith,
                length-append sibs pad,
                length-replicate {A = Bytes} (d - length sibs) [],
              )) in
            absurd (
              none_ne_some (
                sym (
                  walk_too_long sibs pad m (n - 1) x w
                    (omega (arith, length-replicate {A = Bytes} (d - length sibs) [])))
                ∙ walk-Reaches sha256 t x r))
        | inr long ↦ elim (Bool-cases (ltb d (length sibs))) [
          | inl over ↦
              let (z, r) = f (take d sibs) (length-take d sibs (omega (arith, ltb→lt _ _ over))) in
              absurd (
                none_ne_some (
                  sym (
                    walk_too_long (take d sibs) (drop d sibs) m (n - 1) x
                      (walk-Reaches sha256 t x r)
                      (omega (arith, length-drop d sibs, ltb→lt _ _ over)))
                  ∙ ap (λ ss. walk sha256 t ss m (n - 1) x) (take-append-drop d sibs)
                  ∙ w))
          | inr same ↦
              let (z, r) = f sibs (ground arith) in
              let e : some (0, 0, z) ≡ some (i, 0, y) = sym (walk-Reaches sha256 t x r) ∙ w in
              subst (Reaches sha256 t x n m sibs) (ap (λ (p : Position). p.2) (some_inj e)) r
        ]
      ]

guards_passed :
    (a b c d r : Bool)
    → (if not a then false else if not b || not c || not d then false else r) ≡ true
    → (a ≡ true) × (b ≡ true) × (c ≡ true) × (d ≡ true) × (r ≡ true)
guards_passed a b c d r h = ground arith

both_true : (a b : Bool) → (a && b) ≡ true → (a ≡ true) × (b ≡ true)
both_true a b h = ground arith

module _ (sha256 : Bytes → Bytes) where
  verify_parts :
      (p : InclusionProof) (leaf_hash trusted_root : Text) (size : ℕ) (x : Bytes)
      (sibs : List Bytes)
      → from_hex leaf_hash ≡ some x
      → siblings p.audit_path ≡ some sibs
      → verify sha256 p leaf_hash trusted_root size ≡ true
      → (p.tree_size ≡ size)
        × (p.leaf_index < p.tree_size)
        × (accepted sha256 trusted_root
              (walk sha256 (kind_tag p.kind) sibs p.leaf_index (p.tree_size - 1) x)
            ≡ true)
  verify_parts p leaf_hash trusted_root size x sibs hx hs v =
      let (_, _, sizes, inside, rest) =
        guards_passed (p.schema == kind_schema p.kind) (text_eq p.root trusted_root)
          (p.tree_size == size) (ltb p.leaf_index p.tree_size)
          (checked sha256 p trusted_root (from_hex leaf_hash) (siblings p.audit_path))
          (unfold verify in v) in
      let accepts : checked sha256 p trusted_root (some x) (some sibs) ≡ true =
        ap₂ (checked sha256 p trusted_root) (sym hx) (sym hs) ∙ rest in
      ((==_iff _ _).0 sizes, ltb→lt _ _ inside, (unfold checked in accepts))

  accepted_parts :
      (trusted_root : Text) (w : Option Position)
      → accepted sha256 trusted_root w ≡ true
      → (i : ℕ) × (y : Bytes) × (w ≡ some (i, 0, y)) × (hex y ≡ trusted_root)
  accepted_parts trusted_root none h = absurd (false_ne_true (unfold accepted in h))
  accepted_parts trusted_root (some (i, l, y)) h =
      let (zero_last, same) =
        both_true (l == 0) (text_eq (hex y) trusted_root) (unfold accepted in h) in
      (i, y, ap (λ (n : ℕ). some (i, n, y)) ((==_iff l 0).0 zero_last), text_eq→eq _ _ same)

  -- Where `verify` accepts a proof against the root and the size of a tree, with a leaf hash and
  -- siblings that are digests, the leaf stands in the tree at the proof's index, or else a second
  -- preimage has been found of an input that was hashed for the tree's own root.
  pub verify_sound :
      (is_digest : (text : Bytes) → IsDigest (sha256 text)) (ds : List Bytes) (p : InclusionProof)
      (leaf_hash : Text) (x : Bytes) (sibs : List Bytes)
      → All IsDigest ds
      → IsDigest x
      → All IsDigest sibs
      → from_hex leaf_hash ≡ some x
      → siblings p.audit_path ≡ some sibs
      → verify sha256 p leaf_hash (hex (subtree sha256 (kind_tag p.kind) ds)) (length ds) ≡ true
      → (get_elem? ds p.leaf_index ≡ some x) ⊎ SecondPreimage sha256 (kind_tag p.kind) ds
  verify_sound is_digest ds p leaf_hash x sibs dds dx dsibs hx hs v =
      let t : Bytes = kind_tag p.kind in
      let (size, lt, acc) = verify_parts p leaf_hash _ (length ds) x sibs hx hs v in
      let (i, y, w, root) = accepted_parts _ _ acc in
      Reaches-sound sha256 t is_digest ds size (hex-inj y (subtree sha256 t ds) root) dx dsibs dds
        (walk-Reaches_of_root sha256 t p.tree_size p.leaf_index x sibs i y lt w)

  -- A proof whose one sibling is both digests of a tree of two leaves, joined.
  abbrev pub joined : Kind → Bytes → Bytes → InclusionProof
  joined k l r = record {
    kind = k;
    schema = kind_schema k;
    leaf_index = 1;
    tree_size = 2;
    root = hex (subtree sha256 (kind_tag k) (l ∷ r ∷ []));
    audit_path = hex (l ++ r) ∷ [];
  }

  walk_joined :
      (k : Kind) (l r : Bytes)
      → walk sha256 (kind_tag k) ((l ++ r) ∷ []) 1 1 []
        ≡ some (0, 0, subtree sha256 (kind_tag k) (l ∷ r ∷ []))
  unfolding walk subtree split_at inner
  walk_joined k l r = ap (λ u. some (0, 0, sha256 (kind_tag k ++ u))) (append-nil (l ++ r))

  siblings_joined :
      (l r : Bytes)
      → All IsByte l
      → All IsByte r
      → siblings (hex (l ++ r) ∷ []) ≡ some ((l ++ r) ∷ [])
  siblings_joined l r bl br =
      let e : from_hex (hex (l ++ r)) ≡ some (l ++ r) =
        from_hex-hex (l ++ r) (All-append IsByte l r bl br) in
      unfold siblings in ground (arith, e)

  -- `verify` does not look at the length of a leaf hash or of a sibling: in every tree of two
  -- leaves it accepts, at index 1, the empty leaf hash with a sibling made of both leaves, although
  -- the leaf at that index is not empty.
  pub verify_accepts_empty_leaf :
      (k : Kind) (l r : Bytes)
      → All IsByte l
      → All IsByte r
      → IsDigest r
      → (verify sha256 (joined k l r) [] (hex (subtree sha256 (kind_tag k) (l ∷ r ∷ []))) 2 ≡ true)
        × (get_elem? (l ∷ r ∷ []) 1 ≢ some [])
  verify_accepts_empty_leaf k l r bl br dr =
      (verify_passes, λ e. absurd (omega (arith, ap length (some_inj e))))
    where
      root : Bytes
      root = subtree sha256 (kind_tag k) (l ∷ r ∷ [])

      schema_passes : (kind_schema k == kind_schema k) ≡ true
      schema_passes = ==_refl (kind_schema k)

      decoded_empty : from_hex [] ≡ some []
      decoded_empty = unfold from_hex in refl

      ends : accepted sha256 (hex root) (walk sha256 (kind_tag k) ((l ++ r) ∷ []) 1 1 []) ≡ true
      ends =
          ap (accepted sha256 (hex root)) (walk_joined k l r)
          ∙ (unfold accepted in text_eq_refl (hex root))

      verify_passes : verify sha256 (joined k l r) [] (hex root) 2 ≡ true
      verify_passes =
          unfold verify in
          rw (schema_passes, text_eq_refl (hex root), siblings_joined l r bl br, decoded_empty) ends
