-- ===== src/Memory/Verifier/Chain.antt =====
-- A chain in which no link and no hash is found wrong is a hash chain, and its last hash pins it.
use complex_git_sync.Prelude.{
  ℕ, ◌≡◌, refl, sym, ap, ◌∙◌, ◌≢◌, ◌↔◌, ◌⊎◌, inl, inr, Bool, true, false, ◌||◌, not, List, [], ◌∷◌,
  ◌++◌, arith, ◌==◌, if◌then◌else◌, length, any, append-eq-nil, any-append_left, any-append_right,
  Text, Bytes, text_eq, text_eq→eq, text_eq_iff, text_eq-false,
}
use complex_git_sync.Memory.Entry.{LedgerEntry}
use complex_git_sync.Memory.Entry.Binding.{SameFields}
use complex_git_sync.Memory.Entry.Hash.{entry_bytes, Collision, compute_hash-SameFields}
use complex_git_sync.Memory.Verifier.{
  Found, broken_link, recompute_hash, link_finding, hash_finding, check_hash_chain,
}

abbrev pub is_broken_at : ℕ → Found → Bool
is_broken_at seq (n, broken_link, detail) = n == seq
is_broken_at seq (n, kind, detail) = false

module _ (sha256 : Bytes → Bytes) where
  -- Each entry names the hash of the one before it, and carries its own.
  abbrev pub Linked : Text → List LedgerEntry → Type 0
  Linked expected [] = Unit
  Linked expected (e ∷ entries) =
      (e.prev ≡ expected)
      × (recompute_hash sha256 e ≡ e.entry_hash)
      × Linked (recompute_hash sha256 e) entries

  not_eq-nil : (b : Bool) (f : Found) → (if not b then f ∷ [] else []) ≡ [] → b ≡ true
  not_eq-nil b f h = ground arith

  check_hash_chain-ok :
      (expected : Text) (e : LedgerEntry) (entries : List LedgerEntry)
      → text_eq e.prev expected ≡ true
      → text_eq (recompute_hash sha256 e) e.entry_hash ≡ true
      → check_hash_chain sha256 expected false (e ∷ entries)
        ≡ check_hash_chain sha256 (recompute_hash sha256 e) false entries
  unfolding check_hash_chain
  check_hash_chain-ok expected e entries link hash = rw (link, hash)

  chain_parts :
      (expected : Text) (e : LedgerEntry) (entries : List LedgerEntry)
      → check_hash_chain sha256 expected false (e ∷ entries) ≡ []
      → (link_finding sha256 expected false e ≡ [])
        × (hash_finding sha256 e ≡ [])
        × (check_hash_chain sha256 (recompute_hash sha256 e) (not (text_eq e.prev expected)) entries
            ≡ [])
  unfolding check_hash_chain
  chain_parts expected e entries h =
      let (links, rest) = append-eq-nil (link_finding sha256 expected false e) _ h in
      let (hashes, more) = append-eq-nil (hash_finding sha256 e) _ rest in (links, hashes, more)

  forth :
      (expected : Text) (entries : List LedgerEntry)
      → check_hash_chain sha256 expected false entries ≡ []
      → Linked expected entries
  forth expected [] h = tt
  forth expected (e ∷ entries) h =
      let (links, hashes, more) = chain_parts expected e entries h in
      let link : text_eq e.prev expected ≡ true = not_eq-nil _ _ links in
      let hash : text_eq (recompute_hash sha256 e) e.entry_hash ≡ true = not_eq-nil _ _ hashes in
      (
        text_eq→eq _ _ link,
        text_eq→eq _ _ hash,
        forth (recompute_hash sha256 e) entries (rw link at more),
      )

  back :
      (expected : Text) (entries : List LedgerEntry)
      → Linked expected entries
      → check_hash_chain sha256 expected false entries ≡ []
  back expected [] h = unfold check_hash_chain in refl
  back expected (e ∷ entries) h =
      let link : text_eq e.prev expected ≡ true = (text_eq_iff _ _).1 h.0 in
      let hash : text_eq (recompute_hash sha256 e) e.entry_hash ≡ true = (text_eq_iff _ _).1 h.1 in
      check_hash_chain-ok expected e entries link hash ∙ back (recompute_hash sha256 e) entries h.2

  -- The walk along the chain finds nothing exactly when the chain is linked.
  pub check_hash_chain-Linked :
      (expected : Text) (entries : List LedgerEntry)
      → (check_hash_chain sha256 expected false entries ≡ []) ↔ Linked expected entries
  check_hash_chain-Linked expected entries = (forth expected entries, back expected entries)

  -- A broken link is reported for each of the entries.
  abbrev pub AllBroken : List LedgerEntry → List Found → Type 0
  AllBroken [] fs = Unit
  AllBroken (e ∷ entries) fs = (any (is_broken_at e.seq) fs ≡ true) × AllBroken entries fs

  AllBroken-append :
      (entries : List LedgerEntry) (before fs : List Found)
      → AllBroken entries fs
      → AllBroken entries (before ++ fs)
  AllBroken-append [] before fs h = tt
  AllBroken-append (e ∷ entries) before fs h =
      (any-append_right _ before fs h.0, AllBroken-append entries before fs h.1)

  reported :
      (expected : Text) (broken : Bool) (e : LedgerEntry)
      → (broken || not (text_eq e.prev expected)) ≡ true
      → any (is_broken_at e.seq) (link_finding sha256 expected broken e) ≡ true
  reported expected broken e h = ground arith

  all_broken :
      (expected : Text) (broken : Bool) (e : LedgerEntry) (entries : List LedgerEntry)
      → (broken || not (text_eq e.prev expected)) ≡ true
      → AllBroken (e ∷ entries) (check_hash_chain sha256 expected broken (e ∷ entries))
  unfolding check_hash_chain
  all_broken expected broken e [] h = (
    any-append_left _ (link_finding sha256 expected broken e) _ (reported expected broken e h),
    tt,
  )
  all_broken expected broken e (e' ∷ entries) h = (
    any-append_left _ (link_finding sha256 expected broken e) _ (reported expected broken e h),
    AllBroken-append (e' ∷ entries) (link_finding sha256 expected broken e) _ (
        AllBroken-append (e' ∷ entries) (hash_finding sha256 e) _ (
          all_broken (recompute_hash sha256 e) (broken || not (text_eq e.prev expected)) e' entries
            (rw h refl))),
  )

  -- The hash that the entry after `entries` is held to.
  abbrev pub expected_after : Text → List LedgerEntry → Text
  expected_after expected [] = expected
  expected_after expected (e ∷ entries) = expected_after (recompute_hash sha256 e) entries

  step_broken :
      (expected : Text) (broken : Bool) (d : LedgerEntry) (entries rest : List LedgerEntry)
      → AllBroken rest (
          check_hash_chain sha256
            (recompute_hash sha256 d)
            (broken || not (text_eq d.prev expected))
            entries)
      → AllBroken rest (check_hash_chain sha256 expected broken (d ∷ entries))
  unfolding check_hash_chain
  step_broken expected broken d entries rest h =
      AllBroken-append rest (link_finding sha256 expected broken d) _
        (AllBroken-append rest (hash_finding sha256 d) _ h)

  some_broken : (broken b : Bool) → b ≡ false → (broken || not b) ≡ true
  some_broken broken b h = ground arith

  broken_after :
      (expected : Text) (broken : Bool) (before : List LedgerEntry) (e : LedgerEntry)
      (entries : List LedgerEntry)
      → text_eq e.prev (expected_after expected before) ≡ false
      → AllBroken (e ∷ entries) (check_hash_chain sha256 expected broken (before ++ e ∷ entries))
  broken_after expected broken [] e entries h =
      all_broken expected broken e entries (some_broken broken _ h)
  broken_after expected broken (d ∷ before) e entries h =
      let later : AllBroken (e ∷ entries) (
          check_hash_chain sha256 (recompute_hash sha256 d)
            (broken || not (text_eq d.prev expected)) (before ++ e ∷ entries)) =
        broken_after (recompute_hash sha256 d) (broken || not (text_eq d.prev expected)) before e
          entries h in
      step_broken expected broken d (before ++ e ∷ entries) (e ∷ entries) later

  -- Where an entry does not name the hash of the entry before it, that entry and every entry after
  -- it is reported with a broken link, whatever the rest of the chain holds.
  pub check_hash_chain-broken :
      (expected : Text) (before : List LedgerEntry) (e : LedgerEntry) (entries : List LedgerEntry)
      → e.prev ≢ expected_after expected before
      → AllBroken (e ∷ entries) (check_hash_chain sha256 expected false (before ++ e ∷ entries))
  check_hash_chain-broken expected before e entries h =
      broken_after expected false before e entries (text_eq-false _ _ h)

  abbrev pub SameEntries : List LedgerEntry → List LedgerEntry → Type 0
  SameEntries [] [] = Unit
  SameEntries [] (f ∷ fs) = ⊥
  SameEntries (e ∷ es) [] = ⊥
  SameEntries (e ∷ es) (f ∷ fs) = SameFields e.fields f.fields × SameEntries es fs

  -- At some place in both chains the canonical bytes of the two entries collide.
  abbrev pub CollidesAt : List LedgerEntry → List LedgerEntry → Type 0
  CollidesAt [] fs = ⊥
  CollidesAt (e ∷ es) [] = ⊥
  CollidesAt (e ∷ es) (f ∷ fs) =
      Collision sha256 (entry_bytes e.fields) (entry_bytes f.fields) ⊎ CollidesAt es fs

  -- The hash that the next entry will name.
  abbrev pub last_hash : Text → List LedgerEntry → Text
  last_hash expected [] = expected
  last_hash expected (e ∷ entries) = last_hash e.entry_hash entries

  pub Linked-pinned :
      (p q : Text) (es fs : List LedgerEntry)
      → Linked p es
      → Linked q fs
      → length es ≡ length fs
      → last_hash p es ≡ last_hash q fs
      → ((p ≡ q) × SameEntries es fs) ⊎ CollidesAt es fs
  Linked-pinned p q [] [] l m size same = inl (same, tt)
  Linked-pinned p q [] (f ∷ fs) l m size same = absurd (omega arith)
  Linked-pinned p q (e ∷ es) [] l m size same = absurd (omega arith)
  Linked-pinned p q (e ∷ es) (f ∷ fs) l m size same =
      elim (Linked-pinned (recompute_hash sha256 e) (recompute_hash sha256 f) es fs l.2 m.2
        (omega arith) (ap (λ h. last_hash h es) l.1 ∙ same ∙ ap (λ h. last_hash h fs) (sym m.1))) [
          | inr later ↦ inr (inr later)
          | inl (hashes, rest) ↦
              elim (compute_hash-SameFields sha256 e.fields f.fields
                (unfold recompute_hash in hashes)) [
                  | inr collision ↦ inr (inl collision)
                  | inl fields ↦ inl (sym l.0 ∙ fields.prev ∙ m.0, (fields, rest))
                ]
        ]
