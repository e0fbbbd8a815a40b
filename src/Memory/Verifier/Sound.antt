-- ===== src/Memory/Verifier/Sound.antt =====
-- A chain that `verify` calls verified has no finding at all, is a hash chain from the genesis
-- value on, and is pinned by its last hash.
use complex_git_sync.Prelude.{
  ℕ, ◌-◌, ◌≡◌, refl, sym, ◌≢◌, ◌↔◌, ◌⊎◌, inl, inr, Bool, true, false, ◌||◌, not, Option, none, some,
  List, [], ◌∷◌, ◌++◌, ltb, Bool-cases, length, All, is_empty, All-append, nil_ne_cons,
  append-eq-nil, Text, Bytes, text_eq, text_lt, sorted,
}
use complex_git_sync.Merkle.Root.{genesis_prev}
use complex_git_sync.Memory.Entry.{LedgerEntry}
use complex_git_sync.Memory.Verifier.{
  orphan_state, Found, verified, chain_findings, duplicate_findings, gap_findings,
  check_seq_integrity, regression, check_time_monotonic, scan_seqs, link_finding, hash_finding,
  recompute_hash, check_hash_chain, verify_chain,
}
use complex_git_sync.Memory.Verifier.Verdict.{resolve_state-verified}
use complex_git_sync.Memory.Verifier.Chain.{
  Linked, check_hash_chain-Linked, SameEntries, CollidesAt, last_hash, Linked-pinned,
}

-- No finding of the chain checks is an orphan state.
abbrev NoOrphan : List Found → Type 0
NoOrphan = All (λ f. f.1 ≢ orphan_state)

NoOrphan-append : (fs gs : List Found) → NoOrphan fs → NoOrphan gs → NoOrphan (fs ++ gs)
NoOrphan-append fs gs h k = All-append (λ f. f.1 ≢ orphan_state) fs gs h k

duplicate_findings-NoOrphan : (seqs : List ℕ) → NoOrphan (duplicate_findings seqs)
unfolding duplicate_findings
duplicate_findings-NoOrphan [] = tt
duplicate_findings-NoOrphan (seq ∷ seqs) = (λ e. cc, duplicate_findings-NoOrphan seqs)

gap_findings-NoOrphan : (seqs : List ℕ) → NoOrphan (gap_findings seqs)
unfolding gap_findings
gap_findings-NoOrphan [] = tt
gap_findings-NoOrphan (a ∷ []) = tt
gap_findings-NoOrphan (a ∷ b ∷ seqs) = elim (Bool-cases (ltb 0 (b - a - 1))) [
  | inl gap ↦ rw gap ((λ e. cc), gap_findings-NoOrphan (b ∷ seqs))
  | inr no_gap ↦ rw no_gap (gap_findings-NoOrphan (b ∷ seqs))
]

regression-NoOrphan :
    (previous : Option (ℕ × Text)) (seq : ℕ) (moment : Text)
    → NoOrphan (regression previous seq moment)
regression-NoOrphan none seq moment = tt
regression-NoOrphan (some (before, m)) seq moment = elim (Bool-cases (text_lt moment m)) [
  | inl back ↦ rw back ((λ e. cc), tt)
  | inr on ↦ rw on tt
]

check_time-NoOrphan :
    (previous : Option (ℕ × Text)) (entries : List LedgerEntry)
    → NoOrphan (check_time_monotonic previous entries)
unfolding check_time_monotonic
check_time-NoOrphan previous [] = tt
check_time-NoOrphan previous (e ∷ entries) = elim (Bool-cases (is_empty e.recorded_at)) [
  | inl blank ↦ rw blank (check_time-NoOrphan previous entries)
  | inr stamped ↦ rw stamped (
      NoOrphan-append (regression previous e.seq e.recorded_at) _
        (regression-NoOrphan previous e.seq e.recorded_at)
        (check_time-NoOrphan (some (e.seq, e.recorded_at)) entries))
]

check_seq-NoOrphan : (entries : List LedgerEntry) → NoOrphan (check_seq_integrity entries)
unfolding check_seq_integrity
check_seq-NoOrphan entries =
    let s : List ℕ × List ℕ = scan_seqs [] [] entries in
    NoOrphan-append (duplicate_findings (sorted ltb s.1)) (gap_findings (sorted ltb s.0))
      (duplicate_findings-NoOrphan (sorted ltb s.1)) (gap_findings-NoOrphan (sorted ltb s.0))

no_findings : (fs : List Found) → All (λ f. f.1 ≡ orphan_state) fs → NoOrphan fs → fs ≡ []
no_findings [] h k = refl
no_findings (f ∷ fs) h k = absurd (k.0 h.0)

module _ (sha256 : Bytes → Bytes) where
  link_finding-NoOrphan :
      (expected : Text) (broken : Bool) (e : LedgerEntry)
      → NoOrphan (link_finding sha256 expected broken e)
  link_finding-NoOrphan expected true e = ((λ x. cc), tt)
  link_finding-NoOrphan expected false e = elim (Bool-cases (text_eq e.prev expected)) [
    | inl same ↦ rw same tt
    | inr differ ↦ rw differ ((λ x. cc), tt)
  ]

  hash_finding-NoOrphan : (e : LedgerEntry) → NoOrphan (hash_finding sha256 e)
  hash_finding-NoOrphan e = elim (Bool-cases (text_eq (recompute_hash sha256 e) e.entry_hash)) [
    | inl same ↦ rw same tt
    | inr differ ↦ rw differ ((λ x. cc), tt)
  ]

  check_hash-NoOrphan :
      (expected : Text) (broken : Bool) (entries : List LedgerEntry)
      → NoOrphan (check_hash_chain sha256 expected broken entries)
  unfolding check_hash_chain
  check_hash-NoOrphan expected broken [] = tt
  check_hash-NoOrphan expected broken (e ∷ entries) =
      NoOrphan-append (link_finding sha256 expected broken e) _
        (link_finding-NoOrphan expected broken e)
        (NoOrphan-append (hash_finding sha256 e) _ (hash_finding-NoOrphan e) (
          check_hash-NoOrphan (recompute_hash sha256 e) (broken || not (text_eq e.prev expected))
            entries))

  chain_findings-NoOrphan : (entries : List LedgerEntry) → NoOrphan (chain_findings sha256 entries)
  chain_findings-NoOrphan entries =
      NoOrphan-append (check_seq_integrity entries) _ (check_seq-NoOrphan entries) (
        NoOrphan-append (check_hash_chain sha256 genesis_prev false entries) _
          (check_hash-NoOrphan genesis_prev false entries) (check_time-NoOrphan none entries))

  -- A chain is verified exactly when it is not empty and no check found anything.
  pub verify_chain-verified :
      (entries : List LedgerEntry)
      → ((verify_chain sha256 entries).state ≡ verified)
        ↔ ((entries ≢ []) × (chain_findings sha256 entries ≡ []))
  verify_chain-verified [] = ((λ e. absurd (history e)), (λ h. absurd (h.0 refl)))
    where
      history : (verify_chain sha256 []).state ≡ verified → ⊥
      history e = unfold verify_chain in cc
  verify_chain-verified (e ∷ entries) = (
    (λ v. (
      (λ n. nil_ne_cons (sym n)),
      no_findings _
          ((resolve_state-verified (chain_findings sha256 (e ∷ entries))).0
            (unfold verify_chain in v))
          (chain_findings-NoOrphan (e ∷ entries)),
    )),
    (λ h.
        (unfold verify_chain in
          (resolve_state-verified (chain_findings sha256 (e ∷ entries))).1 (none_orphan _ h.1))),
  )
    where
      none_orphan : (fs : List Found) → fs ≡ [] → All (λ f. f.1 ≡ orphan_state) fs
      none_orphan fs e = rw e tt

  pub verified-Linked :
      (entries : List LedgerEntry)
      → (verify_chain sha256 entries).state ≡ verified
      → Linked sha256 genesis_prev entries
  verified-Linked entries v =
      let quiet : chain_findings sha256 entries ≡ [] = ((verify_chain-verified entries).0 v).1 in
      let chain : check_hash_chain sha256 genesis_prev false entries ≡ [] =
        (append-eq-nil _ _ (append-eq-nil (check_seq_integrity entries) _ quiet).1).0 in
      (check_hash_chain-Linked sha256 genesis_prev entries).0 chain

  -- Two verified chains of one length that end in the same hash agree at each place in every
  -- field, the toolchain and the release as dictionaries, or else SHA-256 has a collision between
  -- the canonical bytes of two entries at the same place.
  pub verify_chain-pinned :
      (es fs : List LedgerEntry)
      → (verify_chain sha256 es).state ≡ verified
      → (verify_chain sha256 fs).state ≡ verified
      → length es ≡ length fs
      → last_hash sha256 genesis_prev es ≡ last_hash sha256 genesis_prev fs
      → SameEntries sha256 es fs ⊎ CollidesAt sha256 es fs
  verify_chain-pinned es fs v w size same =
      elim (Linked-pinned sha256 genesis_prev genesis_prev es fs (verified-Linked es v)
        (verified-Linked fs w) size same) [
          | inl (_, entries) ↦ inl entries
          | inr collision ↦ inr collision
        ]
