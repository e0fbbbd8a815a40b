-- ===== src/Memory/Verifier/Fresh.antt =====
-- A chain that `build_next` wrote, entry after entry, is verified.
use complex_git_sync.Memory.Verifier.Chain.{Linked, check_hash_chain-Linked}
use complex_git_sync.Memory.Entry.{LedgerEntry, Operation, next_seq_after, hash_after, build_next}
use complex_git_sync.Memory.Moment.{Moment, IsMoment, four, iso_utc, earlier, iso_utc-earlier}
use complex_git_sync.Merkle.Root.{genesis_prev}
use complex_git_sync.Prelude.{
  ℕ, zero, suc, ◌+◌, ◌-◌, ◌<◌, ◌≡◌, refl, sym, ap, ◌∙◌, true, false, Option, none, some, List, [],
  ◌∷◌, ◌++◌, arith, ltb, lt→ltb, length, is_empty, Text, Bytes, insert_sorted, sorted, sorted-cons,
}
use complex_git_sync.Memory.Verifier.{
  mem, gap_findings, report_of, verified, scan_seqs, check_seq_integrity, regression,
  check_time_monotonic, recompute_hash, check_hash_chain, verify_chain, resolve_state,
}

-- The numbers from `a` on, `k` of them.
abbrev range : ℕ → ℕ → List ℕ
range a zero = []
range a (suc k) = a ∷ range (suc a) k

-- The numbers from `n` down to 1.
abbrev down : ℕ → List ℕ
down zero = []
down (suc n) = suc n ∷ down n

mem-down : (x n : ℕ) → n < x → mem x (down n) ≡ false
unfolding mem
mem-down x zero h = refl
mem-down x (suc n) h = ground (arith, mem-down x n)

insert_sorted-range : (a k x : ℕ) → x ≡ a + k → insert_sorted ltb x (range a k) ≡ range a (suc k)
insert_sorted-range a zero x e = unfold insert_sorted in ap (λ (n : ℕ). n ∷ []) (omega arith)
insert_sorted-range a (suc k) x e =
    let lt : ltb a x ≡ true = lt→ltb a x (omega arith) in
    insert_above a x (range (suc a) k) lt
    ∙ ap (λ (l : List ℕ). a ∷ l) (insert_sorted-range (suc a) k x (omega arith))
  where
    insert_above :
        (a x : ℕ) (l : List ℕ)
        → ltb a x ≡ true
        → insert_sorted ltb x (a ∷ l) ≡ a ∷ insert_sorted ltb x l
    insert_above a x l h = unfold insert_sorted in rw h

sorted-down : (n : ℕ) → sorted ltb (down n) ≡ range 1 n
sorted-down zero = unfold sorted in refl
sorted-down (suc n) =
    sorted-cons ltb (suc n) (down n)
    ∙ ap (insert_sorted ltb (suc n)) (sorted-down n)
    ∙ insert_sorted-range 1 n (suc n) (omega arith)

gap_findings-range : (a k : ℕ) → gap_findings (range a k) ≡ []
unfolding gap_findings
gap_findings-range a zero = refl
gap_findings-range a (suc zero) = refl
gap_findings-range a (suc (suc k)) =
    let none_missing : ltb 0 (suc a - a - 1) ≡ false = ground arith in
    rw none_missing (gap_findings-range (suc a) (suc k))

-- The numbers of the entries are new each time.
module _ (sha256 : Bytes → Bytes) where
  -- The entries that the operations write, each after the one before.
  unfoldable pub chain_from : Option LedgerEntry → List (Operation × Moment) → List LedgerEntry
  chain_from prev [] = []
  chain_from prev ((op, now) ∷ rest) =
      let e = build_next sha256 prev op now in e ∷ chain_from (some e) rest

  -- The operations were made at valid moments, none earlier than the one before it.
  abbrev pub InOrder : Option Moment → List (Operation × Moment) → Type 0
  InOrder before [] = Unit
  InOrder none ((op, now) ∷ rest) = IsMoment now × InOrder (some now) rest
  InOrder (some before) ((op, now) ∷ rest) =
      IsMoment now × (earlier now before ≡ false) × InOrder (some now) rest

  chain_from-cons :
      (prev : Option LedgerEntry) (op : Operation) (now : Moment) (rest : List (Operation × Moment))
      → chain_from prev ((op, now) ∷ rest)
        ≡ build_next sha256 prev op now ∷ chain_from (some (build_next sha256 prev op now)) rest
  unfolding chain_from
  chain_from-cons prev op now rest = refl

  scan_new :
      (e : LedgerEntry) (seen : List ℕ) (entries : List LedgerEntry)
      → mem e.seq seen ≡ false
      → scan_seqs seen [] (e ∷ entries) ≡ scan_seqs (e.seq ∷ seen) [] entries
  unfolding scan_seqs
  scan_new e seen entries h = rw h

  scan_seqs-chain_from :
      (n : ℕ) (prev : Option LedgerEntry) (ops : List (Operation × Moment))
      → next_seq_after prev ≡ suc n
      → scan_seqs (down n) [] (chain_from prev ops) ≡ (down (length ops + n), [])
  scan_seqs-chain_from n prev [] h =
      (unfold chain_from scan_seqs in ap (λ (m : ℕ). (down m, [])) (omega arith))
  scan_seqs-chain_from n prev ((op, now) ∷ rest) h =
      let e : LedgerEntry = build_next sha256 prev op now in
      let s : e.seq ≡ suc n = (unfold build_next in h) in
      let new : mem e.seq (down n) ≡ false = rw s (mem-down (suc n) n (omega arith)) in
      ap (scan_seqs (down n) []) (chain_from-cons prev op now rest)
      ∙ scan_new e (down n) (chain_from (some e) rest) new
      ∙ ap (λ (m : ℕ). scan_seqs (m ∷ down n) [] (chain_from (some e) rest)) s
      ∙ scan_seqs-chain_from (suc n) (some e) rest (omega (arith, s))
      ∙ ap (λ (m : ℕ). (down m, [])) (omega arith)

  Linked-chain_from :
      (prev : Option LedgerEntry) (ops : List (Operation × Moment))
      → Linked sha256 (hash_after prev) (chain_from prev ops)
  unfolding chain_from build_next recompute_hash
  Linked-chain_from prev [] = tt
  Linked-chain_from prev ((op, now) ∷ rest) =
      (refl, refl, Linked-chain_from (some (build_next sha256 prev op now)) rest)

  iso_utc-nonempty : (m : Moment) → is_empty (iso_utc m) ≡ false
  unfolding iso_utc four
  iso_utc-nonempty m = refl

  -- What the time check knows of the entry before.
  abbrev seen_before : ℕ → Option Moment → Option (ℕ × Text)
  seen_before seq none = none
  seen_before seq (some m) = some (seq, iso_utc m)

  abbrev MaybeMoment : Option Moment → Type 0
  MaybeMoment none = Unit
  MaybeMoment (some m) = IsMoment m

  regression-none :
      (before : Option Moment) (op : Operation) (now : Moment) (rest : List (Operation × Moment))
      (seq seq' : ℕ)
      → MaybeMoment before
      → InOrder before ((op, now) ∷ rest)
      → regression (seen_before seq before) seq' (iso_utc now) ≡ []
  regression-none none op now rest seq seq' h o = refl
  regression-none (some m) op now rest seq seq' h o = rw (iso_utc-earlier now m o.0 h, o.1) refl

  InOrder-now :
      (before : Option Moment) (op : Operation) (now : Moment) (rest : List (Operation × Moment))
      → InOrder before ((op, now) ∷ rest)
      → IsMoment now × InOrder (some now) rest
  InOrder-now none op now rest o = o
  InOrder-now (some m) op now rest o = (o.0, o.2)

  check_time-cons :
      (previous : Option (ℕ × Text)) (e : LedgerEntry) (entries : List LedgerEntry)
      → is_empty e.recorded_at ≡ false
      → regression previous e.seq e.recorded_at ≡ []
      → check_time_monotonic previous (e ∷ entries)
        ≡ check_time_monotonic (some (e.seq, e.recorded_at)) entries
  unfolding check_time_monotonic
  check_time-cons previous e entries h k = rw (h, k)

  check_time-chain_from :
      (seq : ℕ) (before : Option Moment) (prev : Option LedgerEntry)
      (ops : List (Operation × Moment))
      → MaybeMoment before
      → InOrder before ops
      → check_time_monotonic (seen_before seq before) (chain_from prev ops) ≡ []
  check_time-chain_from seq before prev [] h o = unfold chain_from check_time_monotonic in refl
  check_time-chain_from seq before prev ((op, now) ∷ rest) h o =
      let e : LedgerEntry = build_next sha256 prev op now in
      let stamp : e.recorded_at ≡ iso_utc now = (unfold build_next in refl) in
      let (valid, later) = InOrder-now before op now rest o in
      let stamped : is_empty e.recorded_at ≡ false = ap is_empty stamp ∙ iso_utc-nonempty now in
      let quiet : regression (seen_before seq before) e.seq e.recorded_at ≡ [] =
        ap (regression (seen_before seq before) e.seq) stamp
        ∙ regression-none before op now rest seq e.seq h o in
      ap (check_time_monotonic (seen_before seq before)) (chain_from-cons prev op now rest)
      ∙ check_time-cons (seen_before seq before) e (chain_from (some e) rest) stamped quiet
      ∙ ap (λ m. check_time_monotonic (some (e.seq, m)) (chain_from (some e) rest)) stamp
      ∙ check_time-chain_from e.seq (some now) (some e) rest valid later

  clean_chain :
      (e : LedgerEntry) (entries : List LedgerEntry)
      → check_seq_integrity (e ∷ entries) ≡ []
      → check_hash_chain sha256 genesis_prev false (e ∷ entries) ≡ []
      → check_time_monotonic none (e ∷ entries) ≡ []
      → verify_chain sha256 (e ∷ entries) ≡ record { findings = []; state = verified }
  clean_chain e entries a b c =
      unfold verify_chain resolve_state in λ i. report_of (a i ++ (b i ++ c i))

  check_seq-chain_from :
      (ops : List (Operation × Moment)) → check_seq_integrity (chain_from none ops) ≡ []
  check_seq-chain_from ops =
      let s : scan_seqs (down 0) [] (chain_from none ops) ≡ (down (length ops + 0), []) =
        scan_seqs-chain_from 0 none ops refl in
      seq_findings (chain_from none ops) (length ops + 0) s
    where
      seq_findings :
          (entries : List LedgerEntry) (n : ℕ)
          → scan_seqs [] [] entries ≡ (down n, [])
          → check_seq_integrity entries ≡ []
      seq_findings entries n s =
          unfold check_seq_integrity sorted in
          rw s (ap gap_findings (sorted-down n) ∙ gap_findings-range 1 n)

  -- Whatever operations are recorded, one after another by `build_next` at moments that never go
  -- back, the chain that they write has no finding and is verified.
  pub verify_chain-chain_from :
      (op : Operation) (now : Moment) (rest : List (Operation × Moment))
      → InOrder none ((op, now) ∷ rest)
      → verify_chain sha256 (chain_from none ((op, now) ∷ rest))
        ≡ record { findings = []; state = verified }
  verify_chain-chain_from op now rest o =
      let ops : List (Operation × Moment) = (op, now) ∷ rest in
      ap (verify_chain sha256) (chain_from-cons none op now rest)
      ∙ clean_chain (build_next sha256 none op now)
          (chain_from (some (build_next sha256 none op now)) rest)
          (ap check_seq_integrity (sym (chain_from-cons none op now rest))
            ∙ check_seq-chain_from ops)
          (ap (check_hash_chain sha256 genesis_prev false) (sym (chain_from-cons none op now rest))
            ∙ (check_hash_chain-Linked sha256 genesis_prev _).1 (Linked-chain_from none ops))
          (ap (check_time_monotonic none) (sym (chain_from-cons none op now rest))
            ∙ check_time-chain_from 0 none none ops tt o)
