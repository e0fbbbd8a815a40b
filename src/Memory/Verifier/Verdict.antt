-- ===== src/Memory/Verifier/Verdict.antt =====
-- What the verdict of `resolve_state` says of the findings.
use complex_git_sync.Prelude.{
  ◌≡◌, refl, ◌↔◌, ◌⊎◌, inl, inr, Bool, true, false, List, [], ◌∷◌, arith, if◌then◌else◌, Bool-cases,
  false_ne_true, All,
}
use complex_git_sync.Memory.Verifier.{
  Finding, orphan_state, Found, HistoryState, verified, corrupt, time_inconsistent, incomplete,
  is_structural, is_time_regression, is_commit_log_lost, has_kind, resolve_state,
}

-- Some finding is of a kind that passes the test.
abbrev pub Some : (Finding → Bool) → List Found → Type 0
Some test [] = ⊥
Some test (f ∷ fs) = (test f.1 ≡ true) ⊎ Some test fs

pub has_kind-Some :
    (test : Finding → Bool) (fs : List Found) → has_kind test fs ≡ true → Some test fs
unfolding has_kind
has_kind-Some test [] h = false_ne_true h
has_kind-Some test (f ∷ fs) h = elim (Bool-cases (test f.1)) [
  | inl here ↦ inl here
  | inr there ↦ inr (has_kind-Some test fs (ground arith))
]

pub Some-has_kind :
    (test : Finding → Bool) (fs : List Found) → Some test fs → has_kind test fs ≡ true
unfolding has_kind
Some-has_kind test [] h = absurd h
Some-has_kind test (f ∷ fs) (inl h) = ground arith
Some-has_kind test (f ∷ fs) (inr h) = ground (arith, Some-has_kind test fs h)

has_kind_iff : (test : Finding → Bool) (fs : List Found) → (has_kind test fs ≡ true) ↔ Some test fs
has_kind_iff test fs = (has_kind-Some test fs, Some-has_kind test fs)

abbrev pick : Bool → Bool → Bool → HistoryState
pick a b c =
    if a then corrupt else if b then time_inconsistent else if c then incomplete else verified

abbrev Picks : Bool → Bool → Bool → Type 0 → Type 0 → Type 0 → Type 0
Picks a b c P Q R =
    ((pick a b c ≡ corrupt) ↔ P)
    × ((pick a b c ≡ time_inconsistent) ↔ (¬ P × Q))
    × ((pick a b c ≡ incomplete) ↔ (¬ P × ¬ Q × R))

pick_lem :
    (a b c : Bool) (P Q R : Type 0)
    → (a ≡ true) ↔ P
    → (b ≡ true) ↔ Q
    → (c ≡ true) ↔ R
    → Picks a b c P Q R
pick_lem true b c P Q R p q r = (
  (λ _. p.0 refl, λ _. refl),
  (λ e. cc, λ h. absurd (h.0 (p.0 refl))),
  (λ e. cc, λ h. absurd (h.0 (p.0 refl))),
)
pick_lem false true c P Q R p q r = (
  (λ e. cc, λ h. absurd (false_ne_true (p.1 h))),
  (λ _. (λ h. false_ne_true (p.1 h), q.0 refl), λ _. refl),
  (λ e. cc, λ h. absurd (h.1 (q.0 refl))),
)
pick_lem false false true P Q R p q r = (
  (λ e. cc, λ h. absurd (false_ne_true (p.1 h))),
  (λ e. cc, λ h. absurd (false_ne_true (q.1 h.1))),
  (λ _. (λ h. false_ne_true (p.1 h), λ h. false_ne_true (q.1 h), r.0 refl), λ _. refl),
)
pick_lem false false false P Q R p q r = (
  (λ e. cc, λ h. absurd (false_ne_true (p.1 h))),
  (λ e. cc, λ h. absurd (false_ne_true (q.1 h.1))),
  (λ e. cc, λ h. absurd (false_ne_true (r.1 h.2))),
)

-- The history is corrupt exactly when some finding is structural. Else it is inconsistent in time
-- exactly when some finding is a time regression; else incomplete exactly when some commit log is
-- lost.
pub resolve_state_lem :
    (fs : List Found)
    → ((resolve_state fs ≡ corrupt) ↔ Some is_structural fs)
      × ((resolve_state fs ≡ time_inconsistent)
          ↔ (¬ Some is_structural fs × Some is_time_regression fs))
      × ((resolve_state fs ≡ incomplete)
          ↔ (¬ Some is_structural fs × ¬ Some is_time_regression fs × Some is_commit_log_lost fs))
resolve_state_lem fs =
    unfold resolve_state in
    pick_lem (has_kind is_structural fs) (has_kind is_time_regression fs)
      (has_kind is_commit_log_lost fs) _ _ _ (has_kind_iff is_structural fs)
      (has_kind_iff is_time_regression fs) (has_kind_iff is_commit_log_lost fs)

-- The kinds but `ORPHAN_STATE` each change the verdict.
counted :
    (k : Finding)
    → is_structural k ≡ false
    → is_time_regression k ≡ false
    → is_commit_log_lost k ≡ false
    → k ≡ orphan_state
unfolding is_structural is_time_regression is_commit_log_lost
counted k a b c = ground arith

none_picked : (a b c : Bool) → pick a b c ≡ verified → (a ≡ false) × (b ≡ false) × (c ≡ false)
none_picked a b c e = ground arith

All-orphans :
    (fs : List Found)
    → has_kind is_structural fs ≡ false
    → has_kind is_time_regression fs ≡ false
    → has_kind is_commit_log_lost fs ≡ false
    → All (λ f. f.1 ≡ orphan_state) fs
unfolding has_kind
All-orphans [] a b c = tt
All-orphans (f ∷ fs) a b c =
    let p : (is_structural f.1 ≡ false) × (has_kind is_structural fs ≡ false) = ground arith in
    let q : (is_time_regression f.1 ≡ false) × (has_kind is_time_regression fs ≡ false) =
      ground arith in
    let r : (is_commit_log_lost f.1 ≡ false) × (has_kind is_commit_log_lost fs ≡ false) =
      ground arith in
    (counted f.1 p.0 q.0 r.0, All-orphans fs p.1 q.1 r.1)

no_kind :
    (fs : List Found)
    → All (λ f. f.1 ≡ orphan_state) fs
    → (has_kind is_structural fs ≡ false)
      × (has_kind is_time_regression fs ≡ false)
      × (has_kind is_commit_log_lost fs ≡ false)
unfolding has_kind is_structural is_time_regression is_commit_log_lost
no_kind [] h = (refl, refl, refl)
no_kind ((seq, kind, detail) ∷ fs) h = let p = no_kind fs h.1 in rw h.0 p

-- The verdict is that the history is verified exactly when each finding is an orphan state.
pub resolve_state-verified :
    (fs : List Found) → (resolve_state fs ≡ verified) ↔ All (λ f. f.1 ≡ orphan_state) fs
resolve_state-verified fs = (
  λ e.
      let p : (has_kind is_structural fs ≡ false)
          × (has_kind is_time_regression fs ≡ false)
          × (has_kind is_commit_log_lost fs ≡ false) =
        none_picked _ _ _ (unfold resolve_state in e) in
      All-orphans fs p.0 p.1 p.2,
  λ h.
      let p : (has_kind is_structural fs ≡ false)
          × (has_kind is_time_regression fs ≡ false)
          × (has_kind is_commit_log_lost fs ≡ false) =
        no_kind fs h in
      unfold resolve_state in rw (p.0, p.1, p.2) refl,
)
