-- ===== src/Omniscience/Completeness/Runs.antt =====
-- What `_not_found_run` takes off the end of a history.
use complex_git_sync.Prelude.{
  ◌≡◌, refl, sym, ap, subst, ◌∙◌, inl, inr, true, false, List, [], ◌∷◌, ◌++◌, Bool-cases, All,
  All-append,
}
use mathlib.Core.List.{reverse, reverse-cons, reverse-append, reverse-reverse}
use complex_git_sync.Omniscience.Observation.{Observation}
use complex_git_sync.Omniscience.Completeness.{is_not_found, leading_run, not_found_run}

-- The list is empty, or starts with something else than `NOT_FOUND`.
abbrev pub StartsOther : List Observation → Type 0
StartsOther [] = Unit
StartsOther (o ∷ os) = is_not_found o.status ≡ false

abbrev pub AllNotFound : List Observation → Type 0
AllNotFound os = All (λ o. is_not_found o.status ≡ true) os

leading_run-parts :
    (os : List Observation)
    → (rest : List Observation) × (os ≡ leading_run os ++ rest)
      × AllNotFound (leading_run os)
      × StartsOther rest
unfolding leading_run
leading_run-parts [] = ([], refl, tt, tt)
leading_run-parts (o ∷ os) =
    let (rest, whole, run, stop) = leading_run-parts os in
    elim (Bool-cases (is_not_found o.status)) [
      | inl missing ↦ rw missing (rest, ap (λ l. o ∷ l) whole, (missing, run), stop)
      | inr other ↦ rw other (o ∷ os, refl, tt, other)
    ]

AllNotFound-reverse : (os : List Observation) → AllNotFound os → AllNotFound (reverse os)
AllNotFound-reverse [] h = tt
AllNotFound-reverse (o ∷ os) h = subst AllNotFound (sym (reverse-cons o os)) (
    All-append (λ p. is_not_found p.status ≡ true) (reverse os) (o ∷ [])
      (AllNotFound-reverse os h.1) (h.0, tt))

-- A history is what came before its run of `NOT_FOUND`, then the run: each finding of the run is
-- `NOT_FOUND`, and the run is the whole history or comes right after a finding of another status.
pub not_found_run-append :
    (history : List Observation)
    → (before : List Observation) × (history ≡ before ++ not_found_run history)
      × AllNotFound (not_found_run history)
      × StartsOther (reverse before)
unfolding not_found_run
not_found_run-append history =
    let (rest, whole, run, stop) = leading_run-parts (reverse history) in
    (
      reverse rest,
      sym (reverse-reverse history)
          ∙ ap reverse whole
          ∙ reverse-append (leading_run (reverse history)) rest,
      AllNotFound-reverse (leading_run (reverse history)) run,
      subst StartsOther (sym (reverse-reverse rest)) stop,
    )
