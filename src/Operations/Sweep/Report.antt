-- ===== src/Operations/Sweep/Report.antt =====
-- What `TreeSweep.run` of tree/operations/partial_failure.py reports of the repositories.
use mathlib.Core.List.{append_assoc, append-nil}
use complex_git_sync.Prelude.{
  ◌≡◌, refl, sym, ap, ◌∙◌, ◌⊎◌, inl, inr, List, [], ◌∷◌, ◌++◌, map, Text, Result, Result-cases, ok,
  err,
}
use complex_git_sync.Repo.{WorkingRepo}
use complex_git_sync.Operations.{RepoOutcome}
use complex_git_sync.Operations.Sweep.{TreePartialFailure, id_of, failed_outcome, run_from, run}

module _ {S : Type 0} (visit : S → WorkingRepo → S × Result Text RepoOutcome) where
  -- Repositories that are visited one after the other, each of which succeeds.
  pub data Visits : S → List WorkingRepo → List (Text × RepoOutcome) → S → Type 0 where
    stop : (s : S) → Visits s [] [] s
    next :
        (s : S) (r : WorkingRepo) (rest : List WorkingRepo) (outcome : RepoOutcome)
        (outcomes : List (Text × RepoOutcome)) (after last : S)
        → visit s r ≡ (after, ok outcome)
        → Visits after rest outcomes last
        → Visits s (r ∷ rest) ((r.repo_id, outcome) ∷ outcomes) last

  -- A sweep that the given repository ends.
  pub record Stops (repos : List WorkingRepo) (s : S) (completed : List (Text × RepoOutcome))
      (result : S × Result TreePartialFailure (List RepoOutcome)) : Type 0 where
    pub done : List WorkingRepo
    pub rest : List WorkingRepo
    pub ended : WorkingRepo
    pub outcomes : List (Text × RepoOutcome)
    pub before : S
    pub cause : Text
    pub failure : TreePartialFailure
    pub order : repos ≡ done ++ ended ∷ rest
    pub visited : Visits s done outcomes before
    pub refused : visit before ended ≡ (result.0, err cause)
    pub raised : result.1 ≡ err failure
    pub completed_is : failure.completed ≡ completed ++ outcomes
    pub failed_is : failure.failed ≡ (ended.repo_id, failed_outcome ended cause)
    pub not_attempted_is : failure.not_attempted ≡ map id_of rest

  Swept :
      List WorkingRepo
      → S
      → List (Text × RepoOutcome)
      → S × Result TreePartialFailure (List RepoOutcome)
      → Type 0
  Swept repos s completed result =
      ((outcomes : List (Text × RepoOutcome)) × Visits s repos outcomes result.0
        × (result.1 ≡ ok (map (λ c. c.1) (completed ++ outcomes))))
      ⊎ Stops repos s completed result

  ended_here :
      (repos : List WorkingRepo) (r : WorkingRepo) (rest : List WorkingRepo)
      (completed : List (Text × RepoOutcome)) (s after : S) (cause : Text)
      (failure : TreePartialFailure)
      → visit s r ≡ (after, err cause)
      → failure.completed ≡ completed
      → failure.failed ≡ (r.repo_id, failed_outcome r cause)
      → failure.not_attempted ≡ map id_of rest
      → Swept (r ∷ rest) s completed (after, err failure)
  unfolding Swept
  ended_here repos r rest completed s after cause failure e c f n = inr record {
    done = [];
    rest = rest;
    ended = r;
    outcomes = [];
    before = s;
    cause = cause;
    failure = failure;
    order = refl;
    visited = stop s;
    refused = e;
    raised = refl;
    completed_is = c ∙ sym (append-nil completed);
    failed_is = f;
    not_attempted_is = n;
  }

  went_on :
      (r : WorkingRepo) (rest : List WorkingRepo) (completed : List (Text × RepoOutcome))
      (s after : S) (outcome : RepoOutcome)
      (result : S × Result TreePartialFailure (List RepoOutcome))
      → visit s r ≡ (after, ok outcome)
      → Swept rest after (completed ++ (r.repo_id, outcome) ∷ []) result
      → Swept (r ∷ rest) s completed result
  unfolding Swept
  went_on r rest completed s after outcome result e (inl (outcomes, visits, is)) = inl (
    (r.repo_id, outcome) ∷ outcomes,
    next s r rest outcome outcomes after result.0 e visits,
    is ∙ ap (λ c. ok (map (λ d. d.1) c)) (append_assoc completed _ outcomes),
  )
  went_on r rest completed s after outcome result e (inr stops) = inr record {
    done = r ∷ stops.done;
    rest = stops.rest;
    ended = stops.ended;
    outcomes = (r.repo_id, outcome) ∷ stops.outcomes;
    before = stops.before;
    cause = stops.cause;
    failure = stops.failure;
    order = ap (λ l. r ∷ l) stops.order;
    visited = next s r stops.done outcome stops.outcomes after stops.before e stops.visited;
    refused = stops.refused;
    raised = stops.raised;
    completed_is = stops.completed_is ∙ append_assoc completed _ stops.outcomes;
    failed_is = stops.failed_is;
    not_attempted_is = stops.not_attempted_is;
  }

  run_from-Swept :
      (command retry : Text) (whole repos : List WorkingRepo)
      (completed : List (Text × RepoOutcome)) (s : S)
      → Swept repos s completed (run_from visit command retry whole completed s repos)
  unfolding run_from
  run_from-Swept command retry whole [] completed s =
      unfold Swept in inl ([], stop s, ap (λ c. ok (map (λ d. d.1) c)) (sym (append-nil completed)))
  run_from-Swept command retry whole (r ∷ rest) completed s = elim (Result-cases (visit s r).1) [
    | inl (cause, e) ↦
        let whole_e : visit s r ≡ ((visit s r).0, err cause) = ap (λ q. ((visit s r).0, q)) e in
        rw (run_from, e)
          (ended_here whole r rest completed s (visit s r).0 cause _ whole_e refl refl refl)
    | inr (outcome, e) ↦
        let whole_e : visit s r ≡ ((visit s r).0, ok outcome) = ap (λ q. ((visit s r).0, q)) e in
        rw (run_from, e)
          (went_on r rest completed s (visit s r).0 outcome _ whole_e (
            run_from-Swept command retry whole rest (completed ++ (r.repo_id, outcome) ∷ [])
              (visit s r).0))
  ]

  -- A sweep visits the repositories in order until one fails. With no failure it returns the outcome
  -- of each. Else it reports the ones before, the one that failed, and the others, which it never
  -- touched.
  pub run-Visits :
      (command retry : Text) (s : S) (repos : List WorkingRepo)
      → ((outcomes : List (Text × RepoOutcome)) × Visits s repos outcomes
            (run visit command retry s repos).0
          × ((run visit command retry s repos).1 ≡ ok (map (λ c. c.1) outcomes)))
        ⊎ Stops repos s [] (run visit command retry s repos)
  unfolding run Swept
  run-Visits command retry s repos = run_from-Swept command retry repos repos [] s
