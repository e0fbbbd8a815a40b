-- ===== src/Operations/Sweep.antt =====
-- tree/operations/partial_failure.py: `TreeSweep.run` and its report.
pub mod Report
use complex_git_sync.Prelude.{
  true, false, not, none, some, List, [], ◌∷◌, ◌++◌, map, if◌then◌else◌, is_empty, Text, codes,
  text_eq, Result, ok, err,
}
use complex_git_sync.Repo.{WorkingRepo}
use complex_git_sync.Tree.{as_posix}
use complex_git_sync.Operations.{RepoOutcome}

-- TreePartialFailure
pub record TreePartialFailure : Type 0 where
  pub command : Text
  pub completed : List (Text × RepoOutcome)
  pub failed : Text × RepoOutcome
  pub not_attempted : List Text
  pub labels : List (Text × Text)
  pub cause : Text
  pub retry : Text
  pub hint : Text

unfoldable pub label : WorkingRepo → Text
unfolding as_posix
label r =
    r.name
    ++ (codes " (" ++ elim r.relative_path [ none ↦ codes "." | some p ↦ as_posix p ] ++ codes ")")

-- The last label of an identifier: a dictionary keeps the last.
unfoldable pub labelled : List (Text × Text) → Text → Text
unfolding text_eq
labelled [] repo_id = []
labelled ((k, text) ∷ labels) repo_id =
    let later = labelled labels repo_id in
    if is_empty later then if text_eq k repo_id then text else [] else later

unfoldable pub comma_joined : List Text → Text
comma_joined [] = []
comma_joined (t ∷ []) = t
comma_joined (t ∷ u ∷ ts) = t ++ (codes ", " ++ comma_joined (u ∷ ts))

abbrev pub or_none : Text → Text
or_none text = if is_empty text then codes "none" else text

-- The report_text of TreePartialFailure
unfoldable pub report_text : TreePartialFailure → Text
unfolding labelled comma_joined
report_text f =
    let done = or_none (
      comma_joined (
        map (λ c. labelled f.labels c.0 ++ (codes " (" ++ c.1.detail ++ codes ")")) f.completed)) in
    let waiting = or_none (comma_joined (map (labelled f.labels) f.not_attempted)) in
    let text =
      f.command
      ++ (codes " stopped part-way: "
          ++ f.cause
          ++ codes "\ncompleted: "
          ++ done
          ++ codes "\nfailed: "
          ++ labelled f.labels f.failed.0
          ++ codes "\nnot attempted: "
          ++ waiting
          ++ codes
              "\nNothing was rolled back and no State was recorded. Once the cause is fixed, run '"
          ++ f.retry
          ++ codes "' again: what completed is not repeated.") in
    if is_empty f.hint then text else text ++ (codes "\n" ++ f.hint)

-- TreePartialFailure.with_hint
unfoldable pub with_hint : TreePartialFailure → Text → TreePartialFailure
with_hint f hint = record f { hint = hint }

abbrev pub id_of : WorkingRepo → Text
id_of r = r.repo_id

abbrev pub failed_outcome : WorkingRepo → Text → RepoOutcome
failed_outcome r cause = record { name = r.name; acted = false; detail = cause; failed = true }

module _ {S : Type 0} (visit : S → WorkingRepo → S × Result Text RepoOutcome) where
  -- The loop of TreeSweep.run, after the entries that are completed.
  unfoldable pub run_from :
      Text
      → Text
      → List WorkingRepo
      → List (Text × RepoOutcome)
      → S
      → List WorkingRepo
      → S × Result TreePartialFailure (List RepoOutcome)
  unfolding label
  run_from command retry repos completed s [] = (s, ok (map (λ c. c.1) completed))
  run_from command retry repos completed s (r ∷ rest) =
      let (after, result) = visit s r in
      elim result [
        | ok outcome ↦
            run_from command retry repos (completed ++ (r.repo_id, outcome) ∷ []) after rest
        | err cause ↦ (
          after,
          err record {
            command = command;
            completed = completed;
            failed = (r.repo_id, failed_outcome r cause);
            not_attempted = map id_of rest;
            labels = map (λ q. (q.repo_id, label q)) repos;
            cause = cause;
            retry = retry;
            hint = [];
          },
        )
      ]

  -- TreeSweep.run
  unfoldable pub run :
      Text → Text → S → List WorkingRepo → S × Result TreePartialFailure (List RepoOutcome)
  unfolding run_from
  run command retry s repos = run_from command retry repos [] s repos
