-- ===== src/Omniscience/Completeness.antt =====
-- omniscience/omniscience_completeness.py: the latest finding per target, and the verdict. A warning
-- and a failure are kept as what their text shows.
pub mod Runs
use complex_git_sync.Prelude.{
  ℕ, ◌+◌, ◌-◌, ◌*◌, ◌/◌, ◌%◌, Bool, true, false, ◌&&◌, ◌||◌, not, Option, none, some, List, [], ◌∷◌,
  map, ltb, leb, ◌==◌, if◌then◌else◌, length, get_elem?, take, drop, is_empty, Text, Bytes, codes,
  text_eq, text_lt, sorted,
}
use mathlib.Core.List.{reverse}
use complex_git_sync.Omniscience.Observation.{
  ObservationStatus, available, not_found, closed, deletion_confirmed, Observation, hash_of,
}

-- The number that a decimal text says.
unfoldable pub number : ℕ → Text → ℕ
number n [] = n
number n (c ∷ cs) = number (n * 10 + (c - 48)) cs

unfoldable pub is_leap : ℕ → Bool
is_leap y = y % 4 == 0 && (not (y % 100 == 0) || y % 400 == 0)

unfoldable pub month_days : ℕ → List ℕ
unfolding is_leap
month_days y =
    31 ∷ (if is_leap y then 29 else 28) ∷ 31 ∷ 30 ∷ 31 ∷ 30 ∷ 31 ∷ 31 ∷ 30 ∷ 31 ∷ 30 ∷ 31 ∷ []

unfoldable pub total : List ℕ → ℕ
total [] = 0
total (n ∷ ns) = n + total ns

-- The seconds since the first day of year 1, of a date and a time that exist.
unfoldable pub seconds : (y mo d h mi s : ℕ) → Option ℕ
unfolding month_days total
seconds y mo d h mi s = elim (get_elem? (month_days y) (mo - 1)) [
  | none ↦ none
  | some days ↦
      if leb 1 y && leb 1 mo && leb 1 d && leb d days && ltb h 24 && ltb mi 60 && ltb s 60
      then some (
          (((y - 1) * 365
                  + (y - 1) / 4
                  - (y - 1) / 100
                  + (y - 1) / 400
                  + total (take (mo - 1) (month_days y))
                  + (d - 1))
                * 24
              + h)
            * 3600
          + mi * 60
          + s)
      else none
]

-- `_moment`, of a text of the shape that `Observation` requires; `none` is the `ValueError`.
unfoldable pub moment : Text → Option ℕ
unfolding number seconds
moment text =
    seconds (number 0 (take 4 text)) (number 0 (take 2 (drop 5 text)))
      (number 0 (take 2 (drop 8 text))) (number 0 (take 2 (drop 11 text)))
      (number 0 (take 2 (drop 14 text))) (number 0 (take 2 (drop 17 text)))

-- PERMANENT_AFTER, in seconds, and PERMANENT_AFTER_COUNT
abbrev pub permanent_after : ℕ
permanent_after = 604800

abbrev pub permanent_after_count : ℕ
permanent_after_count = 2

-- last.status in _QUIET
unfoldable pub is_quiet : ObservationStatus → Bool
is_quiet available = true
is_quiet closed = true
is_quiet deletion_confirmed = true
is_quiet _ = false

unfoldable pub is_not_found : ObservationStatus → Bool
is_not_found not_found = true
is_not_found _ = false

-- The loop of `_not_found_run`, up to its `break`.
unfoldable pub leading_run : List Observation → List Observation
unfolding is_not_found
leading_run [] = []
leading_run (o ∷ os) =
    let more = leading_run os in if not (is_not_found o.status) then [] else o ∷ more

-- CompletenessReport._not_found_run
unfoldable pub not_found_run : List Observation → List Observation
unfolding leading_run
not_found_run history = reverse (leading_run (reverse history))

-- The key of a target.
abbrev pub Target : Type 0
Target = Text × Text × Text

abbrev pub target_of : Observation → Target
target_of o = (o.os_id, o.target_kind, o.target)

unfoldable pub same_target : Target → Target → Bool
same_target (a, b, c) (x, y, z) = text_eq a x && text_eq b y && text_eq c z

unfoldable pub target_lt : Target → Target → Bool
target_lt (a, b, c) (x, y, z) =
    text_lt a x || text_eq a x && (text_lt b y || text_eq b y && text_lt c z)

-- by_target[key], of the observations in order
unfoldable pub history_of : Target → List Observation → List Observation
unfolding same_target
history_of key [] = []
history_of key (o ∷ os) =
    let rest = history_of key os in if same_target (target_of o) key then o ∷ rest else rest

-- The keys of `by_target`: each target once.
unfoldable pub has_target : Target → List Target → Bool
unfolding same_target
has_target key [] = false
has_target key (k ∷ keys) = same_target k key || has_target key keys

unfoldable pub targets : List Observation → List Target
unfolding has_target
targets [] = []
targets (o ∷ os) =
    let keys = targets os in if has_target (target_of o) keys then keys else target_of o ∷ keys

-- A line of the report: the latest finding, the length of the run and its first moment.
pub record Line : Type 0 where
  pub last : Observation
  pub run_length : ℕ
  pub since : Option Text

pub record CompletenessReport : Type 0 where
  pub latest : List Observation
  pub warnings : List Line
  pub failures : List Line

abbrev pub Timed : Type 0
Timed = ℕ × Text × Observation

unfoldable pub timed : (Bytes → Bytes) → List Observation → Option (List Timed)
unfolding moment
timed sha256 [] = some []
timed sha256 (o ∷ os) =
    let rest = timed sha256 os in
    elim (moment o.observed_at) [
      | none ↦ none
      | some m ↦ elim rest [ none ↦ none | some ts ↦ some ((m, hash_of sha256 o, o) ∷ ts) ]
    ]

unfoldable pub timed_lt : Timed → Timed → Bool
timed_lt (m, h, o) (n, k, p) = ltb m n || m == n && text_lt h k

-- The last of a history and its moments' distance, over a run that is not empty.
unfoldable pub last_observation : Observation → List Observation → Observation
last_observation o [] = o
last_observation o (p ∷ ps) = last_observation p ps

unfoldable pub moment_or_zero : Text → ℕ
unfolding moment
moment_or_zero text = elim (moment text) [ none ↦ 0 | some m ↦ m ]

-- run and len(run) >= PERMANENT_AFTER_COUNT and the run lasts PERMANENT_AFTER
unfoldable pub is_permanent : List Observation → Bool
unfolding last_observation moment_or_zero
is_permanent [] = false
is_permanent (o ∷ os) =
    leb permanent_after_count (length (o ∷ os))
    && leb permanent_after
        (moment_or_zero (last_observation o os).observed_at - moment_or_zero o.observed_at)

abbrev pub line_of : Observation → List Observation → Line
line_of last [] = record { last = last; run_length = 0; since = none }
line_of last (o ∷ os) = record {
  last = last;
  run_length = length (o ∷ os);
  since = some o.observed_at;
}

abbrev pub add_line : Observation → List Observation → CompletenessReport → CompletenessReport
add_line last run r =
    if is_quiet last.status
    then record r { latest = last ∷ r.latest }
    else if is_permanent run
    then record r { latest = last ∷ r.latest; failures = line_of last run ∷ r.failures }
    else record r { latest = last ∷ r.latest; warnings = line_of last run ∷ r.warnings }

-- The loop over the targets.
unfoldable pub report : List Target → List Observation → CompletenessReport
unfolding history_of last_observation not_found_run is_quiet is_permanent
report [] os = record { latest = []; warnings = []; failures = [] }
report (key ∷ keys) os =
    let rest = report keys os in
    elim (history_of key os) [
      | [] ↦ rest
      | o ∷ history ↦ add_line (last_observation o history) (not_found_run (o ∷ history)) rest
    ]

-- CompletenessReport.of
unfoldable pub report_on : (Bytes → Bytes) → List Observation → Option CompletenessReport
unfolding timed timed_lt targets target_lt report
report_on sha256 observations = elim (timed sha256 observations) [
  | none ↦ none
  | some ts ↦
      let os = map (λ t. t.2) (sorted timed_lt ts) in
      some (report (sorted target_lt (targets os)) os)
]

-- CompletenessReport.verdict
unfoldable pub verdict : CompletenessReport → Text
verdict r =
    if not (is_empty r.failures)
    then codes "failure"
    else if not (is_empty r.warnings)
    then codes "warning"
    else codes "ok"
