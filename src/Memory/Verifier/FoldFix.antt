-- ===== src/Memory/Verifier/FoldFix.antt =====
-- `written_before_fold_fix` of tree/memory/integrity.py: the version that wrote an entry.
use complex_git_sync.Prelude.{
  ℕ, zero, suc, ◌+◌, ◌-◌, ◌*◌, Bool, false, ◌&&◌, not, Option, none, some, List, [], ◌∷◌, leb, ◌==◌,
  if◌then◌else◌, is_empty, Text, text_lt, strip_white,
}
use complex_git_sync.Memory.Scrub.{span}

-- COMMIT_LOG_FOLD_FIXED_IN
abbrev pub fold_fixed_in : List ℕ
fold_fixed_in = 6 ∷ 8 ∷ 1 ∷ []

unfoldable pub is_ascii_digit : ℕ → Bool
is_ascii_digit c = leb b'0' c && leb c b'9'

-- int(text), of digits
unfoldable pub int_of : ℕ → Text → ℕ
int_of n [] = n
int_of n (c ∷ cs) = int_of (n * 10 + (c - 48)) cs

-- `(?:\.(\d+))?`, `left` times
unfoldable pub dotted : ℕ → Text → List ℕ
unfolding span is_ascii_digit int_of
dotted zero text = []
dotted (suc left) [] = []
dotted (suc left) (c ∷ cs) =
    let (front, after) = span is_ascii_digit cs in
    let more = dotted left after in
    if c == b'.' && not (is_empty front) then int_of 0 front ∷ more else []

-- The groups of `_LEADING_VERSION`, as numbers; `none` is no match.
unfoldable pub leading_version : Text → Option (List ℕ)
unfolding dotted
leading_version text =
    let (front, after) = span is_ascii_digit text in
    if is_empty front then none else some (int_of 0 front ∷ dotted 2 after)

-- ChainVerifier.written_before_fold_fix: tuples of numbers compare as texts do.
unfoldable pub written_before_fold_fix : Text → Bool
unfolding leading_version strip_white
written_before_fold_fix version = elim (leading_version (strip_white version)) [
  | none ↦ false
  | some groups ↦ text_lt groups fold_fixed_in
]
