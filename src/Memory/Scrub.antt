-- ===== src/Memory/Scrub.antt =====
-- `ArgvScrubber` of tree/memory/ledger_store.py. The regular expressions are read off into
-- functions by clauses; `$` also matches before a last line feed, and `.` matches no line feed.
pub mod Flags
pub mod Urls
pub mod Secrets
use complex_git_sync.Prelude.{
  ℕ, Bool, true, false, ◌&&◌, ◌||◌, not, Option, none, some, List, [], ◌∷◌, ◌++◌, leb, ◌==◌,
  if◌then◌else◌, is_empty, Text, codes, text_eq, is_white, after_prefix, starts_with,
}

abbrev pub redacted : Text
redacted = codes "***"

unfoldable pub is_letter : ℕ → Bool
is_letter c = leb b'A' c && leb c b'Z' || leb b'a' c && leb c b'z'

unfoldable pub is_scheme_char : ℕ → Bool
unfolding is_letter
is_scheme_char c = is_letter c || leb b'0' c && leb c b'9' || c == b'+' || c == b'.' || c == b'-'

-- `.*$`: what `.*` matches, where the text goes on with nothing but a last line feed.
unfoldable pub line_rest : Text → Option Text
line_rest [] = some []
line_rest (c ∷ []) = if c == 10 then some [] else some (c ∷ [])
line_rest (c ∷ d ∷ cs) =
    let rest = line_rest (d ∷ cs) in
    if c == 10 then none else elim rest [ none ↦ none | some r ↦ some (c ∷ r) ]

-- The longest front whose characters pass the test, and what follows.
unfoldable pub span : (ℕ → Bool) → Text → Text × Text
span test [] = ([], [])
span test (c ∷ cs) =
    let (front, rest) = span test cs in if test c then (c ∷ front, rest) else ([], c ∷ cs)

unfoldable pub is_userinfo_char : ℕ → Bool
unfolding is_white
is_userinfo_char c = not (c == b'/' || c == b'@' || is_white c)

-- userinfo, `@` and the rest of the line; both parts of the match
unfoldable pub userinfo_and_rest : Text → Option (Text × Text)
unfolding span is_userinfo_char line_rest
userinfo_and_rest text =
    let (info, after) = span is_userinfo_char text in
    if is_empty info then none else elim after [
      | [] ↦ none
      | c ∷ cs ↦
          if c == b'@' then elim (line_rest cs) [ none ↦ none | some r ↦ some (info, r) ] else none
    ]

-- _URL_USERINFO_RE: the scheme with `://`, the userinfo, the rest
unfoldable pub url_match : Text → Option (Text × Text × Text)
unfolding span is_scheme_char after_prefix userinfo_and_rest is_letter
url_match [] = none
url_match (c ∷ cs) =
    let (more, after) = span is_scheme_char cs in
    if is_letter c
    then elim (after_prefix (codes "://") after) [
      | none ↦ none
      | some tail ↦ elim (userinfo_and_rest tail) [
        | none ↦ none
        | some (info, r) ↦ some ((c ∷ more) ++ codes "://", info, r)
      ]
    ]
    else none

-- ArgvScrubber._scrub_url_userinfo
unfoldable pub scrub_url_userinfo : Text → Text
unfolding url_match
scrub_url_userinfo value = elim (url_match value) [
  | none ↦ value
  | some (scheme, info, r) ↦ scheme ++ (redacted ++ (b'@' ∷ r))
]

-- A match of _SECRET_FLAG_RE: the flag's name, and whether a value is joined to it.
pub data SecretFlag : Type 0 where
  bare joined : Text → SecretFlag

-- `(=.*)?$` after the name
unfoldable pub flag_tail : Text → Text → Option SecretFlag
unfolding line_rest
flag_tail name [] = some (bare name)
flag_tail name (c ∷ cs) =
    if c == b'='
    then elim (line_rest cs) [ none ↦ none | some value ↦ some (joined name) ]
    else if c == 10 && is_empty cs
    then some (bare name)
    else none

unfoldable pub first_match : List Text → Text → Option SecretFlag
unfolding after_prefix flag_tail
first_match [] text = none
first_match (name ∷ names) text =
    let later = first_match names text in
    elim (after_prefix name text) [
      | none ↦ later
      | some tail ↦ elim (flag_tail name tail) [ none ↦ later | some flag ↦ some flag ]
    ]

abbrev pub secret_flag_names : List Text
secret_flag_names = codes "token" ∷ codes "password" ∷ codes "service" ∷ []

unfoldable pub secret_flag : Text → Option SecretFlag
unfolding first_match
secret_flag arg = elim (after_prefix (codes "--") arg) [
  | none ↦ none
  | some tail ↦ first_match secret_flag_names tail
]

-- The components of a path that `pathlib` keeps: neither empty nor `.`; here the last of them.
unfoldable pub last_component : Text → Text → Text → Text
last_component found current [] =
    if is_empty current || text_eq current (codes ".") then found else current
last_component found current (c ∷ cs) =
    last_component
      (if c == b'/'
        then (if is_empty current || text_eq current (codes ".") then found else current)
        else found)
      (if c == b'/' then [] else current ++ c ∷ []) cs

-- Path(value).name
unfoldable pub path_name : Text → Text
unfolding last_component
path_name value = last_component [] [] value

-- argument.partition("="): the flag and the value, where there is a `=`
unfoldable pub partition_eq : Text → Option (Text × Text)
partition_eq [] = none
partition_eq (c ∷ cs) =
    let rest = partition_eq cs in
    if c == b'='
    then some ([], cs)
    else elim rest [ none ↦ none | some (flag, value) ↦ some (c ∷ flag, value) ]

-- value.startswith("/") or len(value) > 2 and value[1] == ":"
unfoldable pub is_absolute : Text → Bool
is_absolute [] = false
is_absolute (c ∷ []) = c == b'/'
is_absolute (c ∷ d ∷ []) = c == b'/'
is_absolute (c ∷ d ∷ e ∷ cs) = c == b'/' || d == b':'

-- The prefix that stays and the value that is looked at.
unfoldable pub split_flag : Text → Text × Text
unfolding partition_eq after_prefix
split_flag argument =
    if starts_with (codes "--") argument
    then elim (partition_eq argument) [
      | none ↦ ([], argument)
      | some (flag, value) ↦ (flag ++ (b'=' ∷ []), value)
    ]
    else ([], argument)

-- `PathResolver.against_tree` resolves symbolic links on the disk: it is a parameter. `none`
-- stands for the call without a tree.
module _ (tree : Option (Text → Option Text)) where
  abbrev pub in_tree : Text → Option Text
  in_tree value = elim tree [ none ↦ none | some against_tree ↦ against_tree value ]

  -- ArgvScrubber._scrub_path
  unfoldable pub scrub_path : Text → Text
  unfolding split_flag is_absolute path_name
  scrub_path argument =
      let (prefix, value) = split_flag argument in
      if not (is_absolute value) then argument else elim (in_tree value) [
        | some written ↦ prefix ++ written
        | none ↦ prefix ++ path_name value
      ]

  -- The loop of `scrub`: `redact_next` and the arguments left.
  unfoldable pub scrub_loop : Bool → List Text → List Text
  unfolding scrub_path secret_flag scrub_url_userinfo
  scrub_loop redact_next [] = []
  scrub_loop true (arg ∷ argv) = redacted ∷ scrub_loop false argv
  scrub_loop false (arg ∷ argv) =
      let plain = scrub_loop false argv in
      let redacting = scrub_loop true argv in
      elim (secret_flag (scrub_path arg)) [
        | some (joined name) ↦ (codes "--" ++ (name ++ (b'=' ∷ redacted))) ∷ plain
        | some (bare name) ↦ scrub_path arg ∷ redacting
        | none ↦ scrub_url_userinfo (scrub_path arg) ∷ plain
      ]

  -- ArgvScrubber.scrub
  unfoldable pub scrub : List Text → List Text
  unfolding scrub_loop
  scrub argv = scrub_loop false argv
