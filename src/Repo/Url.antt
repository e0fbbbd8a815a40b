-- ===== src/Repo/Url.antt =====
-- `convert_remote_url_protocol` of git_repo/git_repo.py. `urlsplit`, of the standard library, is a
-- parameter.
pub mod Convert
use mathlib.Core.List.{reverse}
use complex_git_sync.Prelude.{
  ℕ, Bool, true, false, ◌&&◌, ◌||◌, not, Option, none, some, [], ◌∷◌, ◌++◌, ◌==◌, if◌then◌else◌,
  any, is_empty, Text, codes, text_eq, is_white, after_prefix, strip_white,
}
use complex_git_sync.Repo.{AccessProtocol, ssh, https}

-- What the conversion reads of a `SplitResult`
pub record SplitUrl : Type 0 where
  pub scheme : Text
  pub netloc : Text
  pub path : Text

-- The text before and after the first such character
unfoldable pub cut_at : ℕ → Text → Option (Text × Text)
cut_at mark [] = none
cut_at mark (c ∷ cs) =
    let rest = cut_at mark cs in
    if c == mark
    then some ([], cs)
    else elim rest [ none ↦ none | some parts ↦ some (c ∷ parts.0, parts.1) ]

unfoldable pub has_char : ℕ → Text → Bool
has_char c [] = false
has_char c (d ∷ ds) = d == c || has_char c ds

-- `[^…\s]+`, of a text without the other characters of the class
unfoldable pub word : Text → Bool
unfolding is_white
word text = not (is_empty text) && not (any is_white text)

-- `.+$`: no line break, but for one at the end
unfoldable pub line : Text → Option Text
unfolding has_char
line text = elim (reverse text) [
  | [] ↦ none
  | c ∷ cs ↦
      let body : Text = if c == 10 then reverse cs else text in
      if is_empty body || has_char 10 body then none else some body
]

-- _SSH_REMOTE_RE.match: the groups `host` and `path`
unfoldable pub ssh_match : Text → Option (Text × Text)
unfolding cut_at word line
ssh_match body = elim (cut_at b'@' body) [
  | none ↦ none
  | some (user, rest) ↦ elim (cut_at b':' rest) [
    | none ↦ none
    | some (host, path) ↦
        if word user && word host
        then elim (line path) [ none ↦ none | some p ↦ some (host, p) ]
        else none
  ]
]

abbrev pub git_suffix : Text
git_suffix = codes ".git"

-- `stripped[:-4] if stripped.endswith(".git") else stripped`
unfoldable pub without_suffix : Text → Text
unfolding after_prefix
without_suffix text = elim (after_prefix (reverse git_suffix) (reverse text)) [
  | none ↦ text
  | some back ↦ reverse back
]

unfoldable pub strip_slash_left : Text → Text
strip_slash_left [] = []
strip_slash_left (c ∷ cs) = let rest = strip_slash_left cs in if c == b'/' then rest else c ∷ cs

-- path.strip("/")
unfoldable pub strip_slash : Text → Text
unfolding strip_slash_left
strip_slash path = reverse (strip_slash_left (reverse (strip_slash_left path)))

abbrev pub is_ssh : AccessProtocol → Bool
is_ssh ssh = true
is_ssh https = false

abbrev pub web_scheme : Text → Bool
web_scheme scheme = text_eq scheme (codes "http") || text_eq scheme (codes "https")

-- The two tests of convert_remote_url_protocol, on the address without white space, the same without
-- its suffix, and the match of the latter.
unfoldable pub convert_body :
    (Text → SplitUrl) → Text → Text → Option (Text × Text) → AccessProtocol → Option Text
unfolding strip_slash text_eq
convert_body urlsplit stripped body (some (host, path)) protocol =
    if is_ssh protocol
    then some stripped
    else some (codes "https://" ++ host ++ b'/' ∷ path ++ git_suffix)
convert_body urlsplit stripped body none protocol =
    let parsed = urlsplit body in
    if web_scheme parsed.scheme && not (is_empty parsed.netloc)
    then if is_ssh protocol
      then some (codes "git@" ++ parsed.netloc ++ b':' ∷ strip_slash parsed.path ++ git_suffix)
      else some stripped
    else none

-- convert_remote_url_protocol: `none` is the `ValueError`
unfoldable pub convert_remote_url_protocol : (Text → SplitUrl) → Text → AccessProtocol → Option Text
unfolding strip_white without_suffix ssh_match convert_body
convert_remote_url_protocol urlsplit url protocol =
    let stripped = strip_white url in
    let body = without_suffix stripped in
    convert_body urlsplit stripped body (ssh_match body) protocol
