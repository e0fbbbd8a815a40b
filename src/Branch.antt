-- ===== src/Branch.antt =====
-- git_repo/git_branch.py: the names of branches, and which branch a repository targets. A value of a
-- document is a string.
pub mod Names
pub mod Twin
pub mod Chain
use complex_git_sync.Prelude.{
  ℕ, Bool, true, false, ◌&&◌, ◌||◌, not, Option, none, some, List, [], ◌∷◌, ◌++◌, ◌==◌,
  if◌then◌else◌, is_empty, Text, codes, text_eq, after_prefix, starts_with, strip_white,
}
use complex_git_sync.Repo.{
  RefKind, branch_ref, tag_ref, WorkingRepo, effective_private, effective_writable,
}

abbrev pub main_branch : Text
main_branch = codes "main"

pub data BranchSource : Type 0 where
  tag_source repo_branch repo_default project_default builtin_default : BranchSource
  private_distant private_local observed_source entry_resolved entry_target : BranchSource
  fallback_source behind_gate_source : BranchSource

-- _SOURCE_REASONS
unfoldable pub source_reason : BranchSource → Text
source_reason tag_source = codes "entry declares a tag"
source_reason repo_branch = codes "repository entry declares 'branch'"
source_reason repo_default = codes "repository entry declares 'default_branch'"
source_reason project_default = codes "inherited from 'project.default_branch'"
source_reason builtin_default =
    codes "no branch declared anywhere; fell back to the built-in default 'main'"
source_reason private_distant =
    codes "repository is private and read-only, so the branch move left it alone"
source_reason private_local =
    codes "repository is private and writable, so it follows the project's branch "
    ++ codes "on a branch derived from it"
source_reason observed_source = codes "read from the repository on disk"
source_reason entry_resolved = codes "the ref this repository last landed on"
source_reason entry_target = codes "the ref this repository targets"
source_reason fallback_source = codes "target branch unavailable; used the declared fallback"
source_reason behind_gate_source =
    codes "ComplexGitSync behind another project's gate takes a branch of that project's"

pub record BranchResolution : Type 0 where
  pub name : Option Text
  pub kind : Option RefKind
  pub source : BranchSource
  pub fallback_applied : Bool

-- BranchResolution.apply_to
unfoldable pub apply_to : BranchResolution → WorkingRepo → WorkingRepo
unfolding source_reason
apply_to b entry = record entry {
  target_ref_name = b.name;
  target_ref_kind = elim b.kind [ none ↦ entry.target_ref_kind | some k ↦ some k ];
  fallback_applied = b.fallback_applied;
  fallback_reason = if b.fallback_applied then some (source_reason b.source) else none;
}

-- `a or b`, of optional strings: an empty string gives way.
unfoldable pub or_else : Option Text → Text → Text
or_else none other = other
or_else (some []) other = other
or_else (some (c ∷ cs)) other = c ∷ cs

-- BranchResolution.from_landed_ref
unfoldable pub from_landed_ref : WorkingRepo → Text → RefKind → Option Text → BranchResolution
unfolding or_else text_eq
from_landed_ref entry landed_name landed_kind requested_name =
    let applied : Bool =
      not (
        text_eq landed_name (or_else entry.target_ref_name (or_else requested_name landed_name))) in
    record {
      name = some landed_name;
      kind = some landed_kind;
      source = if applied then fallback_source else entry_target;
      fallback_applied = applied;
    }

-- _as_optional_str
unfoldable pub as_optional_str : Option Text → Option Text
unfolding strip_white
as_optional_str none = none
as_optional_str (some value) =
    let text = strip_white value in if is_empty text then none else some text

-- The branch fields of one repository entry of a document; `private` and `writable` are `is True`.
pub record DeclaredRepo : Type 0 where
  pub tag : Option Text
  pub branch : Option Text
  pub default_branch : Option Text
  pub fallback_branch : Option Text
  pub private : Bool
  pub writable : Bool

-- apply_declared_defaults
unfoldable pub apply_declared_defaults : DeclaredRepo → Text → Option Text → DeclaredRepo
unfolding or_else
apply_declared_defaults r project_default_branch project_fallback =
    let base : Text =
      or_else r.default_branch (or_else (some project_default_branch) main_branch) in
    record r {
      default_branch = some base;
      fallback_branch = some (
          or_else r.fallback_branch
            (if r.private && r.writable then base else or_else project_fallback main_branch));
    }

-- _first_named
unfoldable pub first_named : List (Option Text × BranchSource) → RefKind → BranchResolution
first_named [] kind = record {
  name = some main_branch;
  kind = some kind;
  source = builtin_default;
  fallback_applied = false;
}
first_named ((none, source) ∷ candidates) kind = first_named candidates kind
first_named ((some [], source) ∷ candidates) kind = first_named candidates kind
first_named ((some (c ∷ cs), source) ∷ candidates) kind = record {
  name = some (c ∷ cs);
  kind = some kind;
  source = source;
  fallback_applied = false;
}

abbrev pub declared_candidates : DeclaredRepo → Option Text → List (Option Text × BranchSource)
declared_candidates r document_default_branch =
    (as_optional_str r.branch, repo_branch)
    ∷ (as_optional_str r.default_branch, repo_default)
    ∷ (as_optional_str document_default_branch, project_default)
    ∷ (some main_branch, builtin_default)
    ∷ []

-- resolve_declared_ref
unfoldable pub resolve_declared_ref : DeclaredRepo → Option Text → BranchResolution
unfolding as_optional_str first_named
resolve_declared_ref r document_default_branch = elim (as_optional_str r.tag) [
  | some t ↦ record {
    name = some t;
    kind = some tag_ref;
    source = tag_source;
    fallback_applied = false;
  }
  | none ↦ first_named (declared_candidates r document_default_branch) branch_ref
]

abbrev pub entry_candidates : WorkingRepo → Option Text → List (Option Text × BranchSource)
entry_candidates entry observed_branch =
    (as_optional_str observed_branch, observed_source)
    ∷ (as_optional_str entry.resolved_ref_name, entry_resolved)
    ∷ (as_optional_str entry.target_ref_name, entry_target)
    ∷ (as_optional_str entry.default_branch, repo_default)
    ∷ (some main_branch, builtin_default)
    ∷ []

-- resolve_entry_ref
unfoldable pub resolve_entry_ref : WorkingRepo → Option Text → BranchResolution
unfolding as_optional_str first_named
resolve_entry_ref entry observed_branch =
    first_named (entry_candidates entry observed_branch) branch_ref

-- PRIVATE_LOCAL_SEPARATOR
abbrev pub separator : ℕ
separator = b'_'

abbrev pub twin_branch_owner : Text
twin_branch_owner = codes "ComplexGitSync"

-- The owner that counts, and the base that the project's name gets under it.
unfoldable pub branch_base : Text → Bool → Option Text → Text
branch_base project_name true owner = twin_branch_owner ++ separator ∷ project_name
branch_base project_name false none = project_name
branch_base project_name false (some []) = project_name
branch_base project_name false (some (c ∷ cs)) = (c ∷ cs) ++ separator ∷ project_name

-- private_local_branch
unfoldable pub private_local_branch : Text → Text → Bool → Option Text → Text
unfolding branch_base text_eq
private_local_branch project_name project_branch twin owner =
    if text_eq project_branch main_branch
    then branch_base project_name twin owner
    else branch_base project_name twin owner ++ separator ∷ project_branch

-- declared_private_local_mismatch
unfoldable pub declared_private_local_mismatch :
    DeclaredRepo → Option Text → Option Text → Option Text
unfolding or_else as_optional_str private_local_branch
declared_private_local_mismatch r none project_default_branch = none
declared_private_local_mismatch r (some []) project_default_branch = none
declared_private_local_mismatch r (some (c ∷ cs)) project_default_branch =
    let base : Text = or_else project_default_branch main_branch in
    let expected : Text = private_local_branch (c ∷ cs) base false none in
    if not (r.private && r.writable) then none else elim (as_optional_str r.default_branch) [
      | none ↦ none
      | some found ↦ if text_eq found expected || text_eq found base then none else some expected
    ]

abbrev pub level_fallback : Text
level_fallback = codes "CGS-ALPHA"

abbrev pub is_text : Option Text → Text → Bool
is_text none text = false
is_text (some t) text = text_eq t text

-- behind_gate
unfoldable pub behind_gate : WorkingRepo → Option Text → Option Text → Bool
unfolding effective_private
behind_gate entry none root_fallback = false
behind_gate entry (some project_name) root_fallback =
    not (effective_private entry)
    && is_text root_fallback level_fallback
    && is_text entry.repo_name twin_branch_owner
    && not (text_eq project_name twin_branch_owner)

-- is_twin_branch
unfoldable pub is_twin_branch : Text → Text → Bool
unfolding private_local_branch after_prefix
is_twin_branch project_name branch_name =
    let base : Text = private_local_branch project_name main_branch true none in
    text_eq branch_name base || starts_with (base ++ separator ∷ []) branch_name

-- name.replace("_", "-")
unfoldable pub dashed : Text → Text
dashed [] = []
dashed (c ∷ cs) = (if c == separator then b'-' else c) ∷ dashed cs

unfoldable pub has_separator : Text → Bool
has_separator [] = false
has_separator (c ∷ cs) = c == separator || has_separator cs

-- structural_name_problem: the name that its message proposes
unfoldable pub structural_name_problem : Text → Option Text
unfolding dashed has_separator
structural_name_problem name = if has_separator name then some (dashed name) else none

abbrev pub closed_branch_prefix : Text
closed_branch_prefix = codes "closed/"

-- closed_branch_name
unfoldable pub closed_branch_name : Text → Text
closed_branch_name branch_name = closed_branch_prefix ++ branch_name

-- closed_branch_origin
unfoldable pub closed_branch_origin : Text → Option Text
unfolding after_prefix
closed_branch_origin branch_name = elim (after_prefix closed_branch_prefix branch_name) [
  | none ↦ none
  | some [] ↦ none
  | some (c ∷ cs) ↦ some (c ∷ cs)
]

abbrev pub ancestors_branch : Text
ancestors_branch = codes "ancestors"

-- closeable
unfoldable pub closeable : Text → Text → Bool
unfolding text_eq
closeable branch_name project_default_branch =
    not (text_eq branch_name project_default_branch || text_eq branch_name ancestors_branch)

-- ref_kind is RefKind.BRANCH
abbrev pub is_branch : RefKind → Bool
is_branch branch_ref = true
is_branch _ = false

abbrev pub is_tag : RefKind → Bool
is_tag tag_ref = true
is_tag _ = false

-- `if project_name`, of an optional string
abbrev pub named : Option Text → Option Text
named none = none
named (some []) = none
named (some (c ∷ cs)) = some (c ∷ cs)

abbrev pub moved : Text → RefKind → BranchResolution
moved ref_name ref_kind = record {
  name = some ref_name;
  kind = some ref_kind;
  source = if is_tag ref_kind then tag_source else repo_branch;
  fallback_applied = false;
}

-- The branch of resolve_propagated_ref for a private entry.
abbrev pub private_target : WorkingRepo → Text → Option Text → Bool → Option Text → BranchResolution
private_target entry ref_name project_name twin owner =
    let stays : BranchResolution = record {
      name = some (or_else (as_optional_str entry.default_branch) main_branch);
      kind = none;
      source = private_distant;
      fallback_applied = false;
    } in
    if not (effective_writable entry) then stays else elim (named project_name) [
      | none ↦ stays
      | some p ↦ record {
        name = some (private_local_branch p ref_name twin owner);
        kind = none;
        source = private_local;
        fallback_applied = false;
      }
    ]

-- resolve_propagated_ref
unfoldable pub resolve_propagated_ref :
    WorkingRepo → Text → RefKind → Option Text → Bool → Option Text → Bool → BranchResolution
unfolding or_else as_optional_str private_local_branch effective_private effective_writable
resolve_propagated_ref entry ref_name ref_kind project_name twin owner guest =
    if effective_private entry && is_branch ref_kind
    then private_target entry ref_name project_name twin owner
    else if guest && is_branch ref_kind
    then elim (named project_name) [
      | none ↦ moved ref_name ref_kind
      | some p ↦ record {
        name = some (private_local_branch p ref_name false none);
        kind = some ref_kind;
        source = behind_gate_source;
        fallback_applied = false;
      }
    ]
    else moved ref_name ref_kind
