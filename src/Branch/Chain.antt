-- ===== src/Branch/Chain.antt =====
-- The chains of fallbacks of git_repo/git_branch.py.
use complex_git_sync.Prelude.{
  ℕ, ◌≡◌, refl, false, Option, none, some, List, [], ◌∷◌, ◌++◌, take, Text,
}
use complex_git_sync.Repo.{RefKind, branch_ref, tag_ref, WorkingRepo}
use complex_git_sync.Branch.{
  BranchSource, BranchResolution, DeclaredRepo, as_optional_str, first_named, declared_candidates,
  entry_candidates, resolve_declared_ref, resolve_entry_ref, main_branch, builtin_default,
  tag_source,
}

-- The candidate that a chain answers with: it is named, and none before it is.
pub data Chosen : List (Option Text × BranchSource) → Text → BranchSource → Type 0 where
  first :
      {c : ℕ} {cs : Text} {source : BranchSource} {rest : List (Option Text × BranchSource)}
      → Chosen ((some (c ∷ cs), source) ∷ rest) (c ∷ cs) source
  skip_none :
      {s source : BranchSource} {name : Text} {rest : List (Option Text × BranchSource)}
      → Chosen rest name source
      → Chosen ((none, s) ∷ rest) name source
  skip_empty :
      {s source : BranchSource} {name : Text} {rest : List (Option Text × BranchSource)}
      → Chosen rest name source
      → Chosen ((some [], s) ∷ rest) name source

abbrev pub resolution : Text → RefKind → BranchSource → BranchResolution
resolution name kind source = record {
  name = some name;
  kind = some kind;
  source = source;
  fallback_applied = false;
}

first_named-Chosen :
    (candidates : List (Option Text × BranchSource)) (kind : RefKind) {name : Text}
    {source : BranchSource}
    → Chosen candidates name source
    → first_named candidates kind ≡ resolution name kind source
unfolding first_named
first_named-Chosen _ kind first = refl
first_named-Chosen ((none, _) ∷ rest) kind (skip_none h) = first_named-Chosen rest kind h
first_named-Chosen ((some [], _) ∷ rest) kind (skip_empty h) = first_named-Chosen rest kind h

-- A chain that ends in the built-in default has a choice.
candidate_of :
    (candidates : List (Option Text × BranchSource))
    → (name : Text) × (source : BranchSource) × Chosen
        (candidates ++ (some main_branch, builtin_default) ∷ [])
        name
        source
candidate_of [] = (main_branch, builtin_default, first)
candidate_of ((some (c ∷ cs), source) ∷ rest) = (c ∷ cs, source, first)
candidate_of ((none, _) ∷ rest) =
    let (name, source, h) = candidate_of rest in (name, source, skip_none h)
candidate_of ((some [], _) ∷ rest) =
    let (name, source, h) = candidate_of rest in (name, source, skip_empty h)

-- An entry of a document without a tag targets a branch, the first that is named in its chain, which
-- always has one; an entry with a tag targets the tag.
pub resolve_declared_ref-Chosen :
    (r : DeclaredRepo) (document_default_branch : Option Text)
    → (as_optional_str r.tag ≡ none
        → (name : Text) × (source : BranchSource) × Chosen
            (declared_candidates r document_default_branch)
            name
            source
          × (resolve_declared_ref r document_default_branch ≡ resolution name branch_ref source))
      × ((t : Text)
          → as_optional_str r.tag ≡ some t
          → resolve_declared_ref r document_default_branch ≡ resolution t tag_ref tag_source)
unfolding resolve_declared_ref
resolve_declared_ref-Chosen r default =
    (without, λ t tagged. rw (resolve_declared_ref, tagged) refl)
  where
    without :
        as_optional_str r.tag ≡ none
        → (name : Text) × (source : BranchSource) × Chosen
            (declared_candidates r default)
            name
            source
          × (resolve_declared_ref r default ≡ resolution name branch_ref source)
    without untagged =
        let (name, source, h) = candidate_of (take 3 (declared_candidates r default)) in
        (
          name,
          source,
          h,
          rw (resolve_declared_ref, untagged)
              (first_named-Chosen (declared_candidates r default) branch_ref h),
        )

-- The branch of a live entry is the first that is named in its chain, which always has one.
pub resolve_entry_ref-Chosen :
    (entry : WorkingRepo) (observed : Option Text)
    → (name : Text) × (source : BranchSource) × Chosen (entry_candidates entry observed) name source
      × (resolve_entry_ref entry observed ≡ resolution name branch_ref source)
unfolding resolve_entry_ref
resolve_entry_ref-Chosen entry observed =
    let (name, source, h) = candidate_of (take 4 (entry_candidates entry observed)) in
    (name, source, h, first_named-Chosen (entry_candidates entry observed) branch_ref h)
