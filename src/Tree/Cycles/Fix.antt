-- ===== src/Tree/Cycles/Fix.antt =====
-- `fix_circularities` of tree/git_tree.py. `none` is a search for components that does not end.
use complex_git_sync.Prelude.{
  Bool, true, false, ◌&&◌, ◌||◌, not, Option, none, some, List, [], ◌∷◌, ◌++◌, if◌then◌else◌,
  is_empty, Text, Bytes, codes, text_eq, sorted, filter,
}
use complex_git_sync.Repo.{WorkingRepo, FilePath}
use complex_git_sync.Tree.{WorkingGitTree, find_repo, recompute_tree_state}
use complex_git_sync.Tree.Branches.{path_eq}
use complex_git_sync.Tree.Cycles.{
  PathGraph, has_path, build_path_graph, find_strongly_connected_components,
}
use complex_git_sync.Tree.Cycles.Compatible.{is_compatible_duplicate}
use complex_git_sync.Tree.Cycles.Anchor.{
  colons, colons_lt, stands_at, entries_at, paths, select_scc_anchor,
}

-- `ids_to_remove` and `changes`, and the ids that were flagged as external references
pub record Repairs : Type 0 where
  pub ids : List Text
  pub changes : List Text
  pub flagged : List Text

-- repo_id in ids
unfoldable pub among : List Text → Text → Bool
unfolding text_eq
among [] id = false
among (i ∷ ids) id = text_eq i id || among ids id

abbrev pub change : WorkingRepo → WorkingRepo → Text
change removed canonical =
    codes "fixed_circularity:" ++ (removed.repo_id ++ (8594 ∷ canonical.repo_id))

-- The tests of one entry in the first phase
unfoldable pub is_back_edge :
    List WorkingRepo → FilePath → Text → List FilePath → WorkingRepo → Bool
unfolding path_eq text_eq find_repo has_path
is_back_edge repos anchor canonical_id others entry =
    stands_at anchor entry && not (text_eq entry.repo_id canonical_id) && elim entry.parent_id [
      | none ↦ false
      | some id ↦ elim (find_repo repos id) [
        | none ↦ false
        | some parent ↦ has_path parent.absolute_path others
      ]
    ]

abbrev pub flag : WorkingRepo → WorkingRepo → Repairs → Repairs
flag canonical entry s = record {
  ids = entry.repo_id ∷ s.ids;
  changes = s.changes ++ change entry canonical ∷ [];
  flagged = entry.repo_id ∷ s.flagged;
}

abbrev pub drop_duplicate : WorkingRepo → WorkingRepo → Repairs → Repairs
drop_duplicate canonical duplicate s = record s {
  ids = duplicate.repo_id ∷ s.ids;
  changes = s.changes ++ change duplicate canonical ∷ [];
}

-- The loop over the entries for one component
unfoldable pub flag_from :
    List WorkingRepo → FilePath → WorkingRepo → List FilePath → List WorkingRepo → Repairs → Repairs
unfolding is_back_edge
flag_from repos anchor canonical others [] s = s
flag_from repos anchor canonical others (entry ∷ entries) s =
    flag_from repos anchor canonical others entries (
      if is_back_edge repos anchor canonical.repo_id others entry
      then flag canonical entry s
      else s)

-- The first phase of one component, given its anchor and the anchor's entries in order
unfoldable pub break_with :
    List WorkingRepo → FilePath → List FilePath → List WorkingRepo → Repairs → Repairs
unfolding flag_from filter path_eq
break_with repos anchor scc [] s = s
break_with repos anchor scc (canonical ∷ more) s =
    flag_from repos anchor canonical (filter (λ p. not (path_eq p anchor)) scc) repos s

unfoldable pub break_at : List WorkingRepo → FilePath → List FilePath → Repairs → Repairs
unfolding sorted colons entries_at break_with
break_at repos anchor scc s =
    break_with repos anchor scc (sorted colons_lt (entries_at repos anchor)) s

-- The loop over the duplicates of one path
unfoldable pub drop_from : WorkingRepo → List WorkingRepo → Repairs → Repairs
unfolding is_compatible_duplicate
drop_from canonical [] s = s
drop_from canonical (duplicate ∷ duplicates) s = drop_from canonical duplicates (
    if is_compatible_duplicate canonical duplicate then drop_duplicate canonical duplicate s else s)

-- The second phase at one path, given the entries that remain, in order: with fewer than two of them
-- there is no duplicate.
unfoldable pub merge_with : List WorkingRepo → Repairs → Repairs
unfolding drop_from
merge_with [] s = s
merge_with (canonical ∷ duplicates) s = drop_from canonical duplicates s

-- The entries of a path that no phase has removed, the nearest to the root first
unfoldable pub remaining : List WorkingRepo → List Text → FilePath → List WorkingRepo
unfolding sorted colons entries_at filter among
remaining repos ids path =
    sorted colons_lt (filter (λ e. not (among ids e.repo_id)) (entries_at repos path))

unfoldable pub merge_at : List WorkingRepo → Repairs → FilePath → Repairs
unfolding remaining merge_with
merge_at repos s path = merge_with (remaining repos s.ids path) s

unfoldable pub merge_all : List WorkingRepo → List FilePath → Repairs → Repairs
unfolding merge_at
merge_all repos [] s = s
merge_all repos (path ∷ rest) s = merge_all repos rest (merge_at repos s path)

-- entry.is_external_reference = True, of the flagged entries
unfoldable pub flag_all : List Text → List WorkingRepo → List WorkingRepo
unfolding among
flag_all ids [] = []
flag_all ids (entry ∷ entries) =
    (if among ids entry.repo_id then record entry { is_external_reference = true } else entry)
    ∷ flag_all ids entries

-- del registry.repos[repo_id], for each of the ids
unfoldable pub remove_all : List Text → List WorkingRepo → List WorkingRepo
unfolding filter among
remove_all ids repos = filter (λ e. not (among ids e.repo_id)) repos

-- The end of fix_circularities
unfoldable pub finish : WorkingGitTree → Repairs → WorkingGitTree
unfolding flag_all remove_all recompute_tree_state
finish tree s =
    let kept = remove_all s.ids (flag_all s.flagged tree.repos) in
    if is_empty s.ids then tree else recompute_tree_state (record tree { repos = kept })

module _ (sha256 : Bytes → Bytes) where
  unfoldable pub break_all : List WorkingRepo → PathGraph → List (List FilePath) → Repairs → Repairs
  unfolding select_scc_anchor break_at
  break_all repos graph [] s = s
  break_all repos graph ([] ∷ sccs) s = break_all repos graph sccs s
  break_all repos graph ((p ∷ []) ∷ sccs) s = break_all repos graph sccs s
  break_all repos graph ((p ∷ q ∷ rest) ∷ sccs) s =
      let anchor = select_scc_anchor sha256 p (q ∷ rest) graph repos in
      break_all repos graph sccs (break_at repos anchor (p ∷ q ∷ rest) s)

  unfoldable pub repairs : List WorkingRepo → List (List FilePath) → Repairs
  unfolding break_all merge_all paths build_path_graph
  repairs repos sccs = merge_all repos (paths repos) (
      break_all repos (build_path_graph repos) sccs
        (record { ids = []; changes = []; flagged = [] }))

  -- fix_circularities
  unfoldable pub fix_circularities : WorkingGitTree → Option (WorkingGitTree × List Text)
  unfolding repairs finish build_path_graph find_strongly_connected_components
  fix_circularities tree = elim (find_strongly_connected_components (build_path_graph tree.repos)) [
    | none ↦ none
    | some sccs ↦ let s = repairs tree.repos sccs in some (finish tree s, s.changes)
  ]
