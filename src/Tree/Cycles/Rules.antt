-- ===== src/Tree/Cycles/Rules.antt =====
-- The loops of `fix_circularities` of tree/git_tree.py keep what each of their steps keeps.
use complex_git_sync.Prelude.{
  ◌≡◌, Bool, ◌||◌, arith, inl, inr, true, List, [], ◌∷◌, Bool-cases, All, Bytes,
}
use complex_git_sync.Repo.{WorkingRepo, FilePath}
use complex_git_sync.Tree.Cycles.{PathGraph}
use complex_git_sync.Tree.Cycles.Compatible.{is_compatible_duplicate}
use complex_git_sync.Tree.Cycles.Fix.{
  Repairs, flag, drop_duplicate, is_back_edge, flag_from, break_at, drop_from, merge_at, merge_all,
  break_all,
}

pub either_true : {b : Bool} (a : Bool) → b ≡ true → (a || b) ≡ true
either_true a h = ground arith

pub every_unit : (xs : List WorkingRepo) → All (λ e. Unit {0}) xs
every_unit [] = tt
every_unit (x ∷ xs) = (tt, every_unit xs)

module _ {κ} (P : Repairs → Type κ) where
  pub flag_from_rule :
      (repos : List WorkingRepo) (anchor : FilePath) (c : WorkingRepo) (others : List FilePath)
      (Q : WorkingRepo → Type 0)
      → ((e : WorkingRepo) (s : Repairs)
          → Q e
          → is_back_edge repos anchor c.repo_id others e ≡ true
          → P s
          → P (flag c e s))
      → (entries : List WorkingRepo) (s : Repairs) → All Q entries
      → P s
      → P (flag_from repos anchor c others entries s)
  unfolding flag_from
  flag_from_rule repos anchor c others Q step [] s all p = p
  flag_from_rule repos anchor c others Q step (e ∷ entries) s all p =
      elim (Bool-cases (is_back_edge repos anchor c.repo_id others e)) [
        | inl back ↦
            rw (flag_from, back)
              (flag_from_rule repos anchor c others Q step entries _ all.1 (step e s all.0 back p))
        | inr other ↦
            rw (flag_from, other) (flag_from_rule repos anchor c others Q step entries s all.1 p)
      ]

  pub drop_from_rule :
      (c : WorkingRepo) (Q : WorkingRepo → Type 0)
      → ((e : WorkingRepo) (s : Repairs)
          → Q e
          → is_compatible_duplicate c e ≡ true
          → P s
          → P (drop_duplicate c e s))
      → (entries : List WorkingRepo) (s : Repairs) → All Q entries
      → P s
      → P (drop_from c entries s)
  unfolding drop_from
  drop_from_rule c Q step [] s all p = p
  drop_from_rule c Q step (e ∷ entries) s all p = elim (Bool-cases (is_compatible_duplicate c e)) [
    | inl same ↦
        rw (drop_from, same) (drop_from_rule c Q step entries _ all.1 (step e s all.0 same p))
    | inr other ↦ rw (drop_from, other) (drop_from_rule c Q step entries s all.1 p)
  ]

  pub merge_all_rule :
      (repos : List WorkingRepo)
      → ((s : Repairs) (path : FilePath) → P s → P (merge_at repos s path))
      → (rest : List FilePath) (s : Repairs) → P s
      → P (merge_all repos rest s)
  unfolding merge_all
  merge_all_rule repos step [] s p = p
  merge_all_rule repos step (path ∷ rest) s p =
      merge_all_rule repos step rest (merge_at repos s path) (step s path p)

  pub break_all_rule :
      (repos : List WorkingRepo)
      → ((anchor : FilePath) (scc : List FilePath) (s : Repairs)
          → P s
          → P (break_at repos anchor scc s))
      → (sha256 : Bytes → Bytes) (graph : PathGraph) (sccs : List (List FilePath)) (s : Repairs)
      → P s
      → P (break_all sha256 repos graph sccs s)
  unfolding break_all
  break_all_rule repos step sha256 graph [] s p = p
  break_all_rule repos step sha256 graph ([] ∷ sccs) s p =
      break_all_rule repos step sha256 graph sccs s p
  break_all_rule repos step sha256 graph ((a ∷ []) ∷ sccs) s p =
      break_all_rule repos step sha256 graph sccs s p
  break_all_rule repos step sha256 graph ((a ∷ b ∷ rest) ∷ sccs) s p =
      break_all_rule repos step sha256 graph sccs _ (step _ (a ∷ b ∷ rest) s p)
