-- ===== src/Tree/Cycles/Anchor.antt =====
-- `_select_scc_anchor` of tree/git_tree.py. SHA-256 is a parameter.
use complex_git_sync.Prelude.{
  ℕ, ◌+◌, Bool, not, List, [], ◌∷◌, map, if◌then◌else◌, ltb, ◌==◌, length, head_or, Text, Bytes,
  text_lt, filter, count_if,
}
use complex_git_sync.Merkle.Hex.{hex}
use complex_git_sync.Merkle.Json.{utf8}
use complex_git_sync.Repo.{WorkingRepo, FilePath}
use complex_git_sync.Tree.Branches.{path_eq}
use complex_git_sync.Tree.Cycles.{PathGraph, path_text, has_path, min}

-- entry.repo_id.count(":")
unfoldable pub colons : WorkingRepo → ℕ
colons entry = count_if (λ c. c == b':') entry.repo_id

abbrev pub colons_lt : WorkingRepo → WorkingRepo → Bool
colons_lt a b = ltb (colons a) (colons b)

abbrev pub stands_at : FilePath → WorkingRepo → Bool
stands_at path entry = path_eq entry.absolute_path path

-- path_to_entries.get(path, [])
unfoldable pub entries_at : List WorkingRepo → FilePath → List WorkingRepo
unfolding filter path_eq
entries_at repos path = filter (stands_at path) repos

-- The keys of path_to_entries, each where it comes first
unfoldable pub paths : List WorkingRepo → List FilePath
unfolding filter path_eq
paths [] = []
paths (entry ∷ entries) =
    entry.absolute_path ∷ filter (λ p. not (path_eq p entry.absolute_path)) (paths entries)

-- The edges from nodes outside of a component to one of its nodes
unfoldable pub external_in : PathGraph → List FilePath → FilePath → ℕ
unfolding has_path path_eq
external_in [] scc path = 0
external_in ((source, targets) ∷ graph) scc path =
    (if has_path source scc then 0 else count_if (λ p. path_eq p path) targets)
    + external_in graph scc path

abbrev pub maximum : List ℕ → ℕ
maximum [] = 0
maximum (n ∷ ns) = let m = maximum ns in if ltb m n then n else m

unfoldable pub minimum : ℕ → List ℕ → ℕ
minimum default [] = default
minimum default (n ∷ []) = n
minimum default (n ∷ m ∷ ns) = min n (minimum default (m ∷ ns))

-- _min_depth
unfoldable pub min_depth : List WorkingRepo → FilePath → ℕ
unfolding minimum entries_at colons
min_depth repos path = minimum 9999 (map colons (entries_at repos path))

abbrev pub several {ℓ} : {A : Type ℓ} → List A → Bool
several xs = ltb 1 (length xs)

module _ (sha256 : Bytes → Bytes) where
  -- hashlib.sha256(str(p).encode()).hexdigest()
  unfoldable pub path_digest : FilePath → Text
  unfolding hex utf8 path_text
  path_digest path = hex (sha256 (utf8 (path_text path)))

  -- min(candidates, key=...): the first of the least
  unfoldable pub least_digest : FilePath → List FilePath → FilePath
  unfolding path_digest text_lt
  least_digest best [] = best
  least_digest best (p ∷ ps) =
      least_digest (if text_lt (path_digest p) (path_digest best) then p else best) ps

  -- _select_scc_anchor, of a component with a first node; the candidates are never none.
  unfoldable pub select_scc_anchor :
      FilePath → List FilePath → PathGraph → List WorkingRepo → FilePath
  unfolding external_in min_depth minimum filter least_digest
  select_scc_anchor first rest graph repos =
      let scc = first ∷ rest in
      let most = maximum (map (external_in graph scc) scc) in
      let referenced = filter (λ p. external_in graph scc p == most) scc in
      let least = minimum 9999 (map (min_depth repos) referenced) in
      let closest =
        if several referenced
        then filter (λ p. min_depth repos p == least) referenced
        else referenced in
      if several closest
      then least_digest (head_or first closest) closest
      else head_or first closest
