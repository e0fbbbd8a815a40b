-- ===== src/Tree/Cycles.antt =====
-- The cycles of tree/git_tree.py: the graph of the absolute paths, its strongly connected
-- components, and the anchor of one. A dictionary is a list of its items; a set of paths is the list
-- of its members in the order in which they were added, which no result depends on.
pub mod Paths
pub mod Run
pub mod Pop
pub mod Connect
pub mod Partition
pub mod Anchor
pub mod Compatible
pub mod Fix
pub mod Rules
pub mod Keep
pub mod Removal
pub mod Duplicates
pub mod Fixed
use complex_git_sync.Prelude.{
  ℕ, zero, suc, Bool, true, false, Option, none, some, List, [], ◌∷◌, ◌++◌, if◌then◌else◌, ltb,
  ◌==◌, length, any, Text, codes, text_lt, sorted,
}
use complex_git_sync.Repo.{WorkingRepo, FilePath}
use complex_git_sync.Tree.{as_posix}
use complex_git_sync.Tree.Branches.{parent_of, path_eq}

abbrev pub rooted_text : Text → FilePath → Text
rooted_text root [] = root
rooted_text root (p ∷ ps) = root ++ as_posix (p ∷ ps)

-- str(path): of the parts, only the root of an absolute path starts with a slash.
unfoldable pub path_text : FilePath → Text
unfolding as_posix
path_text [] = codes "."
path_text ([] ∷ ps) = as_posix ([] ∷ ps)
path_text ((c ∷ cs) ∷ ps) = if c == b'/' then rooted_text (c ∷ cs) ps else as_posix ((c ∷ cs) ∷ ps)

-- The dictionaries by path
unfoldable pub path_get {ℓ} : {A : Type ℓ} → List (FilePath × A) → FilePath → Option A
unfolding path_eq
path_get [] key = none
path_get ((k, v) ∷ items) key = if path_eq k key then some v else path_get items key

unfoldable pub path_put {ℓ} :
    {A : Type ℓ} → List (FilePath × A) → FilePath → A → List (FilePath × A)
unfolding path_eq
path_put [] key value = (key, value) ∷ []
path_put ((k, v) ∷ items) key value =
    if path_eq k key then (key, value) ∷ items else (k, v) ∷ path_put items key value

-- path in paths
unfoldable pub has_path : FilePath → List FilePath → Bool
unfolding path_eq
has_path path paths = any (λ p. path_eq p path) paths

abbrev pub PathGraph : Type 0
PathGraph = List (FilePath × List FilePath)

-- graph.get(node, set())
unfoldable pub successors : PathGraph → FilePath → List FilePath
unfolding path_get
successors graph node = elim (path_get graph node) [ none ↦ [] | some targets ↦ targets ]

-- graph.setdefault(node, set())
unfoldable pub set_default : PathGraph → FilePath → PathGraph
unfolding path_get path_put
set_default graph node = elim (path_get graph node) [
  | none ↦ path_put graph node []
  | some targets ↦ graph
]

abbrev pub add_to_set : List FilePath → FilePath → List FilePath
add_to_set paths path = if has_path path paths then paths else paths ++ path ∷ []

-- One round of the loop of _build_path_graph
unfoldable pub link : List WorkingRepo → PathGraph → WorkingRepo → PathGraph
unfolding set_default parent_of has_path successors path_put
link repos graph entry =
    let noted = set_default graph entry.absolute_path in
    elim (parent_of repos entry.parent_id) [
      | none ↦ noted
      | some parent ↦
          let both = set_default noted parent.absolute_path in
          path_put both parent.absolute_path
            (add_to_set (successors both parent.absolute_path) entry.absolute_path)
    ]

unfoldable pub link_all : List WorkingRepo → PathGraph → List WorkingRepo → PathGraph
unfolding link
link_all repos graph [] = graph
link_all repos graph (entry ∷ entries) = link_all repos (link repos graph entry) entries

-- _build_path_graph
unfoldable pub build_path_graph : List WorkingRepo → PathGraph
unfolding link_all
build_path_graph repos = link_all repos [] repos

-- What the nested function of find_strongly_connected_components changes; the head of the stack is
-- its top.
pub record Search : Type 0 where
  pub counter : ℕ
  pub stack : List FilePath
  pub lowlink : List (FilePath × ℕ)
  pub index : List (FilePath × ℕ)
  pub on_stack : List (FilePath × Bool)
  pub sccs : List (List FilePath)

abbrev pub is_some {ℓ} : {A : Type ℓ} → Option A → Bool
is_some none = false
is_some (some a) = true

abbrev pub is_on_stack : Search → FilePath → Bool
is_on_stack s node = elim (path_get s.on_stack node) [ none ↦ false | some b ↦ b ]

unfoldable pub enter : FilePath → Search → Search
unfolding path_put
enter node s = record s {
  index = path_put s.index node s.counter;
  lowlink = path_put s.lowlink node s.counter;
  counter = suc s.counter;
  stack = node ∷ s.stack;
  on_stack = path_put s.on_stack node true;
}

abbrev pub min : ℕ → ℕ → ℕ
min a b = if ltb b a then b else a

-- lowlink[node] = min(lowlink[node], bound); `none` is the `KeyError`
unfoldable pub lower : FilePath → Option ℕ → Search → Option Search
unfolding path_get path_put
lower node none s = none
lower node (some bound) s = elim (path_get s.lowlink node) [
  | none ↦ none
  | some low ↦ some record s { lowlink = path_put s.lowlink node (min low bound) }
]

-- The loop that pops one component; `none` is the `IndexError` of an empty stack.
unfoldable pub pop_until :
    FilePath
    → List FilePath
    → List (FilePath × Bool)
    → Option (List FilePath × List FilePath × List (FilePath × Bool))
unfolding path_eq path_put
pop_until node [] flags = none
pop_until node (w ∷ stack) flags =
    let off = path_put flags w false in
    let rest = pop_until node stack off in
    if path_eq w node
    then some (w ∷ [], stack, off)
    else elim rest [ none ↦ none | some (scc, below, left) ↦ some (w ∷ scc, below, left) ]

-- The end of _strong_connect
unfoldable pub close : FilePath → Search → Option Search
unfolding path_get pop_until
close node s = elim (path_get s.lowlink node) [
  | none ↦ none
  | some low ↦ elim (path_get s.index node) [
    | none ↦ none
    | some first ↦ elim (low == first) [
      | false ↦ some s
      | true ↦ elim (pop_until node s.stack s.on_stack) [
        | none ↦ none
        | some (scc, stack, flags) ↦
            some record s { stack = stack; on_stack = flags; sccs = s.sccs ++ scc ∷ [] }
      ]
    ]
  ]
]

-- The loop over the successors, with the recursive call as an argument
unfoldable pub descend :
    (FilePath → Search → Option Search) → FilePath → List FilePath → Search → Option Search
unfolding path_get lower
descend connect node [] s = some s
descend connect node (successor ∷ rest) s = elim (path_get s.index successor) [
  | none ↦ elim (connect successor s) [
    | none ↦ none
    | some t ↦ elim (lower node (path_get t.lowlink successor) t) [
      | none ↦ none
      | some u ↦ descend connect node rest u
    ]
  ]
  | some first ↦ elim (is_on_stack s successor) [
    | false ↦ descend connect node rest s
    | true ↦ elim (lower node (some first) s) [ none ↦ none | some u ↦ descend connect node rest u ]
  ]
]

abbrev pub path_lt : FilePath → FilePath → Bool
path_lt p q = text_lt (path_text p) (path_text q)

-- _strong_connect, with as many nested calls as the fuel allows
unfoldable pub strong_connect : ℕ → PathGraph → FilePath → Search → Option Search
unfolding enter successors descend close path_text
strong_connect zero graph node s = none
strong_connect (suc fuel) graph node s =
    elim (descend (strong_connect fuel graph) node (sorted path_lt (successors graph node))
      (enter node s)) [ none ↦ none | some t ↦ close node t ]

-- The loop over the nodes
unfoldable pub connect_all : ℕ → PathGraph → List FilePath → Search → Option Search
unfolding strong_connect path_get
connect_all fuel graph [] s = some s
connect_all fuel graph (node ∷ nodes) s = elim (path_get s.index node) [
  | some first ↦ connect_all fuel graph nodes s
  | none ↦ elim (strong_connect fuel graph node s) [
    | none ↦ none
    | some t ↦ connect_all fuel graph nodes t
  ]
]

abbrev pub keys {ℓ} : {A : Type ℓ} → List (FilePath × A) → List FilePath
keys [] = []
keys ((k, v) ∷ items) = k ∷ keys items

-- The nodes of a graph and the targets of its edges
abbrev pub all_nodes : PathGraph → List FilePath
all_nodes [] = []
all_nodes ((node, targets) ∷ graph) = node ∷ targets ++ all_nodes graph

abbrev pub unvisited : Search
unvisited = record { counter = 0; stack = []; lowlink = []; index = []; on_stack = []; sccs = [] }

-- find_strongly_connected_components
unfoldable pub find_strongly_connected_components : PathGraph → Option (List (List FilePath))
unfolding connect_all path_text
find_strongly_connected_components graph =
    elim (connect_all (length (all_nodes graph)) graph (sorted path_lt (keys graph)) unvisited) [
      | none ↦ none
      | some s ↦ some s.sccs
    ]
