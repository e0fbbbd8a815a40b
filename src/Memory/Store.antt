-- ===== src/Memory/Store.antt =====
-- `LedgerStore` of tree/memory/ledger_store.py: one directory of entry files and the HEAD cache.
-- A method takes the directory and gives the directory back beside its result or its exception.
pub mod Files
pub mod Names
use complex_git_sync.Prelude.{
  ℕ, zero, suc, ◌+◌, ◌-◌, ◌*◌, ◌/◌, ◌%◌, ◌≡◌, Bool, true, false, ◌&&◌, ◌||◌, Option, none, some,
  List, [], ◌∷◌, ◌++◌, leb, ◌==◌, if◌then◌else◌, is_empty, Text, Bytes, codes, text_eq, sorted,
}
use complex_git_sync.Merkle.Json.{
  Json, null, num, str, arr, obj, Items, nil, cons, Members, end, field, get,
}
use complex_git_sync.Memory.Entry.{
  Pairs, Relocation, from_dict, text_at, LedgerEntry, strings, dict_of, relocation_items, unless,
  pair_lt,
}

-- What a table of TOML can hold: no null, and no key twice.
unfoldable mutual
  unfolding get

  pub is_storable : Json → Bool
  is_storable null = false
  is_storable (arr xs) = storable_items xs
  is_storable (obj ms) = storable_members ms
  is_storable v = true

  pub storable_items : Items → Bool
  storable_items nil = true
  storable_items (cons v xs) = is_storable v && storable_items xs

  pub storable_members : Members → Bool
  storable_members end = true
  storable_members (field k v ms) =
      elim (get ms k) [ none ↦ true | some w ↦ false ] && is_storable v && storable_members ms

-- What `tomllib.load` gives: a table, or its `UnicodeDecodeError` or `TOMLDecodeError`.
pub data Loaded : Type 0 where
  undecodable invalid : Loaded
  parsed : Members → Loaded

-- The TOML writer (`tomli_w`) and the TOML reader (`tomllib`): a table that TOML can hold and that was
-- written reads back as an equal table. The order of the keys is not promised; `SameTable` is
-- equality of tables.
pub record Toml (SameTable : Members → Members → Type 0) : Type 0 where
  pub dumps : Members → Bytes
  pub loads : Bytes → Loaded
  pub loads_dumps :
      (table : Members)
      → storable_members table ≡ true
      → (t : Members) × (loads (dumps table) ≡ parsed t) × SameTable t table

pub data StoreError : Type 0 where
  seq_collision : (seq : ℕ) → StoreError
  corruption : (filename_seq entry_seq : ℕ) → StoreError
  file_exists : Text → StoreError
  malformed not_text : Text → StoreError

pub record HeadPointer : Type 0 where
  pub seq : ℕ
  pub entry_hash : Text

-- A directory: whether it exists, and its files by name, in the order in which it lists them.
pub record Directory : Type 0 where
  pub present : Bool
  pub files : List (Text × Bytes)

unfoldable pub file_at : List (Text × Bytes) → Text → Option Bytes
file_at [] name = none
file_at ((n, content) ∷ files) name = if text_eq n name then some content else file_at files name

unfoldable pub remove_file : List (Text × Bytes) → Text → List (Text × Bytes)
remove_file [] name = []
remove_file ((n, content) ∷ files) name =
    let rest = remove_file files name in if text_eq n name then rest else (n, content) ∷ rest

unfoldable pub write_file : List (Text × Bytes) → Text → Bytes → List (Text × Bytes)
write_file [] name content = (name, content) ∷ []
write_file ((n, c) ∷ files) name content =
    if text_eq n name then (n, content) ∷ files else (n, c) ∷ write_file files name content

-- At least `width` digits: f"{n:06d}" is `padded 6 n []`. More digits where they are needed.
unfoldable pub padded_fuel : ℕ → ℕ → ℕ → Text → Text
padded_fuel zero width n rest = rest
padded_fuel (suc fuel) width n rest =
    let more = padded_fuel fuel (width - 1) (n / 10) ((48 + n % 10) ∷ rest) in
    if n == 0 && width == 0 then rest else more

unfoldable pub padded : ℕ → Text → Text
unfolding padded_fuel
padded n rest = padded_fuel (n + 6) 6 n rest

-- LedgerStore.entry_path, its name
unfoldable pub entry_name : ℕ → Text
unfolding padded
entry_name seq = padded seq (codes ".toml")

abbrev pub head_name : Text
head_name = codes "HEAD"

unfoldable pub is_toml_end : Text → Bool
unfolding text_eq
is_toml_end text = text_eq text (codes ".toml") || text_eq text (codes ".toml" ++ 10 ∷ [])

-- `(\d{6})\.toml$`: the number, after the digits read so far
unfoldable pub seq_digits : ℕ → ℕ → Text → Option ℕ
unfolding is_toml_end
seq_digits zero n text = if is_toml_end text then some n else none
seq_digits (suc left) n [] = none
seq_digits (suc left) n (c ∷ cs) =
    let rest = seq_digits left (n * 10 + (c - 48)) cs in if leb 48 c && leb c 57 then rest else none

-- _ENTRY_FILENAME_RE.match(name)
unfoldable pub seq_of_name : Text → Option ℕ
unfolding seq_digits
seq_of_name name = seq_digits 6 0 name

-- LedgerStore._entry_to_toml_payload
unfoldable pub to_toml_payload : LedgerEntry → Members
unfolding strings dict_of relocation_items
to_toml_payload e =
    field (codes "entry")
      (obj (
        field (codes "seq") (num e.seq) (
          field (codes "prev") (str e.prev) (
            field (codes "recorded_at") (str e.recorded_at) (
              field (codes "command") (str e.command) (
                field (codes "argv") (arr (strings e.argv)) (
                  field (codes "state_id") (str e.state_id) (
                    field (codes "state_dir") (str e.state_dir) (
                      field (codes "outcome") (str e.outcome) (
                        field (codes "toolchain") (obj (dict_of e.toolchain)) (
                          field (codes "commit_log") (str e.commit_log) (
                            field (codes "entry_hash") (str e.entry_hash) (
                              unless (is_empty e.environment) (codes "environment")
                                (str e.environment)
                                (unless (is_empty e.release) (codes "release")
                                  (obj (dict_of e.release))
                                  (unless (is_empty e.relocations) (codes "relocations")
                                    (arr (relocation_items e.relocations)) end)))))))))))))))
      end

-- Values of the types that the dataclass declares; `none` is a `KeyError` or a value of another type.
unfoldable pub num_of : Option Json → Option ℕ
num_of (some (num n)) = some n
num_of _ = none

unfoldable pub texts_of : Items → Option (List Text)
texts_of nil = some []
texts_of (cons (str s) xs) = elim (texts_of xs) [ none ↦ none | some ss ↦ some (s ∷ ss) ]
texts_of (cons v xs) = none

unfoldable pub pairs_of : Members → Option Pairs
pairs_of end = some []
pairs_of (field k (str s) ms) = elim (pairs_of ms) [ none ↦ none | some ps ↦ some ((k, s) ∷ ps) ]
pairs_of (field k v ms) = none

unfoldable pub moves_of : Items → Option (List Relocation)
unfolding from_dict
moves_of nil = some []
moves_of (cons (obj m) xs) = elim (from_dict m) [
  | none ↦ none
  | some r ↦ elim (moves_of xs) [ none ↦ none | some rs ↦ some (r ∷ rs) ]
]
moves_of (cons v xs) = none

-- raw.get(key, "")
unfoldable pub text_or_empty : Option Json → Option Text
text_or_empty none = some []
text_or_empty (some (str s)) = some s
text_or_empty (some v) = none

-- tuple(sorted(raw.get(key, {}).items()))
unfoldable pub pairs_or_empty : Option Json → Option Pairs
unfolding pairs_of
pairs_or_empty none = some []
pairs_or_empty (some (obj ms)) = elim (pairs_of ms) [
  | none ↦ none
  | some ps ↦ some (sorted pair_lt ps)
]
pairs_or_empty (some v) = none

unfoldable pub argv_of : Option Json → Option (List Text)
unfolding texts_of
argv_of (some (arr xs)) = texts_of xs
argv_of _ = none

unfoldable pub moves_or_empty : Option Json → Option (List Relocation)
unfolding moves_of
moves_or_empty none = some []
moves_or_empty (some (arr xs)) = moves_of xs
moves_or_empty (some v) = none

infixl 5 ◌>>?◌
abbrev pub ◌>>?◌ : {A B : Type 0} → Option A → (A → Option B) → Option B
none >>? f = none
some a >>? f = f a

-- LedgerStore._entry_from_toml_payload, from `raw`
unfoldable pub entry_from_raw : Members → Option LedgerEntry
unfolding text_at num_of argv_of text_or_empty pairs_or_empty moves_or_empty
entry_from_raw raw = num_of (get raw (codes "seq")) >>? λ seq.
    text_at raw (codes "prev") >>? λ prev. text_at raw (codes "recorded_at") >>? λ recorded_at.
    text_at raw (codes "command") >>? λ command. argv_of (get raw (codes "argv")) >>? λ argv.
    text_at raw (codes "state_id") >>? λ state_id. text_at raw (codes "state_dir") >>? λ state_dir.
    text_at raw (codes "outcome") >>? λ outcome.
    pairs_or_empty (get raw (codes "toolchain")) >>? λ toolchain.
    text_or_empty (get raw (codes "commit_log")) >>? λ commit_log.
    text_at raw (codes "entry_hash") >>? λ entry_hash.
    text_or_empty (get raw (codes "environment")) >>? λ environment.
    pairs_or_empty (get raw (codes "release")) >>? λ release.
    moves_or_empty (get raw (codes "relocations")) >>? λ relocations. some (record {
      fields = record {
        seq = seq;
        prev = prev;
        recorded_at = recorded_at;
        command = command;
        argv = argv;
        state_id = state_id;
        state_dir = state_dir;
        outcome = outcome;
        toolchain = toolchain;
        commit_log = commit_log;
        environment = environment;
        release = release;
        relocations = relocations;
      };
      entry_hash = entry_hash;
    })

unfoldable pub raw_of : Option Json → Option Members
raw_of (some (obj ms)) = some ms
raw_of _ = none

unfoldable pub entry_from_payload : Members → Option LedgerEntry
unfolding entry_from_raw raw_of
entry_from_payload table = raw_of (get table (codes "entry")) >>? entry_from_raw
