-- ===== src/Memory/Entry.antt =====
-- tree/memory/ledger_entry.py: one entry of the ledger, its canonical payload and its hash.
pub mod Binding
pub mod Payload
pub mod Hash
use complex_git_sync.Prelude.{
  ℕ, ◌+◌, ◌*◌, Bool, ◌&&◌, ◌||◌, Option, none, some, List, [], ◌∷◌, if◌then◌else◌, is_empty, Text,
  Bytes, codes, text_eq, text_lt, sorted,
}
use complex_git_sync.Merkle.Json.{
  Json, num, str, arr, obj, Items, nil, cons, Members, end, field, get, put,
}
use complex_git_sync.Merkle.Root.{digest, prefixed, genesis_prev}
use complex_git_sync.Memory.Moment.{Moment, iso_utc}

abbrev pub Pairs : Type 0
Pairs = List (Text × Text)

pub record Relocation : Type 0 where
  pub asset : Text
  pub origin : Text
  pub to : Text
  pub ancestor : Text

-- Relocation.as_dict
unfoldable pub as_dict : Relocation → Members
as_dict r = field (codes "asset") (str r.asset) (
    field (codes "from") (str r.origin)
      (field (codes "to") (str r.to) (field (codes "ancestor") (str r.ancestor) end)))

-- raw[key], where the value is a string; `none` is the `KeyError`.
unfoldable pub text_at : Members → Text → Option Text
text_at raw key = elim (get raw key) [ some (str s) ↦ some s | _ ↦ none ]

-- Relocation.from_dict
unfoldable pub from_dict : Members → Option Relocation
unfolding text_at
from_dict raw = elim (text_at raw (codes "asset")) [
  | none ↦ none
  | some asset ↦ elim (text_at raw (codes "from")) [
    | none ↦ none
    | some origin ↦ elim (text_at raw (codes "to")) [
      | none ↦ none
      | some to ↦ elim (text_at raw (codes "ancestor")) [
        | none ↦ none
        | some ancestor ↦
            some (record { asset = asset; origin = origin; to = to; ancestor = ancestor })
      ]
    ]
  ]
]

-- Every field of an entry but its hash.
pub record Fields : Type 0 where
  pub seq : ℕ
  pub prev : Text
  pub recorded_at : Text
  pub command : Text
  pub argv : List Text
  pub state_id : Text
  pub state_dir : Text
  pub outcome : Text
  pub toolchain : Pairs
  pub commit_log : Text
  pub environment : Text
  pub release : Pairs
  pub relocations : List Relocation

pub record LedgerEntry : Type 0 where
  pub fields : Fields
  pub open fields use *
  pub entry_hash : Text

-- [str, …] as a JSON array
unfoldable pub strings : List Text → Items
strings [] = nil
strings (s ∷ ss) = cons (str s) (strings ss)

-- {name: value for name, value in pairs}, added to `ms`
unfoldable pub dict_from : Members → Pairs → Members
dict_from ms [] = ms
dict_from ms ((name, value) ∷ pairs) = dict_from (put ms name (str value)) pairs

unfoldable pub dict_of : Pairs → Members
unfolding dict_from
dict_of pairs = dict_from end pairs

unfoldable pub relocation_items : List Relocation → Items
unfolding as_dict
relocation_items [] = nil
relocation_items (r ∷ rs) = cons (obj (as_dict r)) (relocation_items rs)

-- A field that is absent when it is empty.
abbrev pub unless : Bool → Text → Json → Members → Members
unless empty key value rest = if empty then rest else field key value rest

-- LedgerEntry._canonical_payload
unfoldable pub canonical_payload : Fields → Members
unfolding strings dict_of relocation_items
canonical_payload f = field (codes "seq") (num f.seq) (
    field (codes "prev") (str f.prev) (
      field (codes "recorded_at") (str f.recorded_at) (
        field (codes "command") (str f.command) (
          field (codes "argv") (arr (strings f.argv)) (
            field (codes "state_id") (str f.state_id) (
              field (codes "state_dir") (str f.state_dir) (
                field (codes "outcome") (str f.outcome) (
                  unless (is_empty f.toolchain) (codes "toolchain") (obj (dict_of f.toolchain)) (
                    unless (is_empty f.commit_log) (codes "commit_log") (str f.commit_log) (
                      unless (is_empty f.environment) (codes "environment") (str f.environment) (
                        unless (is_empty f.release) (codes "release") (obj (dict_of f.release)) (
                          unless (is_empty f.relocations) (codes "relocations")
                            (arr (relocation_items f.relocations)) end))))))))))))

-- Tuples of two strings, compared as Python compares tuples.
unfoldable pub pair_lt : Text × Text → Text × Text → Bool
pair_lt a b = text_lt a.0 b.0 || (text_eq a.0 b.0 && text_lt a.1 b.1)

-- What the caller of `build_next` gives.
pub record Operation : Type 0 where
  pub command : Text
  pub argv : List Text
  pub state_id : Text
  pub state_dir : Text
  pub outcome : Text
  pub toolchain : Pairs
  pub commit_log : Text
  pub environment : Text
  pub release : Pairs
  pub relocations : List Relocation

abbrev pub next_seq_after : Option LedgerEntry → ℕ
next_seq_after none = 1
next_seq_after (some prev) = prev.seq + 1

abbrev pub hash_after : Option LedgerEntry → Text
hash_after none = genesis_prev
hash_after (some prev) = prev.entry_hash

module _ (sha256 : Bytes → Bytes) where
  -- LedgerEntry.compute_hash
  unfoldable pub compute_hash : Fields → Text
  compute_hash f = prefixed (digest sha256 (obj (canonical_payload f)))

  -- LedgerEntry.build_next
  unfoldable pub build_next : Option LedgerEntry → Operation → Moment → LedgerEntry
  build_next prev op now =
      let fields : Fields = record {
        seq = next_seq_after prev;
        prev = hash_after prev;
        recorded_at = iso_utc now;
        command = op.command;
        argv = op.argv;
        state_id = op.state_id;
        state_dir = op.state_dir;
        outcome = op.outcome;
        toolchain = sorted pair_lt op.toolchain;
        commit_log = op.commit_log;
        environment = op.environment;
        release = sorted pair_lt op.release;
        relocations = op.relocations;
      } in
      record { fields = fields; entry_hash = compute_hash fields }
