-- ===== src/Memory/Ledger.antt =====
-- The methods of `LedgerStore` (tree/memory/ledger_store.py): atomic writes of entries, reads in
-- order, and the HEAD cache. Permission bits and `fsync` have no effect that a method reads.
pub mod Write
pub mod Head
pub mod Stored
use complex_git_sync.Prelude.{
  ℕ, ◌+◌, Bool, true, false, ◌&&◌, not, Option, none, some, List, [], ◌∷◌, ◌++◌, ltb, ◌==◌,
  if◌then◌else◌, Text, Bytes, codes, text_eq, sorted, Result, ◌>>=◌, ok, err,
}
use complex_git_sync.Merkle.Json.{num, str, obj, Members, end, field, get}
use complex_git_sync.Memory.Entry.{LedgerEntry, text_at}
use complex_git_sync.Memory.Store.{
  Toml, StoreError, seq_collision, corruption, file_exists, malformed, not_text, undecodable,
  invalid, parsed, HeadPointer, Directory, file_at, remove_file, write_file, padded, entry_name,
  head_name, seq_of_name, to_toml_payload, num_of, raw_of, entry_from_payload,
}

-- LedgerStore.ensure_dir
unfoldable pub ensure_dir : Directory → Directory
ensure_dir d = record d { present = true }

-- The entry files, each with the number that its name claims.
unfoldable pub numbered : List (Text × Bytes) → List (ℕ × Bytes)
unfolding seq_of_name
numbered [] = []
numbered ((name, content) ∷ files) =
    let rest = numbered files in
    elim (seq_of_name name) [ none ↦ rest | some n ↦ (n, content) ∷ rest ]

abbrev pub number_lt : ℕ × Bytes → ℕ × Bytes → Bool
number_lt a b = ltb a.0 b.0

unfoldable pub head_payload : HeadPointer → Members
head_payload p =
    field (codes "head")
      (obj (field (codes "seq") (num p.seq) (field (codes "entry_hash") (str p.entry_hash) end)))
      end

unfoldable pub head_from_payload : Members → Option HeadPointer
unfolding raw_of num_of text_at
head_from_payload table = elim (raw_of (get table (codes "head"))) [
  | none ↦ none
  | some head ↦ elim (num_of (get head (codes "seq"))) [
    | none ↦ none
    | some seq ↦ elim (text_at head (codes "entry_hash")) [
      | none ↦ none
      | some h ↦ some (record { seq = seq; entry_hash = h })
    ]
  ]
]

unfoldable pub same_head : Option HeadPointer → Option HeadPointer → Bool
same_head none none = true
same_head (some p) (some q) = p.seq == q.seq && text_eq p.entry_hash q.entry_hash
same_head _ _ = false

abbrev pub pointer_of : LedgerEntry → HeadPointer
pointer_of e = record { seq = e.seq; entry_hash = e.entry_hash }

abbrev pub last_of : List LedgerEntry → Option LedgerEntry
last_of [] = none
last_of (e ∷ []) = some e
last_of (e ∷ e' ∷ entries) = last_of (e' ∷ entries)

module _ {SameTable : Members → Members → Type 0} (toml : Toml SameTable) where
  -- LedgerStore.write_head, over a temporary file of the name that `token` makes
  unfoldable pub write_head : Text → HeadPointer → Directory → Directory
  unfolding ensure_dir
  write_head token pointer d =
      let dir = ensure_dir d in
      let tmp = codes ".tmp-HEAD-" ++ token in
      let content = toml.dumps (head_payload pointer) in
      record dir {
        files = remove_file (write_file (write_file dir.files tmp content) head_name content) tmp;
      }

  -- The link step of `write_entry`: the target must not exist yet, and the temporary file goes.
  unfoldable pub link_entry :
      Text → Text → LedgerEntry → Bytes → Directory → Result StoreError Text × Directory
  unfolding write_head
  link_entry head_token tmp e content dir = elim (file_at dir.files (entry_name e.seq)) [
    | some old ↦ (
      err (seq_collision e.seq),
      record dir { files = remove_file (write_file dir.files tmp content) tmp },
    )
    | none ↦ (
      ok (entry_name e.seq),
      write_head head_token (pointer_of e) (record dir {
        files =
            remove_file (write_file (write_file dir.files tmp content) (entry_name e.seq) content)
              tmp;
      }),
    )
  ]

  -- LedgerStore.write_entry, with the tokens of its temporary file and of HEAD's
  unfoldable pub write_entry :
      Text → Text → LedgerEntry → Directory → Result StoreError Text × Directory
  unfolding link_entry ensure_dir
  write_entry token head_token e d =
      let dir = ensure_dir d in
      let content = toml.dumps (to_toml_payload e) in
      let tmp = codes ".tmp-" ++ padded e.seq (b'-' ∷ token) in
      elim (file_at dir.files tmp) [
        | some old ↦ (err (file_exists tmp), dir)
        | none ↦ link_entry head_token tmp e content dir
      ]

  -- LedgerStore.read_entry, of an open file
  unfoldable pub read_entry : Bytes → Result StoreError LedgerEntry
  read_entry content = elim (toml.loads content) [
    | undecodable ↦ err (not_text content)
    | invalid ↦ err (malformed content)
    | parsed table ↦ elim (entry_from_payload table) [
      | none ↦ err (malformed content)
      | some e ↦ ok e
    ]
  ]

  -- The second loop of `read_all_entries`.
  unfoldable pub read_numbered : List (ℕ × Bytes) → Result StoreError (List LedgerEntry)
  unfolding read_entry
  read_numbered [] = ok []
  read_numbered ((n, content) ∷ rest) =
      let more = read_numbered rest in
      read_entry content >>= λ e.
      if not (e.seq == n) then err (corruption n e.seq) else more >>= λ entries. ok (e ∷ entries)

  -- LedgerStore.read_all_entries
  unfoldable pub read_all_entries : Directory → Result StoreError (List LedgerEntry)
  unfolding numbered read_numbered
  read_all_entries d =
      if not d.present then ok [] else read_numbered (sorted number_lt (numbered d.files))

  -- LedgerStore.read_head: an `UnicodeDecodeError` is not caught.
  unfoldable pub read_head : Directory → Result StoreError (Option HeadPointer)
  unfolding head_from_payload
  read_head d = elim (file_at d.files head_name) [
    | none ↦ ok none
    | some content ↦ elim (toml.loads content) [
      | undecodable ↦ err (not_text content)
      | invalid ↦ ok none
      | parsed table ↦ ok (head_from_payload table)
    ]
  ]

  -- LedgerStore.recompute_head
  unfoldable pub recompute_head : Directory → Result StoreError (Option HeadPointer)
  recompute_head d = read_all_entries d >>= λ entries.
      ok (elim (last_of entries) [ none ↦ none | some e ↦ some (pointer_of e) ])

  -- The repair, of the true head and the cached one
  unfoldable pub repair_head :
      Text → Option HeadPointer → Option HeadPointer → Directory → Directory
  unfolding same_head
  repair_head token none none d = d
  repair_head token none (some cached) d = record d { files = remove_file d.files head_name }
  repair_head token (some true_head) cached d =
      if same_head cached (some true_head) then d else write_head token true_head d

  -- LedgerStore.verify_and_repair_head
  unfoldable pub verify_and_repair_head :
      Text → Directory → Result StoreError (Option HeadPointer) × Directory
  unfolding repair_head
  verify_and_repair_head token d = elim (recompute_head d) [
    | err e ↦ (err e, d)
    | ok true_head ↦ elim (read_head d) [
      | err e ↦ (err e, d)
      | ok cached ↦ (ok true_head, repair_head token true_head cached d)
    ]
  ]

  -- LedgerStore.next_seq
  unfoldable pub next_seq : Directory → Result StoreError ℕ
  next_seq d = read_all_entries d >>= λ entries.
      ok (elim (last_of entries) [ none ↦ 1 | some e ↦ e.seq + 1 ])
