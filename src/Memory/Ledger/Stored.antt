-- ===== src/Memory/Ledger/Stored.antt =====
-- What `write_entry` stores where it succeeds (tree/memory/ledger_store.py).
use complex_git_sync.Prelude.{
  ◌<◌, ◌≡◌, refl, ◌∙◌, inl, inr, none, some, ◌∷◌, ◌++◌, arith, Text, Bytes, codes, ok,
}
use complex_git_sync.Memory.Entry.{LedgerEntry}
use complex_git_sync.Memory.Store.{
  Toml, Directory, file_at, remove_file, write_file, entry_name, to_toml_payload, padded,
}
use complex_git_sync.Memory.Store.Files.{file_at-renamed}
use complex_git_sync.Memory.Store.Names.{text_eq-entry_name}
use complex_git_sync.Memory.Ledger.{ensure_dir, link_entry, write_entry, read_head, pointer_of}
use complex_git_sync.Memory.Ledger.Write.{entry_tmp, write_head-kept}
use complex_git_sync.Memory.Ledger.Head.{SameMembers, read_head-write_head}

-- The directory after the temporary file was linked to its name.
linked : Text → Text → Bytes → Directory → Directory
linked tmp name content d = record d {
  files = remove_file (write_file (write_file d.files tmp content) name content) tmp;
}

module _ (toml : Toml SameMembers) where
  -- With a number below a million, where neither the entry's file nor its temporary file is there,
  -- `write_entry` answers with the entry's name; the file then holds the entry's table, and HEAD
  -- reads as the entry.
  pub write_entry-read_head :
      (token head_token : Text) (e : LedgerEntry) (d : Directory)
      → e.seq < 1000000
      → file_at d.files (entry_tmp token e) ≡ none
      → file_at d.files (entry_name e.seq) ≡ none
      → ((write_entry toml token head_token e d).0 ≡ ok (entry_name e.seq))
        × (file_at (write_entry toml token head_token e d).1.files (entry_name e.seq)
            ≡ some (toml.dumps (to_toml_payload e)))
        × (read_head toml (write_entry toml token head_token e d).1 ≡ ok (some (pointer_of e)))
  unfolding write_entry link_entry ensure_dir linked
  write_entry-read_head token head_token e d small fresh missing =
      let content : Bytes = toml.dumps (to_toml_payload e) in
      let after : Directory =
        linked (entry_tmp token e) (entry_name e.seq) content (ensure_dir d) in
      rw (write_entry, fresh)
        (rw (link_entry, missing)
          (
            refl,
            write_head-kept toml head_token (pointer_of e) after (entry_name e.seq)
                  (text_eq-entry_name e.seq 72 (codes "EAD") small (inr (omega arith)))
                  (text_eq-entry_name e.seq 46 (codes "tmp-HEAD-" ++ head_token) small
                    (inl (omega arith)))
                ∙ file_at-renamed d.files (entry_tmp token e) (entry_name e.seq) content (
                    text_eq-entry_name e.seq 46 (codes "tmp-" ++ padded e.seq (b'-' ∷ token)) small
                      (inl (omega arith))),
            read_head-write_head toml head_token (pointer_of e) after,
          ))
