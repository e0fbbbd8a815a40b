-- ===== src/Memory/Ledger/Write.antt =====
-- What `write_entry` leaves in the directory, on each of its branches (tree/memory/ledger_store.py).
use complex_git_sync.Prelude.{
  ◌≡◌, ◌∙◌, inl, inr, false, some, ◌∷◌, ◌++◌, Option-cases, Text, Bytes, codes, text_eq,
}
use complex_git_sync.Merkle.Json.{Members}
use complex_git_sync.Memory.Entry.{LedgerEntry}
use complex_git_sync.Memory.Store.{
  Toml, HeadPointer, Directory, file_at, padded, entry_name, head_name, remove_file, write_file,
  to_toml_payload,
}
use complex_git_sync.Memory.Store.Files.{file_at-temporary, file_at-renamed_other, file_at-differ}
use complex_git_sync.Memory.Ledger.{ensure_dir, write_head, link_entry, write_entry, pointer_of}

abbrev pub head_tmp : Text → Text
head_tmp token = codes ".tmp-HEAD-" ++ token

abbrev pub entry_tmp : Text → LedgerEntry → Text
entry_tmp token e = codes ".tmp-" ++ padded e.seq (b'-' ∷ token)

module _ {SameTable : Members → Members → Type 0} (toml : Toml SameTable) where
  pub write_head-kept :
      (token : Text) (pointer : HeadPointer) (d : Directory) (name : Text)
      → text_eq head_name name ≡ false
      → text_eq (head_tmp token) name ≡ false
      → file_at (write_head toml token pointer d).files name ≡ file_at d.files name
  unfolding write_head ensure_dir
  write_head-kept token pointer d name h k =
      file_at-renamed_other d.files (head_tmp token) head_name name _ k h

  link_entry-kept :
      (head_token tmp : Text) (e : LedgerEntry) (content : Bytes) (d : Directory) (name : Text)
      (old : Bytes)
      → file_at d.files name ≡ some old
      → text_eq tmp name ≡ false
      → text_eq head_name name ≡ false
      → text_eq (head_tmp head_token) name ≡ false
      → file_at (link_entry toml head_token tmp e content d).1.files name ≡ some old
  unfolding link_entry
  link_entry-kept head_token tmp e content d name old found t h k =
      elim (Option-cases (file_at d.files (entry_name e.seq))) [
        | inl missing ↦
            rw (link_entry, missing)
              (write_head-kept head_token (pointer_of e)
                  (record d {
                    files =
                        remove_file
                          (write_file (write_file d.files tmp content) (entry_name e.seq) content)
                          tmp;
                  })
                  name h k
                ∙ file_at-renamed_other d.files tmp (entry_name e.seq) name content t
                    (file_at-differ d.files (entry_name e.seq) name old missing found)
                ∙ found)
        | inr (taken, there) ↦
            rw (link_entry, there) (file_at-temporary d.files tmp name content t ∙ found)
      ]

  -- The ledger's files are never overwritten: whatever `write_entry` answers, a file that was there
  -- is still there with its bytes, unless it is HEAD or has the name of HEAD's temporary file.
  pub write_entry-kept :
      (token head_token : Text) (e : LedgerEntry) (d : Directory) (name : Text) (old : Bytes)
      → file_at d.files name ≡ some old
      → text_eq head_name name ≡ false
      → text_eq (head_tmp head_token) name ≡ false
      → file_at (write_entry toml token head_token e d).1.files name ≡ some old
  unfolding write_entry ensure_dir
  write_entry-kept token head_token e d name old found h k =
      elim (Option-cases (file_at d.files (entry_tmp token e))) [
        | inl missing ↦
            rw (write_entry, ensure_dir, missing)
              (link_entry-kept head_token (entry_tmp token e) e (toml.dumps (to_toml_payload e))
                (ensure_dir d) name old found
                (file_at-differ d.files (entry_tmp token e) name old missing found) h k)
        | inr (taken, there) ↦ rw (write_entry, ensure_dir, there) found
      ]
