-- ===== src/Tests/Stores.antt =====
-- The theorems on the ledger's files and the scrubbed argv, at small inputs.
use complex_git_sync.Prelude.{
  ◌≡◌, refl, true, false, none, some, List, [], ◌∷◌, ◌++◌, arith, Text, codes, text_eq, sorted, ok,
}
use complex_git_sync.Merkle.Json.{end, obj, get, canonical_json}
use complex_git_sync.Memory.Ledger.Head.{verify_and_repair_head-read_head}
use complex_git_sync.Tests.Codec.{plain_toml, read_table, write_table}
use complex_git_sync.Memory.Entry.{LedgerEntry}
use complex_git_sync.Memory.Store.{
  Toml, parsed, Directory, file_at, entry_name, head_name, seq_of_name, to_toml_payload,
  entry_from_payload,
}
use complex_git_sync.Memory.Store.Names.{seq_of_name-entry_name, seq_of_name-entry_name-none}
use complex_git_sync.Memory.Ledger.{
  write_entry, read_head, recompute_head, verify_and_repair_head, read_all_entries, read_entry,
  pointer_of,
}
use complex_git_sync.Memory.Ledger.Write.{head_tmp, write_entry-kept, entry_tmp}
use complex_git_sync.Memory.Ledger.Stored.{write_entry-read_head}
use complex_git_sync.Memory.Scrub.{is_letter, is_scheme_char, is_userinfo_char, scrub, scrub_path}
use complex_git_sync.Memory.Scrub.Flags.{a_token, a_password, alone, flags_alone, listed}
use complex_git_sync.Memory.Scrub.Urls.{Url}
use complex_git_sync.Memory.Scrub.Secrets.{
  Alike, done, next_value, joined_value, userinfo, same, scrub-Alike,
}

seq_of_name-entry_name_example : seq_of_name (entry_name 123456) ≡ some 123456
seq_of_name-entry_name_example = seq_of_name-entry_name 123456 (omega arith)

seq_of_name-entry_name-none_example : seq_of_name (entry_name 1234567) ≡ none
seq_of_name-entry_name-none_example =
    seq_of_name-entry_name-none 1234567 (omega arith) (omega arith)

abbrev entry : LedgerEntry
entry = record {
  fields = record {
    seq = 1;
    prev = codes "prev";
    recorded_at = codes "2026-03-01T12:00:00Z";
    command = codes "push";
    argv = [];
    state_id = codes "state";
    state_dir = codes "dir";
    outcome = codes "success";
    toolchain = [];
    commit_log = [];
    environment = [];
    release = [];
    relocations = [];
  };
  entry_hash = codes "hash";
}

-- A directory whose first entry was already written by another process.
abbrev raced : Directory
raced = record {
  present = true;
  files = (codes "000001.toml", codes "theirs") ∷ (head_name, codes "garbage") ∷ [];
}

-- A codec that promises nothing of the tables that it reads back.
abbrev loose_toml : Toml (λ t table. Unit)
loose_toml = record {
  dumps = λ table. canonical_json (obj table);
  loads = λ content. parsed end;
  loads_dumps = λ table storable. (end, refl, tt);
}

raced-found : file_at raced.files (codes "000001.toml") ≡ some (codes "theirs")
unfolding file_at text_eq
raced-found = refl

first_name-head : text_eq head_name (codes "000001.toml") ≡ false
unfolding text_eq
first_name-head = refl

first_name-tmp : text_eq (head_tmp (codes "7")) (codes "000001.toml") ≡ false
unfolding text_eq
first_name-tmp = refl

write_entry-kept_example :
    file_at
      (write_entry loose_toml (codes "6") (codes "7") entry raced).1.files
      (codes "000001.toml")
    ≡ some (codes "theirs")
write_entry-kept_example =
    write_entry-kept loose_toml (codes "6") (codes "7") entry raced (codes "000001.toml")
      (codes "theirs") raced-found first_name-head first_name-tmp

abbrev argv_with : Text → List Text
argv_with secret =
    codes "--token"
    ∷ secret
    ∷ (codes "--password=" ++ secret)
    ∷ (codes "https://" ++ (secret ++ codes "@host"))
    ∷ codes "push"
    ∷ []

push-same : alone (scrub_path none (codes "push")) ≡ false
unfolding flags_alone listed scrub_path text_eq
push-same = refl

first-Url : Url b'h' b't' (codes "tps") (codes "abc") (codes "host")
unfolding is_letter is_scheme_char is_userinfo_char
first-Url = record {
  letter = refl;
  second_char = refl;
  scheme_chars = (refl, (refl, (refl, tt)));
  info_some = refl;
  info_chars = (refl, (refl, (refl, tt)));
  rest_line = (refl, (refl, (refl, (refl, tt))));
}

second-Url : Url b'h' b't' (codes "tps") (codes "--xyz") (codes "host")
unfolding is_letter is_scheme_char is_userinfo_char
second-Url = record {
  letter = refl;
  second_char = refl;
  scheme_chars = (refl, (refl, (refl, tt)));
  info_some = refl;
  info_chars = (refl, (refl, (refl, (refl, (refl, tt)))));
  rest_line = (refl, (refl, (refl, (refl, tt))));
}

two_secrets : Alike none (argv_with (codes "abc")) (argv_with (codes "--xyz"))
two_secrets = next_value (codes "abc") (codes "--xyz") (codes "token") a_token (
    joined_value (codes "abc") (codes "--xyz") (codes "password") a_password
      (refl, (refl, (refl, tt))) (refl, (refl, (refl, (refl, (refl, tt)))))
      (userinfo b'h' b't' (codes "tps") (codes "abc") (codes "--xyz") (codes "host") first-Url
        second-Url (same (codes "push") push-same done)))

scrub-Alike_example : scrub none (argv_with (codes "abc")) ≡ scrub none (argv_with (codes "--xyz"))
scrub-Alike_example =
    scrub-Alike none (argv_with (codes "abc")) (argv_with (codes "--xyz")) (λ v w line e. cc)
      two_secrets

-- A directory with one entry and a HEAD that cannot be read.
abbrev stale : Directory
stale = record {
  present = true;
  files =
      (head_name, codes "garbage")
      ∷ (codes "000001.toml", plain_toml.dumps (to_toml_payload entry))
      ∷ [];
}

stale-recompute_head :
    recompute_head plain_toml stale ≡ ok (some (record { seq = 1; entry_hash = codes "hash" }))
unfolding recompute_head read_all_entries read_entry to_toml_payload entry_from_payload read_table
    write_table get text_eq sorted
stale-recompute_head = refl

stale-read_head : read_head plain_toml stale ≡ ok none
unfolding read_head file_at text_eq read_table
stale-read_head = refl

verify_and_repair_head-read_head_example :
    ((verify_and_repair_head plain_toml (codes "7") stale).0
      ≡ ok (some (record { seq = 1; entry_hash = codes "hash" })))
    × (read_head plain_toml (verify_and_repair_head plain_toml (codes "7") stale).1
        ≡ ok (some (record { seq = 1; entry_hash = codes "hash" })))
verify_and_repair_head-read_head_example =
    verify_and_repair_head-read_head plain_toml (codes "7") stale
      (some (record { seq = 1; entry_hash = codes "hash" })) none stale-recompute_head
      stale-read_head

abbrev empty : Directory
empty = record { present = false; files = [] }

no_temporary : file_at empty.files (entry_tmp (codes "6") entry) ≡ none
unfolding file_at
no_temporary = refl

no_entry : file_at empty.files (entry_name entry.seq) ≡ none
unfolding file_at
no_entry = refl

write_entry-read_head_example :
    ((write_entry plain_toml (codes "6") (codes "7") entry empty).0 ≡ ok (entry_name 1))
    × (file_at (write_entry plain_toml (codes "6") (codes "7") entry empty).1.files (entry_name 1)
        ≡ some (plain_toml.dumps (to_toml_payload entry)))
    × (read_head plain_toml (write_entry plain_toml (codes "6") (codes "7") entry empty).1
        ≡ ok (some (pointer_of entry)))
write_entry-read_head_example =
    write_entry-read_head plain_toml (codes "6") (codes "7") entry empty (omega arith) no_temporary
      no_entry
