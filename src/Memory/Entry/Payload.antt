-- ===== src/Memory/Entry/Payload.antt =====
-- What the canonical payload of an entry holds at each key.
use complex_git_sync.Prelude.{◌≡◌, none, some, arith, if◌then◌else◌, is_empty, codes, text_eq}
use complex_git_sync.Merkle.Json.{str, arr, obj, get}
use complex_git_sync.Memory.Entry.{Fields, dict_of, relocation_items, canonical_payload}

module _ (f : Fields) where
  pub at_toolchain :
      get (canonical_payload f) (codes "toolchain")
      ≡ (if is_empty f.toolchain then none else some (obj (dict_of f.toolchain)))
  unfolding canonical_payload get text_eq
  at_toolchain = ground arith

  pub at_commit_log :
      get (canonical_payload f) (codes "commit_log")
      ≡ (if is_empty f.commit_log then none else some (str f.commit_log))
  unfolding canonical_payload get text_eq
  at_commit_log = ground arith

  pub at_environment :
      get (canonical_payload f) (codes "environment")
      ≡ (if is_empty f.environment then none else some (str f.environment))
  unfolding canonical_payload get text_eq
  at_environment = ground arith

  pub at_release :
      get (canonical_payload f) (codes "release")
      ≡ (if is_empty f.release then none else some (obj (dict_of f.release)))
  unfolding canonical_payload get text_eq
  at_release = ground arith

  pub at_relocations :
      get (canonical_payload f) (codes "relocations")
      ≡ (if is_empty f.relocations then none else some (arr (relocation_items f.relocations)))
  unfolding canonical_payload get text_eq
  at_relocations = ground arith
