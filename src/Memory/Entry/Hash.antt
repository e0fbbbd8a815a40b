-- ===== src/Memory/Entry/Hash.antt =====
-- Two entries with one hash say the same, unless their canonical bytes collide.
use complex_git_sync.Prelude.{
  ℕ, ◌≡◌, refl, sym, ap, ◌∙◌, ◌≢◌, ◌⊎◌, inl, inr, none, some, List, [], ◌∷◌, if◌then◌else◌,
  Bool-cases, some_inj, false_ne_true, none_ne_some, drop, is_empty, Text, Bytes, codes, text_eq,
  text_eq→eq, text_eq_iff,
}
use complex_git_sync.Merkle.Hex.{hex, hex-inj}
use complex_git_sync.Merkle.Json.{
  num, str, arr, obj, Items, get, normalise, canonical_json, normalise_items,
}
use complex_git_sync.Merkle.Json.Lookup.{normal, same_at}
use complex_git_sync.Merkle.Root.{digest, prefixed}
use complex_git_sync.Memory.Entry.{
  Pairs, Relocation, Fields, dict_of, relocation_items, canonical_payload, compute_hash, strings,
}
use complex_git_sync.Memory.Entry.Binding.{
  normalise_items-strings, strings-inj, relocation_items-inj, SameDict, dict_of-SameDict,
  SameFields,
}
use complex_git_sync.Memory.Entry.Payload.{
  at_toolchain, at_commit_log, at_environment, at_release, at_relocations,
}

-- The bytes that are hashed for an entry.
abbrev pub entry_bytes : Fields → Bytes
entry_bytes f = canonical_json (obj (canonical_payload f))

num_value : {a b : ℕ} → some (num a) ≡ some (num b) → a ≡ b
num_value e = cc

str_value : {a b : Text} → some (str a) ≡ some (str b) → a ≡ b
str_value e = cc

optional_text :
    (a b : Text)
    → normal (if is_empty a then none else some (str a))
      ≡ normal (if is_empty b then none else some (str b))
    → a ≡ b
unfolding normalise
optional_text [] [] e = refl
optional_text [] (y ∷ b) e = absurd (none_ne_some e)
optional_text (x ∷ a) [] e = absurd (none_ne_some (sym e))
optional_text (x ∷ a) (y ∷ b) e = str_value e

optional_dict :
    (a b : Pairs)
    → normal (if is_empty a then none else some (obj (dict_of a)))
      ≡ normal (if is_empty b then none else some (obj (dict_of b)))
    → SameDict a b
optional_dict [] [] e = λ name. refl
optional_dict [] (y ∷ b) e = absurd (none_ne_some e)
optional_dict (x ∷ a) [] e = absurd (none_ne_some (sym e))
optional_dict (x ∷ a) (y ∷ b) e = dict_of-SameDict (x ∷ a) (y ∷ b) (some_inj e)

arr_value : {xs ys : Items} → some (arr xs) ≡ some (arr ys) → xs ≡ ys
arr_value e = cc

optional_relocations :
    (a b : List Relocation)
    → normal (if is_empty a then none else some (arr (relocation_items a)))
      ≡ normal (if is_empty b then none else some (arr (relocation_items b)))
    → a ≡ b
unfolding normalise
optional_relocations [] [] e = refl
optional_relocations [] (y ∷ b) e = absurd (none_ne_some e)
optional_relocations (x ∷ a) [] e = absurd (none_ne_some (sym e))
optional_relocations (x ∷ a) (y ∷ b) e = relocation_items-inj (x ∷ a) (y ∷ b) (arr_value e)

module _ (f g : Fields) (e : entry_bytes f ≡ entry_bytes g) where
  at_key :
      (key : Text) → normal (get (canonical_payload f) key) ≡ normal (get (canonical_payload g) key)
  at_key key = same_at (canonical_payload f) (canonical_payload g) key e

  argv_items : normalise_items (strings f.argv) ≡ normalise_items (strings g.argv)
  unfolding canonical_payload get text_eq normalise
  argv_items = arr_value (at_key (codes "argv"))

  same_argv : f.argv ≡ g.argv
  same_argv =
      strings-inj f.argv g.argv
        (sym (normalise_items-strings f.argv) ∙ argv_items ∙ normalise_items-strings g.argv)

  -- The canonical bytes determine every field of an entry.
  pub entry_bytes-SameFields : SameFields f g
  unfolding canonical_payload get text_eq normalise
  entry_bytes-SameFields = record {
    seq = num_value (at_key (codes "seq"));
    prev = str_value (at_key (codes "prev"));
    recorded_at = str_value (at_key (codes "recorded_at"));
    command = str_value (at_key (codes "command"));
    argv = same_argv;
    state_id = str_value (at_key (codes "state_id"));
    state_dir = str_value (at_key (codes "state_dir"));
    outcome = str_value (at_key (codes "outcome"));
    toolchain = optional_dict f.toolchain g.toolchain (
        sym (ap normal (at_toolchain f)) ∙ at_key (codes "toolchain") ∙ ap normal (at_toolchain g));
    commit_log = optional_text f.commit_log g.commit_log (
        sym (ap normal (at_commit_log f))
        ∙ at_key (codes "commit_log")
        ∙ ap normal (at_commit_log g));
    environment = optional_text f.environment g.environment (
        sym (ap normal (at_environment f))
        ∙ at_key (codes "environment")
        ∙ ap normal (at_environment g));
    release =
        optional_dict f.release g.release
          (sym (ap normal (at_release f)) ∙ at_key (codes "release") ∙ ap normal (at_release g));
    relocations = optional_relocations f.relocations g.relocations (
        sym (ap normal (at_relocations f))
        ∙ at_key (codes "relocations")
        ∙ ap normal (at_relocations g));
  }

-- Two different inputs with one hash.
pub record Collision (sha256 : Bytes → Bytes) (a b : Bytes) : Type 0 where
  pub differ : a ≢ b
  pub same : sha256 a ≡ sha256 b

-- Two entries with one hash agree in every field, the toolchain and the release as dictionaries, or
-- else SHA-256 has a collision, and it is that of their canonical bytes.
pub compute_hash-SameFields :
    (sha256 : Bytes → Bytes) (f g : Fields)
    → compute_hash sha256 f ≡ compute_hash sha256 g
    → SameFields f g ⊎ Collision sha256 (entry_bytes f) (entry_bytes g)
compute_hash-SameFields sha256 f g h = elim (Bool-cases (text_eq (entry_bytes f) (entry_bytes g))) [
  | inl same ↦ inl (entry_bytes-SameFields f g (text_eq→eq _ _ same))
  | inr differ ↦ inr (record {
    differ = λ e. false_ne_true (sym differ ∙ (text_eq_iff _ _).1 e);
    same = hex-inj _ _ (same_hex h);
  })
]
  where
    same_hex :
        compute_hash sha256 f ≡ compute_hash sha256 g
        → hex (sha256 (entry_bytes f)) ≡ hex (sha256 (entry_bytes g))
    same_hex h = unfold compute_hash prefixed digest in ap (drop 7) h
