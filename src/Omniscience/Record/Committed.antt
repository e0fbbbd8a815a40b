-- ===== src/Omniscience/Record/Committed.antt =====
-- What a registration's own hash covers (`preimage`, `record_hash`), and that it covers no more.
use complex_git_sync.Prelude.{
  ℕ, ◌≡◌, refl, sym, ap, ◌∙◌, ◌⊎◌, inl, inr, Option, none, some, ◌++◌, Bool-cases, false_ne_true,
  none_ne_some, append_inj, Text, Bytes, codes, text_eq, text_eq→eq, text_eq_iff,
}
use complex_git_sync.Merkle.Hex.{hex, hex-inj}
use complex_git_sync.Merkle.Json.{Json, num, str, obj, Members, end, get, normalise, canonical_json}
use complex_git_sync.Merkle.Json.Lookup.{normal, same_at, get-normalise}
use complex_git_sync.Merkle.Root.{record_tag, record_hash, tagged}
use complex_git_sync.Memory.Entry.Hash.{Collision}
use complex_git_sync.Omniscience.Record.{
  OmniscienceRecord, preimage, operating_space, memory, optional_text, optional_num, own_hash,
}

-- Two registrations that agree in every committed field.
pub record Committed (r s : OmniscienceRecord) : Type 0 where
  pub schema : r.schema ≡ s.schema
  pub project : r.project ≡ s.project
  pub os_id : r.os_id ≡ s.os_id
  pub project_branch : r.project_branch ≡ s.project_branch
  pub state_id : r.state_id ≡ s.state_id
  pub gittree_root : r.gittree_root ≡ s.gittree_root
  pub local_ledger_tip : r.local_ledger_tip ≡ s.local_ledger_tip
  pub local_memory_git_commit : r.local_memory_git_commit ≡ s.local_memory_git_commit
  pub memory_repository : r.memory_repository ≡ s.memory_repository
  pub memory_mount : r.memory_mount ≡ s.memory_mount
  pub memory_ref : r.memory_ref ≡ s.memory_ref
  pub memory_commit : r.memory_commit ≡ s.memory_commit
  pub published_state_id : r.published_state_id ≡ s.published_state_id
  pub sigma : r.sigma ≡ s.sigma

-- The bytes that are hashed for a registration.
abbrev pub record_bytes : OmniscienceRecord → Bytes
record_bytes r = record_tag ++ canonical_json (obj (preimage r))

num_value : {a b : ℕ} → some (num a) ≡ some (num b) → a ≡ b
num_value e = cc

str_value : {a b : Text} → some (str a) ≡ some (str b) → a ≡ b
str_value e = cc

obj_value : {a b : Members} → some (obj a) ≡ some (obj b) → a ≡ b
obj_value e = cc

abbrev text_json : Option Text → Option Json
text_json none = none
text_json (some s) = some (str s)

abbrev num_json : Option ℕ → Option Json
num_json none = none
num_json (some n) = some (num n)

text_json-inj : (a b : Option Text) → normal (text_json a) ≡ normal (text_json b) → a ≡ b
unfolding normalise
text_json-inj none none e = refl
text_json-inj none (some s) e = absurd (none_ne_some e)
text_json-inj (some s) none e = absurd (none_ne_some (sym e))
text_json-inj (some s) (some t) e = ap some (str_value e)

num_json-inj : (a b : Option ℕ) → normal (num_json a) ≡ normal (num_json b) → a ≡ b
unfolding normalise
num_json-inj none none e = refl
num_json-inj none (some n) e = absurd (none_ne_some e)
num_json-inj (some n) none e = absurd (none_ne_some (sym e))
num_json-inj (some n) (some m) e = ap some (num_value e)

abbrev last_members : Option Text → Option ℕ → Members
last_members o n = optional_text (codes "published_state_id") o (optional_num (codes "sigma") n end)

get-published :
    (o : Option Text) (n : Option ℕ)
    → get (last_members o n) (codes "published_state_id") ≡ text_json o
unfolding get text_eq
get-published none none = refl
get-published none (some n) = refl
get-published (some s) n = refl

get-sigma : (o : Option Text) (n : Option ℕ) → get (last_members o n) (codes "sigma") ≡ num_json n
unfolding get text_eq
get-sigma none none = refl
get-sigma none (some n) = refl
get-sigma (some s) none = refl
get-sigma (some s) (some n) = refl

at_published :
    (r : OmniscienceRecord)
    → get (preimage r) (codes "published_state_id") ≡ text_json r.published_state_id
unfolding preimage get text_eq
at_published r = get-published r.published_state_id r.sigma

at_sigma : (r : OmniscienceRecord) → get (preimage r) (codes "sigma") ≡ num_json r.sigma
unfolding preimage get text_eq
at_sigma r = get-sigma r.published_state_id r.sigma

module _ (r s : OmniscienceRecord)
    (e : canonical_json (obj (preimage r)) ≡ canonical_json (obj (preimage s))) where
  at_key : (key : Text) → normal (get (preimage r) key) ≡ normal (get (preimage s) key)
  at_key key = same_at (preimage r) (preimage s) key e

  in_space :
      (key : Text)
      → normal (get (operating_space r end) key) ≡ normal (get (operating_space s end) key)
  unfolding preimage get text_eq normalise
  in_space key =
      sym (get-normalise (operating_space r end) key)
      ∙ ap (λ ms. get ms key) (obj_value (at_key (codes "operating_space")))
      ∙ get-normalise (operating_space s end) key

  in_memory : (key : Text) → normal (get (memory r end) key) ≡ normal (get (memory s end) key)
  unfolding preimage get text_eq normalise
  in_memory key =
      sym (get-normalise (memory r end) key)
      ∙ ap (λ ms. get ms key) (obj_value (at_key (codes "memory_repo")))
      ∙ get-normalise (memory s end) key

  preimage-Committed : Committed r s
  unfolding preimage get text_eq normalise
  preimage-Committed = record {
    schema = num_value (at_key (codes "schema"));
    project = str_value (at_key (codes "project"));
    os_id = str_value (in_space (codes "os_id"));
    project_branch = str_value (in_space (codes "project_branch"));
    state_id = str_value (in_space (codes "state_id"));
    gittree_root = str_value (in_space (codes "gittree_root"));
    local_ledger_tip = str_value (in_space (codes "local_ledger_tip"));
    local_memory_git_commit = str_value (in_space (codes "local_memory_git_commit"));
    memory_repository = str_value (in_memory (codes "repository"));
    memory_mount = str_value (in_memory (codes "mount"));
    memory_ref = str_value (in_memory (codes "ref"));
    memory_commit = str_value (in_memory (codes "commit"));
    published_state_id = text_json-inj _ _ (
        sym (ap normal (at_published r))
        ∙ at_key (codes "published_state_id")
        ∙ ap normal (at_published s));
    sigma =
        num_json-inj _ _
          (sym (ap normal (at_sigma r)) ∙ at_key (codes "sigma") ∙ ap normal (at_sigma s));
  }

Committed-preimage : (r s : OmniscienceRecord) → Committed r s → preimage r ≡ preimage s
unfolding preimage
Committed-preimage r s c = cc

-- Two registrations with one record hash agree in every committed field, or else SHA-256 has a
-- collision, and it is that of their preimages' bytes; registrations that agree in the committed
-- fields have one record hash, whatever their claims, addresses and evidence are.
pub own_hash-Committed :
    (sha256 : Bytes → Bytes) (r s : OmniscienceRecord)
    → (own_hash sha256 r ≡ own_hash sha256 s
        → Committed r s ⊎ Collision sha256 (record_bytes r) (record_bytes s))
      × (Committed r s → own_hash sha256 r ≡ own_hash sha256 s)
own_hash-Committed sha256 r s =
    (committed, λ c. unfold own_hash in ap (record_hash sha256) (Committed-preimage r s c))
  where
    same_hex :
        own_hash sha256 r ≡ own_hash sha256 s
        → hex (sha256 (record_bytes r)) ≡ hex (sha256 (record_bytes s))
    same_hex h = unfold own_hash record_hash tagged in h

    committed :
        own_hash sha256 r ≡ own_hash sha256 s
        → Committed r s ⊎ Collision sha256 (record_bytes r) (record_bytes s)
    committed h = elim (Bool-cases (text_eq (record_bytes r) (record_bytes s))) [
      | inl same ↦ inl (
          preimage-Committed r s
            (append_inj record_tag _ record_tag _ refl (text_eq→eq _ _ same)).1)
      | inr differ ↦ inr (record {
        differ = λ e. false_ne_true (sym differ ∙ (text_eq_iff _ _).1 e);
        same = hex-inj _ _ (same_hex h);
      })
    ]
