-- ===== src/Merkle/Json/Lookup.antt =====
-- Lookups in the members of an object: sorting the keys and the canonical bytes keep them.
use complex_git_sync.Prelude.{
  ◌≡◌, refl, sym, ap, ◌∙◌, inl, inr, Option, none, some, arith, if◌then◌else◌, Bool-cases, Text,
  text_eq, text_eq_iff, text_lt_irrefl,
}
use complex_git_sync.Merkle.Json.{
  Json, str, obj, Members, end, field, get, put, insert_member, normalise, normalise_members,
  canonical_json,
}
use complex_git_sync.Merkle.Json.Injective.{canonical_json-inj}

abbrev pub normal : Option Json → Option Json
normal none = none
normal (some v) = some (normalise v)

get-insert_member :
    (k : Text) (v : Json) (ms : Members) (key : Text)
    → get (insert_member k v ms) key ≡ (if text_eq k key then some v else get ms key)
unfolding get insert_member
get-insert_member k v end key = refl
get-insert_member k v (field j w ms) key =
    ground
      (arith, get-insert_member k v ms key, text_eq_iff j key, text_eq_iff k key, text_lt_irrefl j)

normalise_members_field :
    (k : Text) (v : Json) (ms : Members) (key : Text)
    → get (normalise_members (field k v ms)) key
      ≡ (if text_eq k key then some (normalise v) else get (normalise_members ms) key)
normalise_members_field k v ms key =
    unfold normalise_members in get-insert_member k (normalise v) (normalise_members ms) key

normal_field :
    (k : Text) (v : Json) (ms : Members) (key : Text)
    → (if text_eq k key then some (normalise v) else normal (get ms key))
      ≡ normal (get (field k v ms) key)
unfolding get
normal_field k v ms key = ground arith

-- Sorting the keys changes no lookup.
pub get-normalise :
    (ms : Members) (key : Text) → get (normalise_members ms) key ≡ normal (get ms key)
get-normalise end key = unfold normalise_members get in refl
get-normalise (field k v ms) key =
    normalise_members_field k v ms key
    ∙ ap (λ rest. if text_eq k key then some (normalise v) else rest) (get-normalise ms key)
    ∙ normal_field k v ms key

-- What the canonical bytes say of one key.
pub same_at :
    (ms ns : Members) (key : Text)
    → canonical_json (obj ms) ≡ canonical_json (obj ns)
    → normal (get ms key) ≡ normal (get ns key)
unfolding normalise get
same_at ms ns key e =
    sym (get-normalise ms key)
    ∙ ap (members_at key) ((canonical_json-inj _ _).0 e)
    ∙ get-normalise ns key
  where
    members_at : Text → Json → Option Json
    members_at key (obj ms) = get ms key
    members_at key _ = none

pub get-put :
    (ms : Members) (name key : Text) (v : Json)
    → get (put ms name v) key ≡ (if text_eq name key then some v else get ms key)
unfolding get put
get-put end name key v = refl
get-put (field k w ms) name key v =
    ground
      (arith, get-put ms name key v, text_eq_iff k name, text_eq_iff k key, text_eq_iff name key)

-- All values are strings, which sorting leaves as they are.
abbrev pub AllStrings : Members → Type 0
AllStrings end = Unit
AllStrings (field k (str s) ms) = AllStrings ms
AllStrings (field k v ms) = ⊥

pub put-AllStrings :
    (ms : Members) (name value : Text) → AllStrings ms → AllStrings (put ms name (str value))
unfolding put
put-AllStrings end name value h = tt
put-AllStrings (field k (str s) ms) name value h = elim (Bool-cases (text_eq k name)) [
  | inl same ↦ rw same h
  | inr other ↦ rw other (put-AllStrings ms name value h)
]
put-AllStrings (field k v ms) name value h = absurd h

pub normal_string : (ms : Members) (key : Text) → AllStrings ms → normal (get ms key) ≡ get ms key
unfolding get normalise
normal_string end key h = refl
normal_string (field k (str s) ms) key h = ground (arith, normal_string ms key)
normal_string (field k v ms) key h = absurd h
